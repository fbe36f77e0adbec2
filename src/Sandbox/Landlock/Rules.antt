-- ===== src/Sandbox/Landlock/Rules.antt =====
-- The rules that a walk over a list adds.
use oodar.Base.{
  ℕ, ◌≡◌, refl, arith, ap, sym, ◌∙◌, ltb, leb, ◌==◌, not, List, [], ◌∷◌, ◌++◌, length, ℤ, pos,
  negsuc, ==_iff, if_elim, append-nil, append_assoc, Option, none, some, get_or,
}
use oodar.Sandbox.Paths.{path_max, ll_part, ll_visit, after_part}
use oodar.Sandbox.Paths.Laws.{parts, visit_all, has_nul, ll_each_dir-visit_all}
use oodar.Sandbox.Paths.Valid.{listed}
use oodar.Sandbox.Landlock.{
  Kind, LandlockKernel, PathRule, rule_access, add_opened, ll_add_one, add_rules,
}

-- One rule for each part that is not empty, in order, with the rights of what stands at the path.
pub data RulesFor (k : LandlockKernel) (abi access : ℕ)
    : List (List ℕ) → List PathRule → Type 0 where
  nil : RulesFor k abi access [] []
  skip :
      {p : List ℕ} {ps : List (List ℕ)} {rs : List PathRule}
      → length p ≡ 0
      → RulesFor k abi access ps rs
      → RulesFor k abi access (p ∷ ps) rs
  rule :
      {p : List ℕ} {ps : List (List ℕ)} {rs : List PathRule} (r : PathRule) (kind : Kind)
      → r.path ≡ p
      → k.open_path p ≡ some kind
      → r.allowed_access ≡ rule_access kind abi access
      → RulesFor k abi access ps rs
      → RulesFor k abi access (p ∷ ps) (r ∷ rs)

module _ (k : LandlockKernel) (abi access : ℕ) where
  -- What a part that was taken has added.
  pub data Added (p : List ℕ) (rules rules' : List PathRule) : Type 0 where
    nothing : length p ≡ 0 → rules' ≡ rules → Added p rules rules'
    one :
        (r : PathRule) (kind : Kind)
        → r.path ≡ p
        → k.open_path p ≡ some kind
        → r.allowed_access ≡ rule_access kind abi access
        → rules' ≡ rules ++ (r ∷ [])
        → Added p rules rules'

  record Visited (p : List ℕ) (rules : List PathRule) (r : ℤ × ℕ × List PathRule) : Type 0 where
    gives : (m : ℕ) → r.0 ≡ pos m → Added p rules r.2

  stopped-Visited :
      (p : List ℕ) (n : ℕ) (rules : List PathRule) (code : ℕ)
      → Visited p rules (negsuc code, n, rules)
  stopped-Visited p n rules code = record { gives = λ m h. absurd (cc) }

  add_opened-Visited :
      (p : List ℕ) (n : ℕ) (rules : List PathRule) (kind? : Option Kind)
      → k.open_path p ≡ kind?
      → Visited p rules
          (ll_visit (ll_add_one k abi access) n (add_opened k abi access p kind? rules))
  unfolding add_opened ll_visit
  add_opened-Visited p n rules none e = stopped-Visited p n rules 3
  add_opened-Visited p n rules (some kind) e =
      if_elim (λ r. Visited p rules (ll_visit (ll_add_one k abi access) n r))
        (k.adds p (rule_access kind abi access))
        (λ added. record {
          gives = λ m h.
              one (record { path = p; allowed_access = rule_access kind abi access }) kind refl e
                refl refl;
        })
        (λ refused. stopped-Visited p n rules 3)

  ll_part-Visited :
      (p : List ℕ) (n : ℕ) (rules : List PathRule)
      → Visited p rules (ll_part (ll_add_one k abi access) p n rules)
  unfolding ll_part ll_add_one
  ll_part-Visited p n rules =
      if_elim (Visited p rules) (length p == 0)
        (λ e. record { gives = λ m h. nothing ((==_iff _ _).0 e) refl })
        λ _.
          if_elim (Visited p rules) (leb path_max (length p)) (λ _. stopped-Visited p n rules 1)
            λ _.
              if_elim (Visited p rules) (not (get_or p 0 0 == b'/'))
                (λ _. stopped-Visited p n rules 2)
                λ _. add_opened-Visited p n rules (k.open_path p) refl

  -- The rules that a walk has added, if it was not stopped.
  pub record Rules (ps : List (List ℕ)) (before after : List PathRule) : Type 0 where
    pub added : List PathRule
    pub for_parts : RulesFor k abi access ps added
    pub joined : after ≡ before ++ added

  record Walked (ps : List (List ℕ)) (rules : List PathRule) (r : ℤ × ℕ × List PathRule)
      : Type 0 where
    adds : (m : ℕ) → r.0 ≡ pos m → Rules ps rules r.2

  add-Rules :
      (p : List ℕ) (ps : List (List ℕ)) (a b c : List PathRule)
      → Added p a b
      → Rules ps b c
      → Rules (p ∷ ps) a c
  add-Rules p ps a b c (nothing e same) r = record {
    added = r.added;
    for_parts = skip e r.for_parts;
    joined = rw (← same) r.joined;
  }
  add-Rules p ps a b c (one q kind e o acc same) r = record {
    added = q ∷ r.added;
    for_parts = rule q kind e o acc r.for_parts;
    joined = rw (r.joined, same) (append_assoc a (q ∷ []) r.added);
  }

  after_part-Rules :
      (p : List ℕ) (ps : List (List ℕ)) (a : List PathRule) (r : ℤ × ℕ × List PathRule)
      (on : ℕ → List PathRule → ℤ × ℕ × List PathRule)
      → Visited p a r
      → ((n : ℕ) (b : List PathRule) → Walked ps b (on n b))
      → Walked (p ∷ ps) a (after_part r on)
  after_part-Rules p ps a (pos m', n, b) on v rest = record {
    adds = λ m h. add-Rules p ps a b _ (v.gives m' refl) ((rest n b).adds m h);
  }
  after_part-Rules p ps a (negsuc m', n, b) on v rest = record { adds = λ m h. absurd (cc) }

  visit_all-Rules :
      (ps : List (List ℕ)) (n : ℕ) (rules : List PathRule)
      → Walked ps rules (visit_all (ll_add_one k abi access) ps n rules)
  unfolding visit_all
  visit_all-Rules [] n rules = record {
    adds = λ m h. record { added = []; for_parts = nil; joined = sym (append-nil rules) };
  }
  visit_all-Rules (p ∷ ps) n rules =
      if_elim (Walked (p ∷ ps) rules) (has_nul p) (λ nul. record { adds = λ m h. absurd (cc) })
        (λ clean.
          after_part-Rules p ps rules _ _ (ll_part-Visited p n rules) λ n b. visit_all-Rules ps n b)

  -- A list without parts needs no walk.
  unlisted : (ps : List (List ℕ)) → listed ps ≡ 0 → RulesFor k abi access ps []
  unlisted [] e = nil
  unlisted (p ∷ ps) e = skip (ground (arith, ==_iff (length p) 0)) (unlisted ps (omega arith))

  pub add_rules-Rules :
      (dirs : List ℕ) (count : ℕ) (rules : List PathRule)
      → count ≡ listed (parts dirs)
      → (m : ℕ) → (add_rules k abi access dirs count rules).0 ≡ pos m
      → Rules (parts dirs) rules (add_rules k abi access dirs count rules).1
  unfolding add_rules
  add_rules-Rules dirs count rules e =
      if_elim (λ (r : ℤ × List PathRule). (m : ℕ) → r.0 ≡ pos m → Rules (parts dirs) rules r.1)
        (ltb 0 count)
        (λ some_listed m h. rw (ll_each_dir-visit_all (ll_add_one k abi access) dirs rules) (
          (visit_all-Rules (parts dirs) 0 rules).adds m
            (ap (λ r. r.0) (sym (ll_each_dir-visit_all (ll_add_one k abi access) dirs rules)) ∙ h)))
        (λ none_listed m h. record {
          added = [];
          for_parts = unlisted (parts dirs) (ground arith);
          joined = sym (append-nil rules);
        })

-- ===== src/Sandbox/Paths/Laws.antt =====
-- The walks against the parts of the list.
use oodar.Base.{
  ℕ, ◌≡◌, ◌≢◌, refl, arith, ap, sym, ◌∙◌, leb, ◌==◌, if◌then◌else◌, Bool, true, false, List, [],
  ◌∷◌, ◌++◌, length, get_or, ℤ, pos, negsuc, append_assoc, append-nil, Bool-cases, inl, inr, ◌||◌,
  fun_ext, if_of_true, if_of_false,
}
use oodar.Sandbox.Paths.{path_max, ll_visit, ll_part, after_part, ll_walk, ll_each_dir}

unfoldable pub has_nul : List ℕ → Bool
has_nul [] = false
has_nul (c ∷ p) = c == 0 || has_nul p

-- `front` goes before the first part.
unfoldable pub onto : List ℕ → List (List ℕ) → List (List ℕ)
onto front [] = front ∷ []
onto front (p ∷ ps) = (front ++ p) ∷ ps

-- The parts between the colons, of which there is one at least.
unfoldable pub parts : List ℕ → List (List ℕ)
parts [] = [] ∷ []
parts (c ∷ dirs) = let rest = parts dirs in if c == b':' then [] ∷ rest else onto (c ∷ []) rest

onto-nil : (ps : List (List ℕ)) → ps ≢ [] → onto [] ps ≡ ps
unfolding onto
onto-nil [] ne = absurd (ne refl)
onto-nil (p ∷ ps) ne = refl

onto-cons : (front : List ℕ) (ps : List (List ℕ)) → onto front ps ≢ []
unfolding onto
onto-cons front [] e = cc
onto-cons front (p ∷ ps) e = cc

parts-colon : (c : ℕ) (dirs : List ℕ) → (c == b':') ≡ true → parts (c ∷ dirs) ≡ [] ∷ parts dirs
unfolding parts
parts-colon c dirs e = if_of_true _ _ e

parts-other :
    (c : ℕ) (dirs : List ℕ) → (c == b':') ≡ false → parts (c ∷ dirs) ≡ onto (c ∷ []) (parts dirs)
unfolding parts
parts-other c dirs e = if_of_false _ _ e

parts-cons : (dirs : List ℕ) → parts dirs ≢ []
parts-cons [] e = unfold parts in (cc)
parts-cons (c ∷ dirs) e = elim (Bool-cases (c == b':')) [
  | inl colon ↦ cc (parts-colon c dirs colon)
  | inr other ↦ onto-cons (c ∷ []) (parts dirs) (sym (parts-other c dirs other) ∙ e)
]

onto-onto : (a b : List ℕ) (ps : List (List ℕ)) → ps ≢ [] → onto a (onto b ps) ≡ onto (a ++ b) ps
unfolding onto
onto-onto a b [] ne = absurd (ne refl)
onto-onto a b (p ∷ ps) ne = ap (λ q. q ∷ ps) (sym (append_assoc a b p))

onto-empty : (front : List ℕ) (ps : List (List ℕ)) → onto front ([] ∷ ps) ≡ front ∷ ps
unfolding onto
onto-empty front ps = ap (λ q. q ∷ ps) (append-nil front)

has_nul-append : (p q : List ℕ) → has_nul (p ++ q) ≡ (has_nul p || has_nul q)
unfolding has_nul
has_nul-append [] q = refl
has_nul-append (c ∷ p) q = ground (arith, has_nul-append p q)

has_nul-last :
    (part : List ℕ) (c : ℕ) → has_nul part ≡ false → has_nul (part ++ (c ∷ [])) ≡ (c == 0)
unfolding has_nul
has_nul-last part c clean = rw (has_nul-append part (c ∷ []), clean) (ground arith)

module _ {S : Type 0} (fn : List ℕ → S → Bool × S) where
  -- The parts one by one: a part with a NUL byte stops the walk, then what the end of a part says.
  unfoldable pub visit_all : List (List ℕ) → ℕ → S → ℤ × ℕ × S
  visit_all [] n s = (pos 0, n, s)
  visit_all (p ∷ ps) n s =
      let on = after_part (ll_part fn p n s) (visit_all ps) in
      if has_nul p then (negsuc 0, n, s) else on

  ll_visit-last :
      (n : ℕ) (r : Bool × S) → after_part (ll_visit fn n r) (λ n s. (pos 0, n, s)) ≡ ll_visit fn n r
  unfolding ll_visit
  ll_visit-last n (true, s) = refl
  ll_visit-last n (false, s) = refl

  ll_part-last :
      (p : List ℕ) (n : ℕ) (s : S)
      → after_part (ll_part fn p n s) (λ n s. (pos 0, n, s)) ≡ ll_part fn p n s
  unfolding ll_part
  ll_part-last p n s = elim (Bool-cases (length p == 0)) [
    | inl none_left ↦ rw none_left refl
    | inr some_left ↦ elim (Bool-cases (leb path_max (length p))) [
      | inl long ↦ rw (some_left, long) refl
      | inr short ↦ elim (Bool-cases (get_or p 0 0 == b'/')) [
        | inl slash ↦ rw (some_left, short, slash) (ll_visit-last n (fn p s))
        | inr plain ↦ rw (some_left, short, plain) refl
      ]
    ]
  ]

  visit_all-onto_nul :
      (front : List ℕ) (ps : List (List ℕ)) (n : ℕ) (s : S)
      → has_nul front ≡ true
      → visit_all (onto front ps) n s ≡ (negsuc 0, n, s)
  unfolding visit_all onto
  visit_all-onto_nul front [] n s nul = if_of_true _ _ nul
  visit_all-onto_nul front (p ∷ ps) n s nul =
      if_of_true {c = has_nul (front ++ p)} _ _ (rw (has_nul-append front p, nul) refl)

  -- What is left of the walk, with `part` read, is the walk over the parts.
  ll_walk-visit_all :
      (dirs part : List ℕ) (n : ℕ) (s : S)
      → has_nul part ≡ false
      → ll_walk fn dirs part n s ≡ visit_all (onto part (parts dirs)) n s
  unfolding ll_walk visit_all
  ll_walk-visit_all [] part n s clean =
      unfold parts onto in rw (append-nil, clean) (sym (ll_part-last part n s))
  ll_walk-visit_all (c ∷ dirs) part n s clean = elim (Bool-cases (c == b':')) [
    | inl colon ↦
        rw (if_of_true _ _ colon, parts-colon c dirs colon, onto-empty, if_of_false _ _ clean)
          (ap (after_part (ll_part fn part n s)) (
            fun_ext λ k. fun_ext λ t.
              ll_walk-visit_all dirs [] k t (unfold has_nul in refl)
              ∙ ap (λ ps. visit_all ps k t) (onto-nil (parts dirs) (parts-cons dirs))))
    | inr other ↦
        rw
          (
            if_of_false _ _ other,
            parts-other c dirs other,
            onto-onto part (c ∷ []) (parts dirs) (parts-cons dirs),
          )
          (elim (Bool-cases (c == 0)) [
            | inl nul ↦ rw (if_of_true _ _ nul) (
                sym (
                  visit_all-onto_nul (part ++ (c ∷ [])) (parts dirs) n s
                    (has_nul-last part c clean ∙ nul)))
            | inr char ↦
                rw (if_of_false _ _ char)
                  (ll_walk-visit_all dirs (part ++ (c ∷ [])) n s (has_nul-last part c clean ∙ char))
          ])
  ]

  -- For every list and every callback the walk is the visit of the parts between the colons, in order:
  -- a part with a NUL byte stops it with -1; an empty part is passed over; a part of 4096 bytes or more
  -- stops it with -2, one that does not begin with a slash with -3, and one that the callback refuses
  -- with -4; any other is handed to the callback and counted.
  pub ll_each_dir-visit_all :
      (dirs : List ℕ) (s : S) → ll_each_dir fn dirs s ≡ visit_all (parts dirs) 0 s
  unfolding ll_each_dir
  ll_each_dir-visit_all dirs s =
      ll_walk-visit_all dirs [] 0 s (unfold has_nul in refl)
      ∙ ap (λ ps. visit_all ps 0 s) (onto-nil (parts dirs) (parts-cons dirs))

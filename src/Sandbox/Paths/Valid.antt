-- ===== src/Sandbox/Paths/Valid.antt =====
-- Which lists pass the validation, and that both walks agree.
use oodar.Base.{
  ℕ, ◌+◌, ◌≡◌, ◌<◌, refl, arith, ap, sym, ◌∙◌, ◌==◌, if◌then◌else◌, Bool, true, false, List, [],
  ◌∷◌, ◌++◌, length, get_or, ℤ, pos, negsuc, Bool-cases, inl, inr, fun_ext, ◌⊎◌, ==_iff, ◌↔◌,
  if_of_true, if_of_false,
}
use oodar.Sandbox.Paths.{
  ll_visit, ll_part, after_part, ll_walk, ll_each_dir, count_only, sand_part, after_check,
  sand_walk, sand_validate_paths,
}
use oodar.Sandbox.Paths.Laws.{has_nul, parts, visit_all, ll_each_dir-visit_all}

-- A part that the walk passes over or takes.
pub record IsGood (p : List ℕ) : Type 0 where
  pub no_nul : has_nul p ≡ false
  pub shape : (length p ≡ 0) ⊎ ((length p < 4096) × (get_or p 0 0 ≡ b'/'))

abbrev pub AllGood : List (List ℕ) → Type 0
AllGood [] = Unit
AllGood (p ∷ ps) = IsGood p × AllGood ps

-- How many parts are not empty.
abbrev pub listed : List (List ℕ) → ℕ
listed [] = 0
listed (p ∷ ps) = (if length p == 0 then 0 else 1) + listed ps

abbrev pub keep {ℓ} : {S : Type ℓ} → ℤ × ℕ × S → ℤ × ℕ
keep (rc, n, s) = (rc, n)

keep-after_part :
    (r : ℤ × ℕ × Unit {0}) (on : ℕ → Unit {0} → ℤ × ℕ × Unit {0})
    → keep (after_part r on) ≡ after_check (keep r) (λ n. keep (on n tt))
keep-after_part (pos k, n, s) on = refl
keep-after_part (negsuc k, n, s) on = refl

keep-ll_part : (p : List ℕ) (n : ℕ) → keep (ll_part count_only p n tt) ≡ sand_part p n
unfolding ll_part ll_visit sand_part
keep-ll_part p n = ground arith

keep-ll_walk :
    (dirs part : List ℕ) (n : ℕ) → keep (ll_walk count_only dirs part n tt) ≡ sand_walk dirs part n
unfolding ll_walk sand_walk
keep-ll_walk [] part n = keep-ll_part part n
keep-ll_walk (c ∷ dirs) part n = elim (Bool-cases (c == b':')) [
  | inl colon ↦
      rw (if_of_true _ _ colon, if_of_true _ _ colon)
        (keep-after_part (ll_part count_only part n tt) (ll_walk count_only dirs [])
          ∙ ap (λ r. after_check r (λ n. keep (ll_walk count_only dirs [] n tt)))
              (keep-ll_part part n)
          ∙ ap (after_check (sand_part part n)) (fun_ext λ k. keep-ll_walk dirs [] k))
  | inr other ↦ elim (Bool-cases (c == 0)) [
    | inl nul ↦
        rw (if_of_false _ _ other, if_of_false _ _ other, if_of_true _ _ nul, if_of_true _ _ nul)
          refl
    | inr char ↦
        rw
          (if_of_false _ _ other, if_of_false _ _ other, if_of_false _ _ char, if_of_false _ _ char)
          (keep-ll_walk dirs (part ++ (c ∷ [])) n)
  ]
]

-- The validation of the sandbox gives the code and the count of the walk of Landlock without a
-- callback, for every list.
pub keep-ll_each_dir :
    (dirs : List ℕ) → keep (ll_each_dir count_only dirs tt) ≡ sand_validate_paths dirs
unfolding ll_each_dir sand_validate_paths
keep-ll_each_dir dirs = keep-ll_walk dirs [] 0

module _ {S : Type 0} (fn : List ℕ → S → Bool × S) where
  ll_part-good :
      (p : List ℕ) (n : ℕ) (s : S) {k : ℕ}
      → (ll_part fn p n s).0 ≡ pos k
      → (length p ≡ 0) ⊎ ((length p < 4096) × (get_or p 0 0 ≡ b'/'))
  unfolding ll_part
  ll_part-good p n s h = elim (Bool-cases (length p == 0)) [
    | inl e ↦ inl ((==_iff _ _).0 e)
    | inr e ↦ inr (ground (arith, ==_iff (get_or p 0 0) b'/'))
  ]

  after_part-good :
      (r : ℤ × ℕ × S) (on : ℕ → S → ℤ × ℕ × S) {k : ℕ}
      → (after_part r on).0 ≡ pos k
      → (m : ℕ) × (r.0 ≡ pos m) × ((on r.1 r.2).0 ≡ pos k)
  after_part-good (pos m, n, s) on h = (m, refl, h)
  after_part-good (negsuc m, n, s) on h = absurd (cc)

  stopped :
      {c : Bool} (n : ℕ) (s : S) (r : ℤ × ℕ × S) {k : ℕ}
      → (if c then (negsuc 0, n, s) else r).0 ≡ pos k
      → (c ≡ false) × (r.0 ≡ pos k)
  stopped {c = true} n s r h = absurd (cc)
  stopped {c = false} n s r h = (refl, h)

  -- A walk that does not stop has seen good parts only.
  pub visit_all-AllGood :
      (ps : List (List ℕ)) (n : ℕ) (s : S) {k : ℕ} → (visit_all fn ps n s).0 ≡ pos k → AllGood ps
  unfolding visit_all
  visit_all-AllGood [] n s h = tt
  visit_all-AllGood (p ∷ ps) n s h =
      let (clean, on) = stopped n s (after_part (ll_part fn p n s) (visit_all fn ps)) h in
      let (m, taken, rest) = after_part-good (ll_part fn p n s) (visit_all fn ps) on in
      (
        record { no_nul = clean; shape = ll_part-good p n s taken },
        visit_all-AllGood ps (ll_part fn p n s).1 (ll_part fn p n s).2 rest,
      )

ll_part-IsGood :
    (p : List ℕ) (n : ℕ)
    → IsGood p
    → ll_part count_only p n tt ≡ (pos 0, (if length p == 0 then 0 else 1) + n, tt)
unfolding ll_part ll_visit
ll_part-IsGood p n g = ground arith

visit_all-listed :
    (ps : List (List ℕ)) (n : ℕ)
    → AllGood ps
    → visit_all count_only ps n tt ≡ (pos 0, listed ps + n, tt)
unfolding visit_all
visit_all-listed [] n g = ap (λ (k : ℕ). (pos 0, k, tt)) (omega arith)
visit_all-listed (p ∷ ps) n (g, gs) =
    rw
      (
        g.no_nul,
        ll_part-IsGood p n g,
        visit_all-listed ps ((if length p == 0 then 0 else 1) + n) gs,
      )
      (ap (λ k. (pos 0, k, tt)) (omega arith))

-- The validation returns 0 exactly for the lists all of whose parts have no NUL byte and are empty, or
-- begin with a slash and have fewer than 4096 bytes; and then the count is the number of parts that
-- are not empty.
pub sand_validate_paths_lem :
    (dirs : List ℕ)
    → ((sand_validate_paths dirs).0 ≡ pos 0 ↔ AllGood (parts dirs))
      × (AllGood (parts dirs) → sand_validate_paths dirs ≡ (pos 0, listed (parts dirs)))
sand_validate_paths_lem dirs =
    let same = ap keep (sym (ll_each_dir-visit_all count_only dirs tt)) ∙ keep-ll_each_dir dirs in
    let counted : AllGood (parts dirs) → sand_validate_paths dirs ≡ (pos 0, listed (parts dirs)) =
      λ g.
        sym same
        ∙ ap keep (visit_all-listed (parts dirs) 0 g)
        ∙ ap (λ k. (pos 0, k)) (omega arith) in
    (
      (
        λ h. visit_all-AllGood count_only (parts dirs) 0 tt (ap (λ r. r.0) same ∙ h),
        λ g. ap (λ r. r.0) (counted g),
      ),
      counted,
    )

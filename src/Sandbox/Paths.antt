-- ===== src/Sandbox/Paths.antt =====
-- The walk over a list of directories that colons separate: `ll_each_dir` of
-- sec/landlock/landlock/landlock_restrict.c and `sand_validate_paths` of
-- sec/landlock/sandbox/sandbox_config.c. A null `data` is the empty list. The code behind -1, -2, -3
-- and -4 is `negsuc` 0 to 3.
pub mod Laws
pub mod Valid
use oodar.Base.{
  ℕ, zero, suc, ◌+◌, ltb, leb, ◌==◌, if◌then◌else◌, Bool, true, false, not, List, [], ◌∷◌, ◌++◌,
  length, get_or, ℤ, pos, negsuc,
}

-- `PATH_MAX`, and the 4096 of `sand_validate_paths`.
abbrev pub path_max : ℕ
path_max = 4096

module _ {S : Type 0} (fn : List ℕ → S → Bool × S) where
  -- The call of `fn` and the count.
  unfoldable pub ll_visit : ℕ → Bool × S → ℤ × ℕ × S
  ll_visit n (true, s) = (pos 0, n + 1, s)
  ll_visit n (false, s) = (negsuc 3, n, s)

  -- What happens at the end of a part.
  unfoldable pub ll_part : List ℕ → ℕ → S → ℤ × ℕ × S
  ll_part part n s =
      if length part == 0
      then (pos 0, n, s)
      else if leb path_max (length part)
      then (negsuc 1, n, s)
      else if not (get_or part 0 0 == b'/')
      then (negsuc 2, n, s)
      else ll_visit n (fn part s)

abbrev pub after_part {ℓ} : {S : Type ℓ} → ℤ × ℕ × S → (ℕ → S → ℤ × ℕ × S) → ℤ × ℕ × S
after_part (pos k, n, s) on = on n s
after_part (negsuc k, n, s) on = (negsuc k, n, s)

module _ {S : Type 0} (fn : List ℕ → S → Bool × S) where
  -- `part` is what was read since the last colon.
  unfoldable pub ll_walk : List ℕ → List ℕ → ℕ → S → ℤ × ℕ × S
  ll_walk [] part n s = ll_part fn part n s
  ll_walk (c ∷ dirs) part n s =
      let next = after_part (ll_part fn part n s) (ll_walk dirs []) in
      let on = ll_walk dirs (part ++ (c ∷ [])) n s in
      if c == b':' then next else if c == 0 then (negsuc 0, n, s) else on

  unfoldable pub ll_each_dir : List ℕ → S → ℤ × ℕ × S
  ll_each_dir dirs s = ll_walk dirs [] 0 s

-- `fn == NULL`
abbrev pub count_only : List ℕ → Unit {0} → Bool × Unit {0}
count_only part s = (true, s)

-- The end of a part in the validation: the code, and the count.
unfoldable pub sand_part : List ℕ → ℕ → ℤ × ℕ
sand_part part n =
    if ltb 0 (length part)
    then (if leb 4096 (length part)
        then (negsuc 1, n)
        else if not (get_or part 0 0 == b'/')
        then (negsuc 2, n)
        else (pos 0, n + 1))
    else (pos 0, n)

abbrev pub after_check : ℤ × ℕ → (ℕ → ℤ × ℕ) → ℤ × ℕ
after_check (pos k, n) on = on n
after_check (negsuc k, n) on = (negsuc k, n)

unfoldable pub sand_walk : List ℕ → List ℕ → ℕ → ℤ × ℕ
sand_walk [] part n = sand_part part n
sand_walk (c ∷ dirs) part n =
    let next = after_check (sand_part part n) (sand_walk dirs []) in
    let on = sand_walk dirs (part ++ (c ∷ [])) n in
    if c == b':' then next else if c == 0 then (negsuc 0, n) else on

unfoldable pub sand_validate_paths : List ℕ → ℤ × ℕ
sand_validate_paths dirs = sand_walk dirs [] 0

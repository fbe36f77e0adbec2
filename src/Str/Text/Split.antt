-- ===== src/Str/Text/Split.antt =====
-- `str_split`: the parts of a text between the places of a delimiter.
use oodar.Base.{ℕ, zero, suc, ◌-◌, ◌≡◌, ◌≢◌, refl, arith, ap, sym, ◌∙◌, ◌==◌, if◌then◌else◌}
use oodar.Base.{
  false, Bool-cases, inl, inr, List, [], ◌∷◌, ◌++◌, append-nil, append_assoc, length, drop,
}
use oodar.Str.Text.Search.{at_head, at_head-Occurs}

-- The loop over the bytes. `skip` bytes of a delimiter that was found are still ahead; `part` is the
-- text since the last delimiter.
pub split_loop : List ℕ → ℕ → List ℕ → List ℕ → List (List ℕ)
unfolding at_head
split_loop delim skip part [] = part ∷ []
split_loop delim (suc skip) part (c ∷ s) = split_loop delim skip part s
split_loop delim zero part (c ∷ s) =
    let found = part ∷ split_loop delim (length delim - 1) [] s in
    let on = split_loop delim zero (part ++ (c ∷ [])) s in
    if at_head delim (c ∷ s) then found else on

-- An empty text has no parts; with an empty delimiter the text is the one part.
unfoldable pub str_split : List ℕ → List ℕ → List (List ℕ)
unfolding split_loop
str_split [] delim = []
str_split (c ∷ s) [] = (c ∷ s) ∷ []
str_split (c ∷ s) (d ∷ delim) = split_loop (d ∷ delim) zero [] (c ∷ s)

-- The parts with the delimiter between them.
unfoldable pub join : List ℕ → List (List ℕ) → List ℕ
join delim [] = []
join delim (p ∷ []) = p
join delim (p ∷ q ∷ rest) = p ++ (delim ++ join delim (q ∷ rest))

join-cons :
    (delim p : List ℕ) (k : ℕ) (part s : List ℕ)
    → join delim (p ∷ split_loop delim k part s)
      ≡ p ++ (delim ++ join delim (split_loop delim k part s))
unfolding split_loop join
join-cons delim p zero part [] = refl
join-cons delim p (suc k) part [] = refl
join-cons delim p (suc k) part (c ∷ s) = join-cons delim p k part s
join-cons delim p zero part (c ∷ s) = elim (Bool-cases (at_head delim (c ∷ s))) [
  | inl found ↦ rw found refl
  | inr on ↦ rw on (join-cons delim p zero (part ++ (c ∷ [])) s)
]

drop_prefix : (xs ys : List ℕ) → drop (length xs) (xs ++ ys) ≡ ys
drop_prefix [] ys = refl
drop_prefix (x ∷ xs) ys = drop_prefix xs ys

join-split_loop :
    (d : ℕ) (delim : List ℕ) (k : ℕ) (part s : List ℕ)
    → join (d ∷ delim) (split_loop (d ∷ delim) k part s) ≡ part ++ drop k s
unfolding split_loop join
join-split_loop d delim zero part [] = sym (append-nil part)
join-split_loop d delim (suc k) part [] = sym (append-nil part)
join-split_loop d delim (suc k) part (c ∷ s) = join-split_loop d delim k part s
join-split_loop d delim zero part (c ∷ s) = elim (Bool-cases (at_head (d ∷ delim) (c ∷ s))) [
  | inl found ↦
      let (r, h) = at_head-Occurs (d ∷ delim) (c ∷ s) found in
      let others : s ≡ delim ++ r = cc in
      let past : suc (length delim) - 1 ≡ length delim = omega arith in
      let after = join-split_loop d delim (suc (length delim) - 1) [] s in
      rw found (
        join-cons (d ∷ delim) part (suc (length delim) - 1) [] s
        ∙ ap (λ l. part ++ (d ∷ (delim ++ l)))
            (after
              ∙ ap (λ n. drop n s) past
              ∙ ap (drop (length delim)) others
              ∙ drop_prefix delim r)
        ∙ ap (λ l. part ++ l) (sym h))
  | inr on ↦
      rw on (join-split_loop d delim zero (part ++ (c ∷ [])) s ∙ append_assoc part (c ∷ []) s)
]

-- Where neither the text nor the delimiter is empty, joining the parts with the delimiter gives the
-- text back.
pub join-str_split :
    (c : ℕ) (s : List ℕ) (d : ℕ) (delim : List ℕ)
    → join (d ∷ delim) (str_split (c ∷ s) (d ∷ delim)) ≡ c ∷ s
unfolding str_split
join-str_split c s d delim = join-split_loop d delim zero [] (c ∷ s)

-- No tab among the bytes.
abbrev pub NoTab : List ℕ → Type 0
NoTab [] = Unit
NoTab (c ∷ s) = (c ≢ 9) × NoTab s

abbrev pub tab : List ℕ
tab = 9 ∷ []

-- A text without tabs in front of a tab, or at the end, is one part.
pub split_field :
    (part seg rest : List ℕ)
    → NoTab seg
    → split_loop tab zero part (seg ++ (9 ∷ rest)) ≡ (part ++ seg) ∷ split_loop tab zero [] rest
unfolding split_loop at_head
split_field part [] rest t = ap (λ p. p ∷ split_loop tab zero [] rest) (sym (append-nil part))
split_field part (c ∷ seg) rest (ne, t) =
    let other : (9 == c) ≡ false = ground arith in
    rw other (
      split_field (part ++ (c ∷ [])) seg rest t
      ∙ ap (λ p. p ∷ split_loop tab zero [] rest) (append_assoc part (c ∷ []) seg))

pub split_last : (part seg : List ℕ) → NoTab seg → split_loop tab zero part seg ≡ (part ++ seg) ∷ []
unfolding split_loop at_head
split_last part [] t = ap (λ p. p ∷ []) (sym (append-nil part))
split_last part (c ∷ seg) (ne, t) =
    let other : (9 == c) ≡ false = ground arith in
    rw other
      (split_last (part ++ (c ∷ [])) seg t ∙ ap (λ p. p ∷ []) (append_assoc part (c ∷ []) seg))

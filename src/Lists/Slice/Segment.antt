-- ===== src/Lists/Slice/Segment.antt =====
-- A part of the elements of a payload, and the same part of the list that they make.
use oodar.Base.{ℕ, zero, suc, ◌+◌, ◌-◌, ◌≤◌, ◌≡◌, refl, sym, ap, ◌∙◌, arith, Bool-cases, inl, inr}
use oodar.Base.{Option, Option-cases, List, [], ◌∷◌, ◌++◌, take, drop, min, ltb}
use oodar.Lists.{OoListBlock, list_new}
use oodar.Lists.Holds.{upto, shown, listed}

module _ {ℓ} {A : Type ℓ} where
  -- The elements i to i + n - 1.
  unfoldable pub segment : ℕ → ℕ → (ℕ → A) → List A
  segment i zero f = []
  segment i (suc n) f = f i ∷ segment (suc i) n f

  segment-snoc : (i n : ℕ) (f : ℕ → A) → segment i (suc n) f ≡ segment i n f ++ (f (i + n) ∷ [])
  unfolding segment
  segment-snoc i zero f = ap (λ k. f k ∷ []) (omega arith)
  segment-snoc i (suc n) f =
      let shifted : suc i + n ≡ i + suc n = omega arith in
      ap (λ l. f i ∷ l)
        (segment-snoc (suc i) n f ∙ ap (λ k. segment (suc i) n f ++ (f k ∷ [])) shifted)

  upto-segment : (n : ℕ) (f : ℕ → A) → upto n f ≡ segment 0 n f
  unfolding upto segment
  upto-segment zero f = refl
  upto-segment (suc n) f =
      let plain : n ≡ 0 + n = omega arith in
      ap (λ l. l ++ (f n ∷ [])) (upto-segment n f)
      ∙ ap (λ k. segment 0 n f ++ (f k ∷ [])) plain
      ∙ sym (segment-snoc 0 n f)

  take-segment : (j n m : ℕ) (f : ℕ → A) → n ≤ m → take n (segment j m f) ≡ segment j n f
  unfolding segment
  take-segment j zero m f le = refl
  take-segment j (suc n) zero f le = absurd (omega arith)
  take-segment j (suc n) (suc m) f le = ap (λ l. f j ∷ l) (take-segment (suc j) n m f (omega arith))

  take-drop-segment :
      (j i n m : ℕ) (f : ℕ → A) → i + n ≤ m → take n (drop i (segment j m f)) ≡ segment (j + i) n f
  unfolding segment
  take-drop-segment j zero n m f le =
      let same : j ≡ j + 0 = omega arith in
      take-segment j n m f (omega arith) ∙ ap (λ k. segment k n f) same
  take-drop-segment j (suc i) n zero f le = absurd (omega arith)
  take-drop-segment j (suc i) n (suc m) f le =
      let shifted : suc j + i ≡ j + suc i = omega arith in
      take-drop-segment (suc j) i n m f (omega arith) ∙ ap (λ k. segment k n f) shifted

  -- The elements between two bounds, the upper one not beyond the length.
  pub segment-bounds :
      (a m h : ℕ) (f : ℕ → A) → segment a (min h m - a) f ≡ take (min h m - a) (drop a (upto m f))
  unfolding segment
  segment-bounds a m h f = elim (Bool-cases (ltb a (min h m))) [
    | inl e ↦
        let start : 0 + a ≡ a = omega arith in
        sym (
          ap (λ xs. take (min h m - a) (drop a xs)) (upto-segment m f)
          ∙ take-drop-segment 0 a (min h m - a) m f (ground (arith, e))
          ∙ ap (λ k. segment k (min h m - a) f) start)
    | inr e ↦ let empty : min h m - a ≡ 0 = ground (arith, e) in rw (empty) refl
  ]

  pub listed-list_new : (block : ℕ → Option (OoListBlock A)) → listed block list_new ≡ []
  unfolding listed shown upto
  listed-list_new block = elim (Option-cases (block 0)) [
    | inl e ↦ rw (e) refl
    | inr (b, e) ↦ rw (e) refl
  ]

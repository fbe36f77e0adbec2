-- ===== src/Str/Text/Concat.antt =====
-- Concatenation and repetition. A string of 2^28 bytes or more counts as empty.
use oodar.Base.{
  ℕ, zero, suc, ◌+◌, ◌*◌, ◌/◌, ◌^◌, ◌≤◌, ◌≡◌, refl, arith, ap, ◌∙◌, ltb, if◌then◌else◌, ◌&&◌,
}
use oodar.Base.{
  Bool-cases, inl, inr, false, List, [], ◌∷◌, ◌++◌, length, length-append, ℤ, pos, negsuc,
}
use native.Mathlib.Nat.{div-mul-le_self, le-div_iff_mul-le}

unfoldable pub content : List ℕ → List ℕ
content s = if ltb (length s) (2 ^ 28) then s else []

pub oo_str_concat : List ℕ → List ℕ → List ℕ
unfolding content
oo_str_concat a b = content a ++ content b

pub oo_str_concat_list : List (List ℕ) → List ℕ
unfolding content
oo_str_concat_list [] = []
oo_str_concat_list (s ∷ rest) = content s ++ oo_str_concat_list rest

-- The length that is summed up before the payload is allocated.
pub total : List (List ℕ) → ℕ
unfolding content
total [] = 0
total (s ∷ rest) = length (content s) + total rest

-- At most 1024 copies, and no more than fit 2^28 bytes.
pub copies : List ℕ → ℤ → ℕ
unfolding content
copies s (negsuc n) = 0
copies s (pos n) =
    let m = if ltb 1024 n then 1024 else n in
    let sl = length (content s) in
    if ltb 0 sl && (ltb 0 m && ltb (2 ^ 28 / m) sl) then 2 ^ 28 / sl else m

pub times : ℕ → List ℕ → List ℕ
times zero s = []
times (suc n) s = s ++ times n s

pub oo_str_repeat : List ℕ → ℤ → List ℕ
unfolding times copies content
oo_str_repeat s n = times (copies s n) (content s)

-- The bytes that are copied fill the payload that was allocated for them exactly.
pub concat_list_fills : (l : List (List ℕ)) → length (oo_str_concat_list l) ≡ total l
unfolding oo_str_concat_list total
concat_list_fills [] = refl
concat_list_fills (s ∷ rest) =
    omega (arith, length-append (content s) (oo_str_concat_list rest), concat_list_fills rest)

length-times : (n : ℕ) (s : List ℕ) → length (times n s) ≡ n * length s
unfolding times
length-times zero s = omega arith
length-times (suc n) s = grind (arith, length-append s (times n s), length-times n s)

kept : (m sl : ℕ) → (ltb 0 sl && (ltb 0 m && ltb (2 ^ 28 / m) sl)) ≡ false → m * sl ≤ 2 ^ 28
kept m sl whole = elim (Bool-cases (ltb 0 m)) [
  | inl some_m ↦ elim (Bool-cases (ltb 0 sl)) [
    | inl some_sl ↦
        let fits : sl ≤ 2 ^ 28 / m = ground (arith, some_m, some_sl, whole) in
        grind
          (arith, (le-div_iff_mul-le {k = m} {x = sl} {y = 2 ^ 28} (ground (arith, some_m))).0 fits)
    | inr no_sl ↦ let z : sl ≡ 0 = ground (arith, no_sl) in rw z (omega arith)
  ]
  | inr no_m ↦ let z : m ≡ 0 = ground (arith, no_m) in rw z (omega arith)
]

copies_fit : (s : List ℕ) (n : ℕ) → copies s (pos n) * length (content s) ≤ 2 ^ 28
unfolding copies
copies_fit s n =
    let m : ℕ = if ltb 1024 n then 1024 else n in
    let sl : ℕ = length (content s) in
    elim (Bool-cases (ltb 0 sl && (ltb 0 m && ltb (2 ^ 28 / m) sl))) [
      | inl cut ↦ rw cut (div-mul-le_self (2 ^ 28) sl)
      | inr whole ↦ rw whole (kept m sl whole)
    ]

copies_asked :
    (s : List ℕ) (m : ℕ) → m ≤ 1024 → m * length (content s) ≤ 2 ^ 28 → copies s (pos m) ≡ m
unfolding copies
copies_asked s m few fits =
    let sl : ℕ = length (content s) in
    elim (Bool-cases (ltb 0 m)) [
      | inl some_m ↦
          let swapped : sl * m ≤ 2 ^ 28 = grind (arith, fits) in
          let room =
            (le-div_iff_mul-le {k = m} {x = sl} {y = 2 ^ 28} (ground (arith, some_m))).1 swapped in
          ground (arith, some_m, few, room)
      | inr no_m ↦ ground (arith, no_m, few)
    ]

none_for_negative : (s : List ℕ) (n : ℕ) → length (times (copies s (negsuc n)) (content s)) ≤ 2 ^ 28
unfolding copies times
none_for_negative s n = omega arith

-- A repetition never has more than 2^28 bytes, whatever the text and the number.
pub oo_str_repeat_bounds : (s : List ℕ) (n : ℤ) → length (oo_str_repeat s n) ≤ 2 ^ 28
unfolding oo_str_repeat
oo_str_repeat_bounds s (pos n) =
    omega (arith, length-times (copies s (pos n)) (content s), copies_fit s n)
oo_str_repeat_bounds s (negsuc n) = none_for_negative s n

-- Where at most 1024 copies are asked for and they fit 2^28 bytes, a repetition is that many copies.
pub oo_str_repeat_asked :
    (s : List ℕ) (m : ℕ)
    → m ≤ 1024
    → m * length (content s) ≤ 2 ^ 28
    → (oo_str_repeat s (pos m) ≡ times m (content s))
      × (length (oo_str_repeat s (pos m)) ≡ m * length (content s))
unfolding oo_str_repeat
oo_str_repeat_asked s m few fits =
    let e = ap (λ k. times k (content s)) (copies_asked s m few fits) in
    (e, ap length e ∙ length-times m (content s))

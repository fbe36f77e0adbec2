-- ===== src/Str/Text/Utf8/Laws.antt =====
-- The short ways through ASCII text against the scans.
use oodar.Base.{
  ℕ, zero, suc, ◌+◌, ◌-◌, ◌≤◌, ◌<◌, ◌≡◌, refl, arith, ap, ap₂, sym, ◌∙◌, ltb, leb, ◌==◌, ==_iff,
  ◌&&◌, ◌||◌,
}
use oodar.Base.{
  Bool, true, false, Bool-cases, inl, inr, List, [], ◌∷◌, ◌++◌, length, take, drop, get_or, some,
  pos, returns,
}
use oodar.Str.Text.Utf8.{
  width, count_chars, ascii_prefix, oo_chars_len, utf8_byte_index, char_bytes, oo_char_at,
  offset_of, slice_chars, oo_str_slice, between,
}

abbrev pub AllAscii : List ℕ → Type 0
AllAscii [] = Unit
AllAscii (c ∷ s) = (c < 0x80) × AllAscii s

at_zero :
    (p n : ℕ) (s : List ℕ) → p ≡ 0 → count_chars zero n s ≡ count_chars zero (n + p) (drop p s)
at_zero p n s e = rw e (ap (λ k. count_chars zero k s) (omega arith))

-- The scan over the ASCII bytes in front counts each of them.
count_past_prefix :
    (limit n : ℕ) (s : List ℕ)
    → count_chars zero n s
      ≡ count_chars zero (n + ascii_prefix limit s) (drop (ascii_prefix limit s) s)
unfolding ascii_prefix count_chars width
count_past_prefix zero n s = ap (λ k. count_chars zero k s) (omega arith)
count_past_prefix (suc limit) n [] = omega arith
count_past_prefix (suc limit) n (c ∷ s) = elim (Bool-cases (ltb c 0x80)) [
  | inl ascii ↦ rw ascii (
      count_past_prefix limit (n + 1) s
      ∙ ap (λ k. count_chars zero k (drop (ascii_prefix limit s) s)) (omega arith))
  | inr other ↦
      let none_here : ascii_prefix (suc limit) (c ∷ s) ≡ 0 = rw other refl in
      at_zero (ascii_prefix (suc limit) (c ∷ s)) n (c ∷ s) none_here
]

count_ascii : (n : ℕ) (s : List ℕ) → AllAscii s → count_chars zero n s ≡ n + length s
unfolding count_chars width
count_ascii n [] a = omega arith
count_ascii n (c ∷ s) (lt, a) =
    let ascii : ltb c 0x80 ≡ true = ground arith in rw ascii (count_ascii (n + 1) s a ∙ omega arith)

drop_all : (s : List ℕ) → drop (length s) s ≡ []
drop_all [] = refl
drop_all (c ∷ s) = drop_all s

count_none : (n : ℕ) → count_chars zero n [] ≡ n
unfolding count_chars
count_none n = refl

at_whole : (p : ℕ) (s : List ℕ) → p ≡ length s → count_chars zero (0 + p) (drop p s) ≡ length s
at_whole p s e =
    ap (λ k. count_chars zero (0 + k) (drop k s)) e
    ∙ ap (λ l. count_chars zero (0 + length s) l) (drop_all s)
    ∙ count_none (0 + length s)
    ∙ omega arith

-- Both short ways of `oo_chars_len` give the count of the scan from the first byte, where the flag is
-- set for ASCII text only.
pub oo_chars_len_lem :
    (flagged : Bool) (s : List ℕ)
    → (flagged ≡ true → AllAscii s)
    → oo_chars_len flagged s ≡ count_chars zero 0 s
unfolding oo_chars_len
oo_chars_len_lem true s honest = omega (arith, count_ascii 0 s (honest refl))
oo_chars_len_lem false s honest = elim (Bool-cases (ascii_prefix (length s) s == length s)) [
  | inl whole ↦
      let all : ascii_prefix (length s) s ≡ length s = ground (arith, whole) in
      rw whole (sym (count_past_prefix (length s) 0 s ∙ at_whole (ascii_prefix (length s) s) s all))
  | inr part ↦ rw part (
      sym (
        count_past_prefix (length s) 0 s
        ∙ ap (λ k. count_chars zero k (drop (ascii_prefix (length s) s) s)) (omega arith)))
]

get_end : (s : List ℕ) → get_or s (length s) 0 ≡ 0
get_end [] = refl
get_end (c ∷ s) = get_end s

-- `oo_char_at` accepts the index behind the last character of a text that is flagged as ASCII, and
-- copies the byte behind its end.
pub oo_char_at_end : (s : List ℕ) → oo_char_at true s (pos (length s)) ≡ returns (length s, 1)
unfolding oo_char_at utf8_byte_index char_bytes
oo_char_at_end s = ground (arith, get_end s)

-- The scan of a slice passes the ASCII bytes in front one by one.
offset_in_prefix :
    (k target cp i limit : ℕ) (s : List ℕ)
    → target ≡ cp + k
    → k ≤ ascii_prefix limit s
    → offset_of target zero cp i s ≡ some (i + k)
unfolding offset_of ascii_prefix width
offset_in_prefix zero target cp i limit [] e le = ground (arith, ==_iff cp target)
offset_in_prefix zero target cp i limit (c ∷ s) e le = ground (arith, ==_iff cp target)
offset_in_prefix (suc k) target cp i zero s e le = absurd (omega arith)
offset_in_prefix (suc k) target cp i (suc limit) [] e le = absurd (omega arith)
offset_in_prefix (suc k) target cp i (suc limit) (c ∷ s) e le = elim (Bool-cases (ltb c 0x80)) [
  | inl ascii ↦
      let not_yet : (cp == target) ≡ false = ground arith in
      let rest =
        offset_in_prefix k target (cp + 1) (i + 1) limit s (omega arith) (ground (arith, ascii)) in
      rw (ascii, not_yet) (rest ∙ ap some (omega arith))
  | inr other ↦ absurd (ground (arith, other, le))
]

prefix_offset :
    (k limit : ℕ) (s : List ℕ) → k ≤ ascii_prefix limit s → offset_of k zero 0 0 s ≡ some k
prefix_offset k limit s le =
    let e : 0 + k ≡ k = omega arith in offset_in_prefix k k 0 0 limit s (sym e) le ∙ ap some e

-- What a slice from `start` to `end` is by the scan alone.
abbrev pub scanned : List ℕ → ℕ → ℕ → List ℕ
scanned s start end = between s (offset_of start zero 0 0 s) (offset_of end zero 0 0 s)

-- Within a text that has as many bytes as `start`, and with `start` not beyond `end`, the short way of
-- `oo_str_slice` gives what the scan gives.
pub slice_scanned :
    (s : List ℕ) (start end : ℕ)
    → 0 < length s
    → start ≤ end
    → start ≤ length s
    → oo_str_slice s (pos start) (pos end) ≡ scanned s start end
unfolding oo_str_slice slice_chars
slice_scanned s start end some_bytes ordered inside =
    let no_refusal : (length s == 0 || (ltb end start || ltb (length s) start)) ≡ false =
      ground arith in
    elim (Bool-cases (leb end (length s) && ascii_prefix end s == end)) [
      | inl short ↦
          let all : ascii_prefix end s ≡ end = ground (arith, short) in
          rw (no_refusal, short)
            (ap₂ (between s) (sym (prefix_offset start end s (omega (arith, all))))
              (sym (prefix_offset end end s (omega (arith, all)))))
      | inr long ↦ rw (no_refusal, long) refl
    ]

-- Offsets grow with the characters passed, which are no more than the bytes passed.
offset_bounds :
    (target skip cp i x : ℕ) (s : List ℕ)
    → offset_of target skip cp i s ≡ some x
    → (i ≤ x) × (x ≤ i + length s) × (target ≤ cp + length s) × (cp ≤ target)
unfolding offset_of
offset_bounds target zero cp i x [] e = ground (arith, e)
offset_bounds target (suc skip) cp i x [] e = cc
offset_bounds target (suc skip) cp i x (c ∷ s) e =
    omega (arith, offset_bounds target skip cp (i + 1) x s e)
offset_bounds target zero cp i x (c ∷ s) e = elim (Bool-cases (cp == target)) [
  | inl here ↦ ground (arith, here, e)
  | inr on ↦ omega (arith, offset_bounds target (width c - 1) (cp + 1) (i + 1) x s (rw (on) at e))
]

offset_le :
    (t u skip cp i x y : ℕ) (s : List ℕ)
    → t ≤ u
    → offset_of t skip cp i s ≡ some x
    → offset_of u skip cp i s ≡ some y
    → x ≤ y
unfolding offset_of
offset_le t u zero cp i x y [] le e f = ground (arith, e, f)
offset_le t u (suc skip) cp i x y [] le e f = cc
offset_le t u (suc skip) cp i x y (c ∷ s) le e f = offset_le t u skip cp (i + 1) x y s le e f
offset_le t u zero cp i x y (c ∷ s) le e f = elim (Bool-cases (cp == t)) [
  | inl here ↦ ground (arith, here, e, offset_bounds u zero cp i y (c ∷ s) f)
  | inr on ↦ elim (Bool-cases (cp == u)) [
    | inl here ↦ ground (arith, here, on, offset_bounds t zero cp i x (c ∷ s) e)
    | inr on' ↦ offset_le t u (width c - 1) (cp + 1) (i + 1) x y s le (rw (on) at e) (rw (on') at f)
  ]
]

take_nil : (n : ℕ) → take {A = ℕ} n [] ≡ []
take_nil zero = refl
take_nil (suc n) = refl

drop_nil : (n : ℕ) → drop {A = ℕ} n [] ≡ []
drop_nil zero = refl
drop_nil (suc n) = refl

take_join : (x y : ℕ) (s : List ℕ) → take x s ++ take y (drop x s) ≡ take (x + y) s
take_join zero y s = ap (λ n. take n s) (omega arith)
take_join (suc x) y [] = take_nil y ∙ sym (take_nil (suc x + y))
take_join (suc x) y (c ∷ s) =
    let e : suc (x + y) ≡ suc x + y = omega arith in
    ap (λ l. c ∷ l) (take_join x y s) ∙ ap (λ n. take n (c ∷ s)) e

drop_join : (x y : ℕ) (s : List ℕ) → drop y (drop x s) ≡ drop (x + y) s
drop_join zero y s = ap (λ n. drop n s) (omega arith)
drop_join (suc x) y [] = drop_nil y ∙ sym (drop_nil (suc x + y))
drop_join (suc x) y (c ∷ s) =
    let e : suc (x + y) ≡ suc x + y = omega arith in drop_join x y s ∙ ap (λ n. drop n (c ∷ s)) e

between_join :
    (x y z : ℕ) (s : List ℕ)
    → x ≤ y
    → y ≤ z
    → between s (some x) (some y) ++ between s (some y) (some z) ≡ between s (some x) (some z)
unfolding between
between_join x y z s le le' =
    let mid : y ≡ x + (y - x) = omega arith in
    let whole : (y - x) + (z - y) ≡ z - x = omega arith in
    ap (λ l. take (y - x) (drop x s) ++ take (z - y) l)
      (ap (λ n. drop n s) mid ∙ sym (drop_join x (y - x) s))
    ∙ take_join (y - x) (z - y) (drop x s)
    ∙ ap (λ n. take n (drop x s)) whole

-- Where the scan reaches the characters `a`, `b` and `c` of a text that is not empty, with
-- `a` ≤ `b` ≤ `c`, the slice from `a` to `b` and the slice from `b` to `c` make up the slice from `a`
-- to `c`.
pub slice_join :
    (s : List ℕ) (a b c x y z : ℕ)
    → 0 < length s
    → a ≤ b
    → b ≤ c
    → offset_of a zero 0 0 s ≡ some x
    → offset_of b zero 0 0 s ≡ some y
    → offset_of c zero 0 0 s ≡ some z
    → oo_str_slice s (pos a) (pos b) ++ oo_str_slice s (pos b) (pos c)
      ≡ oo_str_slice s (pos a) (pos c)
slice_join s a b c x y z some_bytes le le' at_a at_b at_c =
    let in_a = offset_bounds a zero 0 0 x s at_a in
    let in_b = offset_bounds b zero 0 0 y s at_b in
    rw
      (
        slice_scanned s a b some_bytes le (omega (arith, in_a)),
        slice_scanned s b c some_bytes le' (omega (arith, in_b)),
        slice_scanned s a c some_bytes (omega arith) (omega (arith, in_a)),
        at_a,
        at_b,
        at_c,
      )
      (between_join x y z s (offset_le a b zero 0 0 x y s le at_a at_b)
        (offset_le b c zero 0 0 y z s le' at_b at_c))

-- ===== src/Str/Text/TokLine/Laws.antt =====
-- A token line has the length that was allocated, and its fields can be taken out again.
use oodar.Base.{
  ℕ, zero, suc, ◌+◌, ◌-◌, ◌*◌, ◌/◌, ◌%◌, ◌<◌, ◌≡◌, ◌≢◌, refl, arith, ap, ◌∙◌, ltb, ◌==◌,
}
use oodar.Base.{
  ◌⊎◌, false, Bool-cases, inl, inr, List, [], ◌∷◌, ◌++◌, length, length-append, ℤ, pos, negsuc,
}
use oodar.Str.Text.Split.{str_split, split_loop, tab, NoTab, split_field, split_last}
use oodar.Str.Text.Concat.{content}
use oodar.Str.Text.TokLine.{
  digits_onto, oo_int_to_str, escape_byte, escape, extra, oo_tok_line, tok_line_len, unescape,
}

escape_fills : (s : List ℕ) → length (escape s) ≡ length s + extra s
unfolding escape extra escape_byte
escape_fills [] = refl
escape_fills (c ∷ s) = ground (arith, escape_fills s)

-- The bytes that are written fill the payload that was allocated exactly.
pub tok_line_fills :
    (kind : List ℕ) (line col : ℤ) (text : List ℕ)
    → length (oo_tok_line kind line col text) ≡ tok_line_len kind line col text
unfolding oo_tok_line tok_line_len
tok_line_fills kind line col text = omega (
  arith,
  length-append (content kind)
      (9 ∷ (oo_int_to_str line ++ (9 ∷ (oo_int_to_str col ++ (9 ∷ escape (content text)))))),
  length-append (oo_int_to_str line) (9 ∷ (oo_int_to_str col ++ (9 ∷ escape (content text)))),
  length-append (oo_int_to_str col) (9 ∷ escape (content text)),
  escape_fills (content text),
)

unescape_plain : (c : ℕ) (s : List ℕ) → (c == b'\\') ≡ false → unescape (c ∷ s) ≡ c ∷ unescape s
unfolding unescape
unescape_plain c [] plain = refl
unescape_plain c (d ∷ s) plain = rw plain refl

-- What a byte is escaped as: a pair of bytes that reads back, or itself.
escape_byte_cases :
    (c : ℕ)
    → ((d : ℕ) × (escape_byte c ≡ b'\\' ∷ d ∷ [])
        × (d ≢ 9)
        × ((s : List ℕ) → unescape (b'\\' ∷ d ∷ s) ≡ c ∷ unescape s))
      ⊎ ((escape_byte c ≡ c ∷ []) × (c ≢ 9) × ((c == b'\\') ≡ false))
unfolding escape_byte unescape
escape_byte_cases c = elim (Bool-cases (c == 9)) [
  | inl tab ↦
      let e : c ≡ 9 = ground (arith, tab) in inl (b't', rw e refl, omega arith, λ s. rw e refl)
  | inr no_tab ↦ elim (Bool-cases (c == 10)) [
    | inl line ↦
        let e : c ≡ 10 = ground (arith, line) in inl (b'n', rw e refl, omega arith, λ s. rw e refl)
    | inr no_line ↦ elim (Bool-cases (c == b'\\')) [
      | inl slash ↦
          let e : c ≡ b'\\' = ground (arith, slash) in
          inl (b'\\', rw e refl, omega arith, λ s. rw e refl)
      | inr plain ↦ inr (rw (no_tab, no_line, plain) refl, ground (arith, no_tab), plain)
    ]
  ]
]

unescape_nil : unescape [] ≡ []
unfolding unescape
unescape_nil = refl

-- An escaped text reads back.
pub unescape-escape : (s : List ℕ) → unescape (escape s) ≡ s
unfolding escape
unescape-escape [] = unescape_nil
unescape-escape (c ∷ s) = elim (escape_byte_cases c) [
  | inl (d, e, ne, back) ↦ rw e (back (escape s) ∙ ap (λ l. c ∷ l) (unescape-escape s))
  | inr (e, ne, plain) ↦
      rw e (unescape_plain c (escape s) plain ∙ ap (λ l. c ∷ l) (unescape-escape s))
]

-- The value of decimal digits behind the number `acc`.
unfoldable pub value : ℕ → List ℕ → ℕ
value acc [] = acc
value acc (c ∷ s) = value (acc * 10 + (c - 48)) s

value-digits_onto :
    (fuel n : ℕ) (acc : List ℕ) → n < fuel → value 0 (digits_onto fuel n acc) ≡ value n acc
unfolding digits_onto value
value-digits_onto zero n acc lt = absurd (omega arith)
value-digits_onto (suc fuel) n acc lt = elim (Bool-cases (ltb n 10)) [
  | inl last ↦ rw last (ap (λ k. value k acc) (omega arith))
  | inr more ↦ rw more (
      value-digits_onto fuel (n / 10) ((48 + n % 10) ∷ acc) (ground (arith, more))
      ∙ ap (λ k. value k acc) (omega arith))
]

-- The decimal text of a number that is not negative has the value of the number; of a negative one it
-- is a minus sign and the digits of its absolute value.
pub value-oo_int_to_str :
    (n : ℕ)
    → (value 0 (oo_int_to_str (pos n)) ≡ n)
      × ((ds : List ℕ) × (oo_int_to_str (negsuc n) ≡ b'-' ∷ ds) × (value 0 ds ≡ suc n))
unfolding oo_int_to_str value
value-oo_int_to_str n = (
  value-digits_onto (suc n) n [] (omega arith),
  (
    digits_onto (suc (suc n)) (suc n) [],
    refl,
    value-digits_onto (suc (suc n)) (suc n) [] (omega arith),
  ),
)

NoTab-escape : (s : List ℕ) → NoTab (escape s)
unfolding escape
NoTab-escape [] = tt
NoTab-escape (c ∷ s) = elim (escape_byte_cases c) [
  | inl (d, e, ne, back) ↦ rw e (slash_no_tab, (ne, NoTab-escape s))
  | inr (e, ne, plain) ↦ rw e (ne, NoTab-escape s)
]
  where
    slash_no_tab : ◌≢◌ {A = ℕ} b'\\' 9
    slash_no_tab = omega arith

NoTab-digits_onto : (fuel n : ℕ) (acc : List ℕ) → NoTab acc → NoTab (digits_onto fuel n acc)
unfolding digits_onto
NoTab-digits_onto zero n acc t = t
NoTab-digits_onto (suc fuel) n acc t = elim (Bool-cases (ltb n 10)) [
  | inl last ↦ rw last ((λ e. omega arith), t)
  | inr more ↦
      rw more (NoTab-digits_onto fuel (n / 10) ((48 + n % 10) ∷ acc) ((λ e. omega arith), t))
]

NoTab-oo_int_to_str : (z : ℤ) → NoTab (oo_int_to_str z)
unfolding oo_int_to_str
NoTab-oo_int_to_str (pos n) = NoTab-digits_onto (suc n) n [] tt
NoTab-oo_int_to_str (negsuc n) =
    ((λ e. minus_no_tab e), NoTab-digits_onto (suc (suc n)) (suc n) [] tt)
  where
    minus_no_tab : ◌≢◌ {A = ℕ} b'-' 9
    minus_no_tab = omega arith

split_whole : (s : List ℕ) → s ≢ [] → str_split s tab ≡ split_loop tab zero [] s
unfolding str_split
split_whole [] ne = absurd (ne refl)
split_whole (c ∷ s) ne = refl

not_empty : (s rest : List ℕ) → s ++ (9 ∷ rest) ≢ []
not_empty [] rest e = cc
not_empty (c ∷ s) rest e = cc

-- Where the kind has no tab, splitting a token line at tabs gives the kind, the decimal numbers and
-- the escaped text.
pub split-oo_tok_line :
    (kind : List ℕ) (line col : ℤ) (text : List ℕ)
    → NoTab (content kind)
    → str_split (oo_tok_line kind line col text) tab
      ≡ content kind ∷ oo_int_to_str line ∷ oo_int_to_str col ∷ escape (content text) ∷ []
unfolding oo_tok_line
split-oo_tok_line kind line col text t =
    split_whole (oo_tok_line kind line col text) (not_empty (content kind) _)
    ∙ split_field [] (content kind) _ t
    ∙ ap (λ l. content kind ∷ l)
        (split_field [] (oo_int_to_str line) _ (NoTab-oo_int_to_str line)
          ∙ ap (λ l. oo_int_to_str line ∷ l)
              (split_field [] (oo_int_to_str col) _ (NoTab-oo_int_to_str col)
                ∙ ap (λ l. oo_int_to_str col ∷ l)
                    (split_last [] (escape (content text)) (NoTab-escape (content text)))))

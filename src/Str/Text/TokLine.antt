-- ===== src/Str/Text/TokLine.antt =====
-- `oo_tok_line` of str_tok.c, `kind \t line \t col \t text` with the text escaped, and the decimal
-- numbers of str_from_int.c, which `snprintf("%lld")` writes.
pub mod Laws
use oodar.Base.{
  ℕ, zero, suc, ◌+◌, ◌-◌, ◌*◌, ◌/◌, ◌%◌, ◌≤◌, ◌<◌, ◌≡◌, ◌≢◌, refl, arith, ap, sym, ◌∙◌, ltb, leb,
  ◌==◌, ==_iff, if◌then◌else◌, ◌&&◌, ◌||◌,
}
use oodar.Base.{
  Bool, true, false, Bool-cases, inl, inr, List, [], ◌∷◌, ◌++◌, append-nil, append_assoc, length,
  length-append, ℤ, pos, negsuc,
}
use oodar.Str.Text.Search.{at_head}
use oodar.Str.Text.Split.{str_split, split_loop}
use oodar.Str.Text.Concat.{content}

-- The digits of a number before those of `acc`; the number halves its digits with each round, so one
-- more round than its value is enough.
pub digits_onto : ℕ → ℕ → List ℕ → List ℕ
digits_onto zero n acc = acc
digits_onto (suc fuel) n acc =
    let rest = digits_onto fuel (n / 10) ((48 + n % 10) ∷ acc) in
    if ltb n 10 then (48 + n) ∷ acc else rest

pub oo_int_to_str : ℤ → List ℕ
unfolding digits_onto
oo_int_to_str (pos n) = digits_onto (suc n) n []
oo_int_to_str (negsuc n) = b'-' ∷ digits_onto (suc (suc n)) (suc n) []

-- The bytes that one byte of the text becomes.
pub escape_byte : ℕ → List ℕ
escape_byte c =
    if c == 9
    then b'\\' ∷ b't' ∷ []
    else if c == 10
    then b'\\' ∷ b'n' ∷ []
    else if c == b'\\'
    then b'\\' ∷ b'\\' ∷ []
    else c ∷ []

pub escape : List ℕ → List ℕ
unfolding escape_byte
escape [] = []
escape (c ∷ s) = escape_byte c ++ escape s

-- `extra`, the bytes that are counted before the allocation.
pub extra : List ℕ → ℕ
extra [] = 0
extra (c ∷ s) = (if c == 9 || (c == 10 || c == b'\\') then 1 else 0) + extra s

pub oo_tok_line : List ℕ → ℤ → ℤ → List ℕ → List ℕ
unfolding oo_int_to_str escape content
oo_tok_line kind line col text =
    content kind
    ++ (9 ∷ (oo_int_to_str line ++ (9 ∷ (oo_int_to_str col ++ (9 ∷ escape (content text))))))

-- `r.len`
pub tok_line_len : List ℕ → ℤ → ℤ → List ℕ → ℕ
unfolding oo_int_to_str extra content
tok_line_len kind line col text =
    length (content kind)
    + 1
    + length (oo_int_to_str line)
    + 1
    + length (oo_int_to_str col)
    + 1
    + length (content text)
    + extra (content text)

-- Takes an escaped text back.
pub unescape : List ℕ → List ℕ
unescape [] = []
unescape (c ∷ []) = c ∷ []
unescape (c ∷ d ∷ s) =
    let plain = c ∷ unescape (d ∷ s) in
    let pair = (if d == b't' then 9 else if d == b'n' then 10 else d) ∷ unescape s in
    if c == b'\\' then pair else plain

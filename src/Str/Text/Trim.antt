-- ===== src/Str/Text/Trim.antt =====
-- `oo_str_trim`, `str_trim` and the change of case.
use oodar.Base.{
  ℕ, ◌+◌, ◌-◌, ◌≡◌, refl, arith, ap, sym, ◌∙◌, subst, leb, ◌==◌, if◌then◌else◌, ◌&&◌, ◌||◌,
}
use oodar.Base.{Bool, true, false, Bool-cases, inl, inr, List, [], ◌∷◌, ◌++◌, map}

-- `isspace` and `tolower`, `toupper` of the C locale.
pub is_space : ℕ → Bool
is_space c = c == 32 || (leb 9 c && leb c 13)

pub to_lower : ℕ → ℕ
to_lower c = if leb b'A' c && leb c b'Z' then c + 32 else c

pub to_upper : ℕ → ℕ
to_upper c = if leb b'a' c && leb c b'z' then c - 32 else c

-- `while (start < len && isspace(data[start])) start++`
pub from_start : List ℕ → List ℕ
unfolding is_space
from_start [] = []
from_start (c ∷ s) = let rest = from_start s in if is_space c then rest else c ∷ s

-- A space stays where a byte stays behind it.
pub keep_byte : ℕ → List ℕ → List ℕ
unfolding is_space
keep_byte c [] = if is_space c then [] else c ∷ []
keep_byte c (d ∷ r) = c ∷ d ∷ r

-- `while (end > start && isspace(data[end - 1])) end--`
pub to_end : List ℕ → List ℕ
unfolding keep_byte
to_end [] = []
to_end (c ∷ s) = keep_byte c (to_end s)

-- `str_trim` is the same loop under another name.
pub oo_str_trim : List ℕ → List ℕ
unfolding from_start to_end
oo_str_trim s = to_end (from_start s)

pub has_upper : List ℕ → Bool
has_upper [] = false
has_upper (c ∷ s) = (leb b'A' c && leb c b'Z') || has_upper s

pub has_lower : List ℕ → Bool
has_lower [] = false
has_lower (c ∷ s) = (leb b'a' c && leb c b'z') || has_lower s

-- Without a capital the text itself is passed on.
pub oo_str_to_lowercase : List ℕ → List ℕ
unfolding has_upper to_lower
oo_str_to_lowercase s = if has_upper s then map to_lower s else s

pub oo_str_to_uppercase : List ℕ → List ℕ
unfolding has_lower to_upper
oo_str_to_uppercase s = if has_lower s then map to_upper s else s

abbrev pub AllSpace : List ℕ → Type 0
AllSpace [] = Unit
AllSpace (c ∷ s) = (is_space c ≡ true) × AllSpace s

-- No space at the head, and none at the end.
abbrev pub HeadBare : List ℕ → Type 0
HeadBare [] = Unit
HeadBare (c ∷ s) = is_space c ≡ false

abbrev pub EndBare : List ℕ → Type 0
EndBare [] = Unit
EndBare (c ∷ []) = is_space c ≡ false
EndBare (c ∷ d ∷ s) = EndBare (d ∷ s)

from_start_lem :
    (s : List ℕ)
    → (pre : List ℕ) × (s ≡ pre ++ from_start s) × AllSpace pre × HeadBare (from_start s)
unfolding from_start
from_start_lem [] = ([], refl, tt, tt)
from_start_lem (c ∷ s) = elim (Bool-cases (is_space c)) [
  | inl space ↦
      let (pre, e, all, bare) = from_start_lem s in
      rw space (c ∷ pre, ap (λ l. c ∷ l) e, (space, all), bare)
  | inr byte ↦ rw byte ([], refl, tt, byte)
]

keep_byte_lem :
    (c : ℕ) (t post s : List ℕ)
    → s ≡ t ++ post
    → AllSpace post
    → EndBare t
    → (post' : List ℕ) × (c ∷ s ≡ keep_byte c t ++ post') × AllSpace post' × EndBare (keep_byte c t)
unfolding keep_byte
keep_byte_lem c (d ∷ r) post s e all bare = (post, ap (λ l. c ∷ l) e, all, bare)
keep_byte_lem c [] post s e all bare = elim (Bool-cases (is_space c)) [
  | inl space ↦ rw space (c ∷ post, ap (λ l. c ∷ l) e, (space, all), tt)
  | inr byte ↦ rw byte (post, ap (λ l. c ∷ l) e, all, byte)
]

to_end_lem :
    (s : List ℕ) → (post : List ℕ) × (s ≡ to_end s ++ post) × AllSpace post × EndBare (to_end s)
unfolding to_end
to_end_lem [] = ([], refl, tt, tt)
to_end_lem (c ∷ s) =
    let (post, e, all, bare) = to_end_lem s in keep_byte_lem c (to_end s) post s e all bare

HeadBare-prefix : (t post : List ℕ) → HeadBare (t ++ post) → HeadBare t
HeadBare-prefix [] post bare = tt
HeadBare-prefix (c ∷ t) post bare = bare

-- A trimmed text is what is left between leading and trailing white space, and has no white space at
-- either end.
pub oo_str_trim_lem :
    (s : List ℕ)
    → (pre : List ℕ) × (post : List ℕ) × (s ≡ pre ++ (oo_str_trim s ++ post))
      × AllSpace pre
      × AllSpace post
      × HeadBare (oo_str_trim s)
      × EndBare (oo_str_trim s)
unfolding oo_str_trim
oo_str_trim_lem s =
    let (pre, e, all, bare) = from_start_lem s in
    let (post, e', all', bare') = to_end_lem (from_start s) in
    (
      pre,
      post,
      e ∙ ap (λ l. pre ++ l) e',
      all,
      all',
      HeadBare-prefix (to_end (from_start s)) post (subst HeadBare e' bare),
      bare',
    )

no_upper : (s : List ℕ) → has_upper s ≡ false → map to_lower s ≡ s
unfolding has_upper to_lower
no_upper [] e = refl
no_upper (c ∷ s) e = ground (arith, e, no_upper s)

no_lower : (s : List ℕ) → has_lower s ≡ false → map to_upper s ≡ s
unfolding has_lower to_upper
no_lower [] e = refl
no_lower (c ∷ s) e = ground (arith, e, no_lower s)

-- The scan that avoids a copy does not change the result: it is the text with every letter changed.
pub case_map :
    (s : List ℕ)
    → (oo_str_to_lowercase s ≡ map to_lower s) × (oo_str_to_uppercase s ≡ map to_upper s)
unfolding oo_str_to_lowercase oo_str_to_uppercase
case_map s = (
  elim (Bool-cases (has_upper s)) [
    | inl some_upper ↦ rw some_upper refl
    | inr none_upper ↦ rw none_upper (sym (no_upper s none_upper))
  ],
  elim (Bool-cases (has_lower s)) [
    | inl some_lower ↦ rw some_lower refl
    | inr none_lower ↦ rw none_lower (sym (no_lower s none_lower))
  ],
)

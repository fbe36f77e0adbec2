-- ===== src/Str/Text/Tests.antt =====
-- Runs of the text operations, and the instances of their theorems.
use oodar.Base.{ℕ, ◌≡◌, ◌⊎◌, refl, arith, true, false, pos, negsuc, List, [], ◌∷◌, ◌++◌, returns}
use oodar.Str.Text.Concat.{content}
use oodar.Str.Text.Search.{oo_str_index_of, oo_str_contains, Occurs, NotBefore, oo_str_index_of_lem}
use oodar.Str.Text.Split.{str_split, join, tab, join-str_split}
use oodar.Str.Text.Trim.{oo_str_trim, AllSpace, HeadBare, EndBare, oo_str_trim_lem}
use oodar.Str.Text.Utf8.{offset_of, width, oo_str_slice, oo_char_at}
use oodar.Str.Text.Utf8.Laws.{slice_join, oo_char_at_end}
use oodar.Str.Text.TokLine.{oo_int_to_str, escape, oo_tok_line, unescape}
use oodar.Str.Text.TokLine.Laws.{split-oo_tok_line, unescape-escape}

-- "abcbc" and "bc"
abbrev hay : List ℕ
hay = 97 ∷ 98 ∷ 99 ∷ 98 ∷ 99 ∷ []

abbrev needle : List ℕ
needle = 98 ∷ 99 ∷ []

oo_str_index_of_lem_example :
    ((i : ℕ) × (oo_str_index_of hay needle ≡ pos i)
      × (oo_str_contains hay needle ≡ true)
      × Occurs hay needle i
      × NotBefore hay needle i)
    ⊎ ((oo_str_index_of hay needle ≡ negsuc 0)
        × (oo_str_contains hay needle ≡ false)
        × ((j : ℕ) → Occurs hay needle j → ⊥))
oo_str_index_of_lem_example = oo_str_index_of_lem 98 (99 ∷ []) hay

join-str_split_example : join needle (str_split hay needle) ≡ hay
join-str_split_example = join-str_split 97 (98 ∷ 99 ∷ 98 ∷ 99 ∷ []) 98 (99 ∷ [])

-- " a b\n"
abbrev padded : List ℕ
padded = 32 ∷ 97 ∷ 32 ∷ 98 ∷ 10 ∷ []

oo_str_trim_lem_test :
    (pre : List ℕ) × (post : List ℕ) × (padded ≡ pre ++ (oo_str_trim padded ++ post))
    × AllSpace pre
    × AllSpace post
    × HeadBare (oo_str_trim padded)
    × EndBare (oo_str_trim padded)
oo_str_trim_lem_test = oo_str_trim_lem padded

-- "id" and a tab between two letters
abbrev kind : List ℕ
kind = 105 ∷ 100 ∷ []

abbrev tabbed : List ℕ
tabbed = 97 ∷ 9 ∷ 98 ∷ []

split-oo_tok_line_example :
    str_split (oo_tok_line kind (pos 12) (negsuc 0) tabbed) tab
    ≡ content kind
      ∷ oo_int_to_str (pos 12)
      ∷ oo_int_to_str (negsuc 0)
      ∷ escape (content tabbed)
      ∷ []
unfolding content
split-oo_tok_line_example =
    split-oo_tok_line kind (pos 12) (negsuc 0) tabbed
      (λ e. omega (arith, e), (λ e. omega (arith, e), tt))

unescape-escape_test : unescape (escape tabbed) ≡ tabbed
unescape-escape_test = unescape-escape tabbed

-- "é" between two letters: two bytes, one character
abbrev accented : List ℕ
accented = 97 ∷ 0xC3 ∷ 0xA9 ∷ 98 ∷ []

slice_join_test :
    oo_str_slice accented (pos 0) (pos 1) ++ oo_str_slice accented (pos 1) (pos 3)
    ≡ oo_str_slice accented (pos 0) (pos 3)
unfolding offset_of width
slice_join_test =
    slice_join accented 0 1 3 0 1 4 (omega arith) (omega arith) (omega arith) refl refl refl

oo_char_at_end_test : oo_char_at true kind (pos 2) ≡ returns (2, 1)
oo_char_at_end_test = oo_char_at_end kind

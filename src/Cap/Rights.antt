-- ===== src/Cap/Rights.antt =====
-- cap_attenuate_hmac.c: a sealed rights mask is narrowed to a subset. An `OoStr` whose bytes are
-- only read is the list of them; a null `data` or a negative `len` is the empty list, which the code
-- treats alike. `hmac` stands for `crypto_hmac_sha256_internal(g_kernel_hmac_key, ·)`.
pub mod Laws
use Prim.Native.Nat.{bit_and}
use Prim.Native.String.{String}
use oodar.Base.{
  ℕ, zero, suc, ◌+◌, ◌-◌, ◌*◌, ◌%◌, ◌^◌, leb, ◌==◌, if◌then◌else◌, ◌&&◌, Bool, true, false,
}
use oodar.Base.{List, [], ◌∷◌, ◌++◌, Option, none, some, length, u64}
use oodar.Base.Bits.{complement}

-- `'0'..'9'`, `'a'..'f'`, `'A'..'F'`
unfoldable pub hex_digit : ℕ → Option ℕ
hex_digit c =
    if leb b'0' c && leb c b'9'
    then some (c - b'0')
    else if leb b'a' c && leb c b'f'
    then some (c - b'a' + 10)
    else if leb b'A' c && leb c b'F'
    then some (c - b'A' + 10)
    else none

-- The loop over at most `left` characters. `r << 4` drops the bits above 64, and `d` fits the four
-- that it clears.
pub parse_from : ℕ → ℕ → List ℕ → Option ℕ
parse_from zero r s = some r
parse_from (suc left) r [] = some r
parse_from (suc left) r (c ∷ s) = elim (hex_digit c) [
  | none ↦ none
  | some d ↦ parse_from left (u64 (r * 16) + d) s
]

unfoldable pub cap_parse_rights : List ℕ → Option ℕ
unfolding parse_from hex_digit
cap_parse_rights [] = none
cap_parse_rights (c ∷ s) = parse_from 16 0 (c ∷ s)

-- Both masks parse, and `(cr & ~pr) != 0` does not hold.
pub narrows : Option ℕ → Option ℕ → Bool
narrows (some pr) (some cr) = bit_and cr (complement 64 pr) == 0
narrows _ _ = false

module _ (hmac : List ℕ → List ℕ) where
  -- `room` says whether `malloc` gave the buffer of the message.
  pub cap_mac_v2 : Bool → List ℕ → List ℕ → List ℕ → List ℕ
  cap_mac_v2 room parent_hmac parent_rights child_rights =
      if room then hmac (parent_hmac ++ (parent_rights ++ child_rights)) else []

  -- The seal, empty for a refusal, and the events that were emitted.
  pub oo_cap_attenuate_v2 : Bool → List ℕ → List ℕ → List ℕ → List ℕ × List String
  unfolding narrows cap_mac_v2
  oo_cap_attenuate_v2 room [] parent_rights child_rights = ([], [])
  oo_cap_attenuate_v2 room (h ∷ hs) parent_rights child_rights =
      if narrows (cap_parse_rights parent_rights) (cap_parse_rights child_rights)
      then (cap_mac_v2 room (h ∷ hs) parent_rights child_rights, "cap.attenuate" ∷ [])
      else ([], [])

  unfoldable pub oo_cap_attenuate_v2_ok : Bool → List ℕ → List ℕ → List ℕ → Bool
  unfolding narrows cap_mac_v2
  oo_cap_attenuate_v2_ok room [] parent_rights child_rights = false
  oo_cap_attenuate_v2_ok room (h ∷ hs) parent_rights child_rights =
      if narrows (cap_parse_rights parent_rights) (cap_parse_rights child_rights)
      then length (cap_mac_v2 room (h ∷ hs) parent_rights child_rights) == 64
      else false

-- The old entry points always refuse.
pub oo_cap_attenuate : List ℕ → List ℕ → List ℕ
oo_cap_attenuate parent_hmac child_rights = []

pub oo_cap_attenuate_ok : List ℕ → List ℕ → Bool
oo_cap_attenuate_ok parent_hmac child_rights = false

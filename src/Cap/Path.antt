-- ===== src/Cap/Path.antt =====
-- cap_attenuate_path.c: caps that read below one absolute path. Strings are lists of bytes as in
-- `Rights`; `hmac` stands for `crypto_hmac_sha256_internal(g_kernel_hmac_key, ·)`, hex text.
pub mod Laws
use oodar.Base.{
  ℕ, zero, suc, ◌+◌, ◌*◌, ◌-◌, ◌/◌, ◌%◌, ◌^◌, ltb, leb, ◌==◌, if◌then◌else◌, ◌&&◌, ◌||◌, not,
}
use oodar.Base.{
  Bool, true, false, List, [], ◌∷◌, ◌++◌, Option, none, some, length, get_or, take, replicate,
}
use oodar.Base.{Run, returns, exits, ◌>>=◌}
use oodar.Cap.Tokens.{CapKind, CapState}
use oodar.Cap.Gates.{oo_cap_require_kind}
use oodar.Cap.Rights.{hex_digit}

-- `memcmp(a, b, n) == 0` of two buffers of one length, and `crypto_ct_cmp`.
unfoldable pub bytes_eq : List ℕ → List ℕ → Bool
bytes_eq [] [] = true
bytes_eq [] (y ∷ ys) = false
bytes_eq (x ∷ xs) [] = false
bytes_eq (x ∷ xs) (y ∷ ys) = x == y && bytes_eq xs ys

-- `s.len > 0 && s.data && s.data[0] == '/'`
unfoldable pub starts_at_root : List ℕ → Bool
starts_at_root [] = false
starts_at_root (c ∷ s) = c == b'/'

unfoldable pub oo_path_prefix_nests : List ℕ → List ℕ → Bool
unfolding starts_at_root
oo_path_prefix_nests prefix path =
    if not (starts_at_root prefix) || not (starts_at_root path)
    then false
    else if length prefix == 1
    then true
    else if ltb (length path) (length prefix)
    then false
    else if not (bytes_eq (take (length prefix) path) prefix)
    then false
    else if length path == length prefix
    then true
    else get_or path (length prefix) 0 == b'/'

-- `sscanf("%2x")` of each pair of characters; a pair that does not scan clears the whole output. Of
-- text other than hex digits, which the HMAC never gives, `sscanf` takes more: blanks and a sign before
-- a digit, and one digit alone.
decode_pairs : ℕ → List ℕ → Option (List ℕ)
decode_pairs zero s = some []
decode_pairs (suc n) [] = none
decode_pairs (suc n) (a ∷ []) = none
decode_pairs (suc n) (a ∷ b ∷ s) = elim (hex_digit a) [
  | none ↦ none
  | some x ↦ elim (hex_digit b) [
    | none ↦ none
    | some y ↦ elim (decode_pairs n s) [ none ↦ none | some r ↦ some ((x * 16 + y) ∷ r) ]
  ]
]

or_zeros : Option (List ℕ) → List ℕ
or_zeros none = replicate 32 0
or_zeros (some r) = r

unfoldable pub oo_path_cap_hex_decode : List ℕ → List ℕ
unfolding decode_pairs or_zeros
oo_path_cap_hex_decode hex = or_zeros (decode_pairs 32 hex)

pub record OoPathCap : Type 0 where
  pub parent_cap : ℕ
  pub prefix : List ℕ
  pub mac : List ℕ

-- The all-zero value.
abbrev pub empty_cap : OoPathCap
empty_cap = record { parent_cap = 0; prefix = []; mac = replicate 32 0 }

-- `msg[i] = (unsigned char)(cap >> ((7 - i) * 8))` for i = 0..7
pub big_endian : ℕ → List ℕ
big_endian token =
    token / 2 ^ 56 % 256
    ∷ token / 2 ^ 48 % 256
    ∷ token / 2 ^ 40 % 256
    ∷ token / 2 ^ 32 % 256
    ∷ token / 2 ^ 24 % 256
    ∷ token / 2 ^ 16 % 256
    ∷ token / 2 ^ 8 % 256
    ∷ token % 256
    ∷ []

module _ (hmac : List ℕ → List ℕ) where
  -- The first half of both functions: the hex digest of `parent_cap || prefix`.
  unfoldable pub mac_hex : ℕ → List ℕ → List ℕ
  mac_hex token prefix = hmac (big_endian token ++ prefix)

  sealed : CapState → ℕ → List ℕ → Run (OoPathCap × CapState)
  sealed s token prefix =
      if not (length (mac_hex token prefix) == 64)
      then exits 1
      else returns (
        record {
          parent_cap = token;
          prefix = prefix;
          mac = oo_path_cap_hex_decode (mac_hex token prefix);
        },
        s,
      )

  unfoldable pub oo_attenuate_fsread_to_path : CapState → ℕ → List ℕ → Run (OoPathCap × CapState)
  unfolding sealed
  oo_attenuate_fsread_to_path s token prefix = do
    s' ← oo_cap_require_kind CapKind.fsread s token
    (if not (starts_at_root prefix)
        then exits 1
        else if ltb 4096 (length prefix)
        then exits 1
        else sealed s' token prefix)

  unfoldable pub oo_path_cap_check : OoPathCap → List ℕ → Bool
  oo_path_cap_check c path =
      if not (starts_at_root c.prefix)
      then false
      else if c.parent_cap == 0
      then false
      else if ltb 4096 (length c.prefix)
      then false
      else if not (length (mac_hex c.parent_cap c.prefix) == 64)
      then false
      else if not (bytes_eq (oo_path_cap_hex_decode (mac_hex c.parent_cap c.prefix)) c.mac)
      then false
      else oo_path_prefix_nests c.prefix path

  unfoldable pub oo_attenuate_pathcap_to_path :
      CapState → OoPathCap → List ℕ → Run (OoPathCap × CapState)
  oo_attenuate_pathcap_to_path s parent child_prefix =
      if not (oo_path_cap_check parent parent.prefix)
      then returns (empty_cap, s)
      else if not (oo_path_prefix_nests parent.prefix child_prefix)
      then returns (empty_cap, s)
      else oo_attenuate_fsread_to_path s parent.parent_cap child_prefix

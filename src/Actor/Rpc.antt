-- ===== src/Actor/Rpc.antt =====
-- app/actor/actor_rpc.c: a payload behind its keyed HMAC. The HMAC of sec/crypto is a parameter, from
-- the bytes of the key and of the payload to its text. A null `data` is the empty list.
pub mod Laws
mod Tests
use Prim.Native.String.{String}
use oodar.Base.{ℕ, zero, suc, ◌+◌, ◌/◌, ◌%◌, ltb, ◌==◌, if◌then◌else◌, ◌&&◌, not}
use oodar.Base.{
  Bool, true, false, List, [], ◌∷◌, ◌++◌, length, take, drop, Option, none, some, Run, returns,
  ◌>>=◌,
}
use oodar.Cap.Tokens.{CapKind, CapState}
use oodar.Cap.Gates.{oo_cap_require_kind}
use oodar.Str.Text.{bytes_equal}

unfoldable pub hex_byte : ℕ → ℕ
hex_byte d = if ltb d 10 then 48 + d else 87 + d

-- `snprintf("%llx")`: 16 rounds are enough for 64 bits.
unfoldable pub hex_onto : ℕ → ℕ → List ℕ → List ℕ
hex_onto zero n acc = acc
hex_onto (suc fuel) n acc =
    let rest = hex_onto fuel (n / 16) (hex_byte (n % 16) ∷ acc) in
    if ltb n 16 then hex_byte n ∷ acc else rest

-- `crypto_ct_cmp(a, b, 64) == 0`: the differences of all bytes are collected without a way out.
abbrev pub ct_same : List ℕ → List ℕ → Bool
ct_same a b = bytes_equal a b

module _ (hmac : List ℕ → List ℕ → List ℕ) (caps : CapState) (token : ℕ) where
  unfoldable pub oo_rpc_mac : List ℕ → List ℕ
  oo_rpc_mac payload = hmac (hex_onto 16 token []) payload

  -- `none` is the refusal.
  unfoldable pub seal : List ℕ → Option (List ℕ)
  seal payload =
      if ltb 192 (length payload)
      then none
      else (if not (length (oo_rpc_mac payload) == 64)
          then none
          else some (oo_rpc_mac payload ++ payload))

  unfoldable pub unseal : List ℕ → Option (List ℕ)
  unseal sealed =
      if ltb (length sealed) 64
      then none
      else (let mac = oo_rpc_mac (drop 64 sealed) in
          if length mac == 64 && ct_same mac (take 64 sealed) then some (drop 64 sealed) else none)

  unfoldable pub oo_cap_rpc_send : List ℕ → Run (Option (List ℕ))
  oo_cap_rpc_send payload = do
    c ← oo_cap_require_kind CapKind.sign caps token
    returns (seal payload)

  unfoldable pub oo_cap_rpc_recv : List ℕ → Run (Option (List ℕ))
  oo_cap_rpc_recv sealed = do
    c ← oo_cap_require_kind CapKind.sign caps token
    returns (unseal sealed)

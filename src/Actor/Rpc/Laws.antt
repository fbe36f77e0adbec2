-- ===== src/Actor/Rpc/Laws.antt =====
-- What a sealed payload opens to.
use oodar.Base.{ℕ, zero, suc, ◌≤◌, ◌≡◌, ◌≢◌, refl, sym, ap, ◌∙◌, arith, ltb, ◌==◌, ◌&&◌}
use oodar.Base.{
  Bool-cases, inl, inr, true, false, List, [], ◌∷◌, ◌++◌, length, take, drop, take-append-drop,
  length-append, none, some, returns, returns-injective,
}
use oodar.Cap.Tokens.{CapKind, CapState}
use oodar.Cap.Gates.{oo_cap_require_kind}
use oodar.Str.Text.{bytes_equal, bytes_equal_same, bytes_equal_eq}
use oodar.Actor.Rpc.{oo_rpc_mac, seal, unseal, oo_cap_rpc_send, oo_cap_rpc_recv}

take_prefix : (xs ys : List ℕ) (n : ℕ) → length xs ≡ n → take n (xs ++ ys) ≡ xs
take_prefix [] ys zero e = refl
take_prefix [] ys (suc n) e = absurd (omega arith)
take_prefix (x ∷ xs) ys zero e = absurd (omega arith)
take_prefix (x ∷ xs) ys (suc n) e = ap (λ l. x ∷ l) (take_prefix xs ys n (omega arith))

drop_prefix : (xs ys : List ℕ) (n : ℕ) → length xs ≡ n → drop n (xs ++ ys) ≡ ys
drop_prefix [] ys zero e = refl
drop_prefix [] ys (suc n) e = absurd (omega arith)
drop_prefix (x ∷ xs) ys zero e = absurd (omega arith)
drop_prefix (x ∷ xs) ys (suc n) e = drop_prefix xs ys n (omega arith)

some_out : {a b : List ℕ} → some a ≡ some b → a ≡ b
some_out e = cc

none_ne_some : {b : List ℕ} → none ≢ some b
none_ne_some e = cc

module _ (hmac : List ℕ → List ℕ → List ℕ) (caps : CapState) (token : ℕ) where
  unseal_sealed :
      (payload : List ℕ)
      → length (oo_rpc_mac hmac caps token payload) ≡ 64
      → unseal hmac caps token (oo_rpc_mac hmac caps token payload ++ payload) ≡ some payload
  unfolding unseal
  unseal_sealed payload e =
      let mac = oo_rpc_mac hmac caps token payload in
      let long : ltb (length (mac ++ payload)) 64 ≡ false =
        ground (arith, length-append mac payload, e) in
      let whole : (length mac == 64) ≡ true = ground (arith, e) in
      rw
        (
          long,
          drop_prefix mac payload 64 e,
          take_prefix mac payload 64 e,
          whole,
          bytes_equal_same mac,
        )
        refl

  unseal_only :
      (sealed payload : List ℕ)
      → unseal hmac caps token sealed ≡ some payload
      → sealed ≡ oo_rpc_mac hmac caps token payload ++ payload
  unfolding unseal
  unseal_only sealed payload h =
      let mac = oo_rpc_mac hmac caps token (drop 64 sealed) in
      elim (Bool-cases (ltb (length sealed) 64)) [
        | inl e ↦ absurd (none_ne_some (rw (e) at h))
        | inr e ↦ elim (Bool-cases (length mac == 64 && bytes_equal mac (take 64 sealed))) [
          | inl same ↦
              let left : drop 64 sealed ≡ payload = some_out (rw (e, same) at h) in
              let front : mac ≡ take 64 sealed =
                bytes_equal_eq mac (take 64 sealed) (ground (arith, same)) in
              sym (take-append-drop 64 sealed)
              ∙ ap (λ l. l ++ drop 64 sealed) (sym front)
              ∙ ap (λ l. oo_rpc_mac hmac caps token l ++ l) left
          | inr differs ↦ absurd (none_ne_some (rw (e, differs) at h))
        ]
      ]

  -- With a token that opens the gate and an HMAC of 64 bytes: a payload of at most 192 bytes is
  -- sealed, and the sealed text opens to it.
  pub oo_cap_rpc_recv-oo_cap_rpc_send :
      (payload : List ℕ)
      → oo_cap_require_kind CapKind.sign caps token ≡ returns caps
      → length payload ≤ 192
      → length (oo_rpc_mac hmac caps token payload) ≡ 64
      → (sealed : List ℕ) × (oo_cap_rpc_send hmac caps token payload ≡ returns (some sealed))
        × (oo_cap_rpc_recv hmac caps token sealed ≡ returns (some payload))
  unfolding oo_cap_rpc_send oo_cap_rpc_recv seal
  oo_cap_rpc_recv-oo_cap_rpc_send payload opens few e =
      let short : ltb 192 (length payload) ≡ false = ground (arith, few) in
      let whole : (length (oo_rpc_mac hmac caps token payload) == 64) ≡ true = ground (arith, e) in
      (
        oo_rpc_mac hmac caps token payload ++ payload,
        rw (opens, short, whole) refl,
        rw (opens, unseal_sealed payload e) refl,
      )

  -- With a token that opens the gate: a text that opens to a payload is the HMAC of the payload under
  -- the token with the payload behind it.
  pub oo_cap_rpc_recv_lem :
      (sealed payload : List ℕ)
      → oo_cap_require_kind CapKind.sign caps token ≡ returns caps
      → oo_cap_rpc_recv hmac caps token sealed ≡ returns (some payload)
      → sealed ≡ oo_rpc_mac hmac caps token payload ++ payload
  unfolding oo_cap_rpc_recv
  oo_cap_rpc_recv_lem sealed payload opens h =
      unseal_only sealed payload (returns-injective (rw (opens) at h))

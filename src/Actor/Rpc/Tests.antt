-- ===== src/Actor/Rpc/Tests.antt =====
-- A sealed payload, and the instances of the theorems.
use oodar.Base.{ℕ, ◌≡◌, refl, arith, List, [], ◌∷◌, ◌++◌, replicate, length, some, returns}
use oodar.Cap.Tokens.{CapKind}
use oodar.Cap.Sample.{counted, counted_opens}
use oodar.Str.Text.{bytes_equal}
use oodar.Actor.Rpc.{oo_rpc_mac, unseal, oo_cap_rpc_send, oo_cap_rpc_recv}
use oodar.Actor.Rpc.Laws.{oo_cap_rpc_recv-oo_cap_rpc_send, oo_cap_rpc_recv_lem}

-- An HMAC of 64 bytes that repeats the length of the payload.
abbrev sample_hmac : List ℕ → List ℕ → List ℕ
sample_hmac key payload = replicate 64 (length payload)

abbrev greeting : List ℕ
greeting = 104 ∷ 105 ∷ []

oo_cap_rpc_recv-oo_cap_rpc_send_test :
    (sealed : List ℕ) × (oo_cap_rpc_send sample_hmac counted (counted.token CapKind.sign) greeting
      ≡ returns (some sealed))
    × (oo_cap_rpc_recv sample_hmac counted (counted.token CapKind.sign) sealed
        ≡ returns (some greeting))
unfolding oo_rpc_mac
oo_cap_rpc_recv-oo_cap_rpc_send_test =
    oo_cap_rpc_recv-oo_cap_rpc_send sample_hmac counted (counted.token CapKind.sign) greeting
      (counted_opens CapKind.sign) (omega arith) refl

sealed_greeting :
    oo_cap_rpc_recv sample_hmac counted (counted.token CapKind.sign) (replicate 64 2 ++ greeting)
    ≡ returns (some greeting)
unfolding oo_cap_rpc_recv unseal oo_rpc_mac bytes_equal
sealed_greeting = rw (counted_opens CapKind.sign) refl

oo_cap_rpc_recv_lem_example :
    replicate 64 2 ++ greeting
    ≡ oo_rpc_mac sample_hmac counted (counted.token CapKind.sign) greeting ++ greeting
oo_cap_rpc_recv_lem_example =
    oo_cap_rpc_recv_lem sample_hmac counted (counted.token CapKind.sign)
      (replicate 64 2 ++ greeting) greeting (counted_opens CapKind.sign) sealed_greeting

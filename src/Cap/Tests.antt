-- ===== src/Cap/Tests.antt =====
-- Runs of the capability gates, and the instances of their theorems.
use oodar.Base.{ℕ, ◌≡◌, ◌≢◌, refl, arith, true, false, returns, exits, inl, inr, ◌%◌, ◌/◌, ◌^◌}
use oodar.Cap.Tokens.{Entropy, make_cap_tok, caps_once_init, entropy_from}
use oodar.Cap.Tokens.{fs, sys, net, tcp, fsread}
use oodar.Cap.Tokens.Laws.{index_of, neighbours_share_byte}
use oodar.Cap.Sample.{counted, counted-IsDistinct}
use oodar.Cap.Gates.{oo_cap_require_kind}
use oodar.Cap.Gates.Laws.{Opens, Opens-exactly, forged_refused}
use oodar.Base.{List, [], ◌∷◌, ◌++◌, ◌↔◌, replicate}
use oodar.Cap.Sample.{counted_opens}
use oodar.Base.{length}
use oodar.Cap.Tokens.{thread}
use oodar.Cap.Tokens.Exit.{wiped, wiped_refuses}
use oodar.Cap.Tokens.{hid, alloc, ffi, time, rand}
use oodar.Cap.Tokens.Laws.{sub_store_ne_zero}
use oodar.Cap.Bridge.{oo_cap_check_with_ocap}
use oodar.Cap.Bridge.Laws.{check_with_ocap_token}
use oodar.Cap.Rights.{oo_cap_attenuate_v2}
use oodar.Cap.Rights.Laws.{attenuate_v2_agree}
use oodar.Cap.Tokens.{is_classic}
use oodar.Cap.Tokens.Laws.{make_cap_tok-not_classic}
use oodar.Cap.Path.{
  OoPathCap, bytes_eq, starts_at_root, oo_path_prefix_nests, mac_hex, oo_path_cap_hex_decode,
}
use oodar.Cap.Path.{oo_attenuate_fsread_to_path, oo_path_cap_check, oo_attenuate_pathcap_to_path}
use oodar.Cap.Path.Laws.{Nests, Nests-iff, check-attenuate, narrowed_admits_less}
use oodar.Cap.Rights.{hex_digit, cap_parse_rights, oo_cap_attenuate_v2_ok}
use oodar.Cap.Rights.Laws.{IsSubset, attenuate_v2_iff, attenuate_v2_chain, parse_ignores_tail}

Opens-exactly_example :
    (Opens net tcp → oo_cap_require_kind tcp counted (counted.token net) ≡ returns counted)
    × ((Opens net tcp → ⊥) → oo_cap_require_kind tcp counted (counted.token net) ≡ exits 1)
Opens-exactly_example = Opens-exactly counted net tcp counted-IsDistinct refl

-- The tcp token does not open the net gate.
narrow_does_not_widen : oo_cap_require_kind net counted (counted.token tcp) ≡ exits 1
narrow_does_not_widen = (Opens-exactly counted tcp net counted-IsDistinct refl).1 (λ o. not_open o)
  where
    not_open : Opens tcp net → ⊥
    not_open (inl e) = cc
    not_open (inr e) = cc

make_cap_tok-not_classic_test : is_classic (make_cap_tok (λ i. b'O') 0) ≡ false
make_cap_tok-not_classic_test = make_cap_tok-not_classic (λ i. b'O') 0

-- "/a" and below it "/a/b"; "/ab" is outside.
nests_examples :
    (oo_path_prefix_nests (b'/' ∷ b'a' ∷ []) (b'/' ∷ b'a' ∷ b'/' ∷ b'b' ∷ []) ≡ true)
    × (oo_path_prefix_nests (b'/' ∷ b'a' ∷ []) (b'/' ∷ b'a' ∷ b'b' ∷ []) ≡ false)
unfolding oo_path_prefix_nests starts_at_root bytes_eq
nests_examples = (refl, refl)

Nests-iff_example :
    (oo_path_prefix_nests (b'/' ∷ []) (b'/' ∷ b'a' ∷ []) ≡ true)
    ↔ Nests (b'/' ∷ []) (b'/' ∷ b'a' ∷ [])
Nests-iff_example = Nests-iff (b'/' ∷ []) (b'/' ∷ b'a' ∷ [])

-- A stand-in for the keyed hash: 64 characters `0`.
abbrev flat : List ℕ → List ℕ
flat m = replicate 64 b'0'

abbrev at_a : OoPathCap
at_a = record { parent_cap = 16; prefix = b'/' ∷ b'a' ∷ []; mac = replicate 32 0 }

fsread_gate : oo_cap_require_kind fsread counted 16 ≡ returns counted
unfolding index_of
fsread_gate = counted_opens fsread

attenuates :
    oo_attenuate_fsread_to_path flat counted 16 (b'/' ∷ b'a' ∷ []) ≡ returns (at_a, counted)
unfolding oo_attenuate_fsread_to_path starts_at_root mac_hex oo_path_cap_hex_decode hex_digit
attenuates = rw fsread_gate refl

check-attenuate_example :
    (at_a.prefix ≡ b'/' ∷ b'a' ∷ [])
    × (at_a.parent_cap ≡ 16)
    × (oo_path_cap_check flat at_a (b'/' ∷ b'b' ∷ [])
        ≡ oo_path_prefix_nests (b'/' ∷ b'a' ∷ []) (b'/' ∷ b'b' ∷ []))
check-attenuate_example =
    check-attenuate flat counted 16 (b'/' ∷ b'a' ∷ []) (b'/' ∷ b'b' ∷ []) attenuates

narrows_flat :
    oo_attenuate_pathcap_to_path flat counted at_a (b'/' ∷ b'a' ∷ []) ≡ returns (at_a, counted)
unfolding oo_attenuate_pathcap_to_path oo_path_cap_check oo_path_prefix_nests starts_at_root
    bytes_eq mac_hex oo_path_cap_hex_decode hex_digit
narrows_flat = attenuates

admits : oo_path_cap_check flat at_a (b'/' ∷ b'a' ∷ b'/' ∷ b'c' ∷ []) ≡ true
unfolding oo_path_cap_check oo_path_prefix_nests starts_at_root bytes_eq mac_hex
    oo_path_cap_hex_decode hex_digit
admits = refl

narrowed_admits_less_example : oo_path_cap_check flat at_a (b'/' ∷ b'a' ∷ b'/' ∷ b'c' ∷ []) ≡ true
narrowed_admits_less_example =
    narrowed_admits_less flat counted at_a (b'/' ∷ b'a' ∷ []) (b'/' ∷ b'a' ∷ b'/' ∷ b'c' ∷ [])
      narrows_flat admits

-- 7 to 3 to 1.
attenuate_v2_iff_example :
    (oo_cap_attenuate_v2_ok flat true (b'h' ∷ []) (b'7' ∷ []) (b'3' ∷ []) ≡ true)
    ↔ ((◌≢◌ {A = List ℕ} (b'h' ∷ []) []) × IsSubset (b'7' ∷ []) (b'3' ∷ []) × (true ≡ true))
attenuate_v2_iff_example =
    attenuate_v2_iff flat (λ m. refl) true (b'h' ∷ []) (b'7' ∷ []) (b'3' ∷ [])

attenuate_v2_chain_test :
    oo_cap_attenuate_v2_ok flat true (b'h' ∷ []) (b'7' ∷ []) (b'1' ∷ []) ≡ true
unfolding oo_cap_attenuate_v2_ok cap_parse_rights hex_digit
attenuate_v2_chain_test =
    attenuate_v2_chain flat (λ m. refl) (b'h' ∷ []) (b'h' ∷ []) (b'7' ∷ []) (b'3' ∷ []) (b'1' ∷ [])
      refl refl

-- "0000000000000000f": the f is not read.
parse_ignores_tail_test :
    cap_parse_rights (replicate 16 b'0' ++ (b'f' ∷ [])) ≡ cap_parse_rights (replicate 16 b'0')
parse_ignores_tail_test = parse_ignores_tail (replicate 16 b'0') (b'f' ∷ []) refl

forged_refused_test : oo_cap_require_kind fs counted 0 ≡ exits 1
forged_refused_test = forged_refused counted fs 0 (inr refl)

abbrev sevens : Entropy
sevens = record { caps_bytes = λ i. 7; alloc_bytes = λ i. 7; tr_bytes = λ i. 7; ffi_bytes = λ i. 7 }

neighbours_share_byte_test :
    (caps_once_init sevens).token fs % 256 ≡ (caps_once_init sevens).token sys / 2 ^ 56
unfolding entropy_from
neighbours_share_byte_test = neighbours_share_byte sevens (λ i. omega arith) refl refl

check_with_ocap_token_test : oo_cap_check_with_ocap counted (counted.token hid) 1 ≡ (true, counted)
check_with_ocap_token_test = check_with_ocap_token counted hid refl (counted-IsDistinct.nonzero hid)

sub_store_ne_zero_test :
    ((caps_once_init sevens).token alloc ≢ 0)
    × ((caps_once_init sevens).token ffi ≢ 0)
    × ((caps_once_init sevens).token time ≢ 0)
    × ((caps_once_init sevens).token rand ≢ 0)
sub_store_ne_zero_test = sub_store_ne_zero sevens

attenuate_v2_agree_test :
    (oo_cap_attenuate_v2_ok flat true (b'h' ∷ []) (b'7' ∷ []) (b'3' ∷ []) ≡ true)
    ↔ (length (oo_cap_attenuate_v2 flat true (b'h' ∷ []) (b'7' ∷ []) (b'3' ∷ [])).0 ≡ 64)
attenuate_v2_agree_test =
    attenuate_v2_agree flat (λ m. refl) true (b'h' ∷ []) (b'7' ∷ []) (b'3' ∷ [])

wiped_refuses_example : oo_cap_require_kind thread (wiped counted) (counted.token thread) ≡ exits 1
wiped_refuses_example = wiped_refuses counted thread (counted.token thread)

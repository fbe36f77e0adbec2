-- ===== src/Cap/Rights/Laws.antt =====
-- Rule 2 of the security model, against the code's test.
use Prim.Native.Nat.{bit_and}
use oodar.Base.{ℕ, zero, suc, ◌+◌, ◌*◌, ◌^◌, ◌<◌, ◌≡◌, ◌≢◌, ◌↔◌, refl, arith}
use oodar.Base.{
  List, [], ◌∷◌, ◌++◌, some, length, u64, Bool, true, false, Option-cases, ==_iff, inl, inr,
}
use oodar.Base.Bits.{subset_iff, subset_trans}
use oodar.Cap.Rights.{hex_digit, parse_from, cap_parse_rights, cap_mac_v2, narrows}
use oodar.Cap.Rights.{oo_cap_attenuate_v2, oo_cap_attenuate_v2_ok}

hex_digit-lt : (c : ℕ) {d : ℕ} → hex_digit c ≡ some d → d < 16
unfolding hex_digit
hex_digit-lt c h = ground arith

parse_from-lt :
    (left r : ℕ) (s : List ℕ) {m : ℕ} → r < 2 ^ 64 → parse_from left r s ≡ some m → m < 2 ^ 64
unfolding parse_from
parse_from-lt zero r s lt h = ground arith
parse_from-lt (suc left) r [] lt h = ground arith
parse_from-lt (suc left) r (c ∷ s) lt h = elim (Option-cases (hex_digit c)) [
  | inl bad ↦ cc (rw (bad, parse_from) at h)
  | inr (d, good) ↦
      parse_from-lt left (u64 (r * 16) + d) s (omega (arith, hex_digit-lt c good))
        (rw (good, parse_from) at h)
]

cap_parse_rights-lt : (s : List ℕ) {m : ℕ} → cap_parse_rights s ≡ some m → m < 2 ^ 64
unfolding cap_parse_rights
cap_parse_rights-lt [] h = cc
cap_parse_rights-lt (c ∷ s) h = parse_from-lt 16 0 (c ∷ s) (omega arith) h

parse_from-append :
    (left r : ℕ) (s t : List ℕ) → length s ≡ left → parse_from left r (s ++ t) ≡ parse_from left r s
unfolding parse_from
parse_from-append zero r [] t h = refl
parse_from-append zero r (c ∷ s) t h = absurd (omega arith)
parse_from-append (suc left) r [] t h = absurd (omega arith)
parse_from-append (suc left) r (c ∷ s) t h = elim (Option-cases (hex_digit c)) [
  | inl bad ↦ rw (bad, parse_from)
  | inr (d, good) ↦
      rw (good, parse_from) (parse_from-append left (u64 (r * 16) + d) s t (omega arith))
]

-- A rights string counts by its first sixteen characters only: sixteen characters parse alike with
-- and without a tail.
pub parse_ignores_tail :
    (s t : List ℕ) → length s ≡ 16 → cap_parse_rights (s ++ t) ≡ cap_parse_rights s
unfolding cap_parse_rights
parse_ignores_tail [] t h = absurd (omega arith)
parse_ignores_tail (c ∷ s) t h = parse_from-append 16 0 (c ∷ s) t h

-- Both strings parse, and the parent's mask has every bit of the child's: `pr & cr == cr`.
pub record IsSubset (parent child : List ℕ) : Type 0 where
  pub parent_mask : ℕ
  pub child_mask : ℕ
  pub parent_parses : cap_parse_rights parent ≡ some parent_mask
  pub child_parses : cap_parse_rights child ≡ some child_mask
  pub contained : bit_and parent_mask child_mask ≡ child_mask

narrows-IsSubset :
    (parent child : List ℕ)
    → narrows (cap_parse_rights parent) (cap_parse_rights child) ≡ true
    → IsSubset parent child
unfolding narrows
narrows-IsSubset parent child h = elim (Option-cases (cap_parse_rights parent)) [
  | inl bad ↦ cc (rw (bad, narrows) at h)
  | inr (p, hp) ↦ elim (Option-cases (cap_parse_rights child)) [
    | inl bad ↦ cc (rw (hp, bad, narrows) at h)
    | inr (c, hc) ↦ record {
      parent_mask = p;
      child_mask = c;
      parent_parses = hp;
      child_parses = hc;
      contained =
          (subset_iff 64 p c (cap_parse_rights-lt parent hp) (cap_parse_rights-lt child hc)).0
            ((==_iff _ 0).0 (rw (hp, hc, narrows) at h));
    }
  ]
]

IsSubset-narrows :
    (parent child : List ℕ)
    → IsSubset parent child
    → narrows (cap_parse_rights parent) (cap_parse_rights child) ≡ true
unfolding narrows
IsSubset-narrows parent child s =
    rw (s.parent_parses, s.child_parses)
      ((==_iff _ 0).1 (
        (subset_iff 64 s.parent_mask s.child_mask (cap_parse_rights-lt parent s.parent_parses)
            (cap_parse_rights-lt child s.child_parses)).1
          s.contained))

subset_chain :
    (first second third : List ℕ)
    → IsSubset first second
    → IsSubset second third
    → IsSubset first third
subset_chain first second third s t = record {
  parent_mask = s.parent_mask;
  child_mask = t.child_mask;
  parent_parses = s.parent_parses;
  child_parses = t.child_parses;
  contained =
      subset_trans 64 s.parent_mask s.child_mask t.child_mask
        (cap_parse_rights-lt first s.parent_parses) (cap_parse_rights-lt second s.child_parses)
        (cap_parse_rights-lt third t.child_parses) s.contained (rw (← same) t.contained);
}
  where
    same : t.parent_mask ≡ s.child_mask
    same = cc (t.parent_parses, s.child_parses)

module _ (hmac : List ℕ → List ℕ) (digest : (m : List ℕ) → length (hmac m) ≡ 64) where
  -- With an HMAC of 64 hex characters, `oo_cap_attenuate_v2_ok` says yes exactly when the parent's
  -- seal is not empty, both rights strings parse, the child's mask is a subset of the parent's, and
  -- `malloc` gave the buffer of the message.
  pub attenuate_v2_iff :
      (room : Bool) (h parent child : List ℕ)
      → (oo_cap_attenuate_v2_ok hmac room h parent child ≡ true)
        ↔ ((h ≢ []) × IsSubset parent child × (room ≡ true))
  unfolding oo_cap_attenuate_v2_ok cap_mac_v2
  attenuate_v2_iff room [] parent child = (λ e. cc, λ both. absurd (both.0 refl))
  attenuate_v2_iff false (x ∷ h) parent child = (λ e. absurd (ground arith), λ all. absurd (cc))
  attenuate_v2_iff true (x ∷ h) parent child = (
    λ e. (λ n. cc, narrows-IsSubset parent child (ground arith), refl),
    λ (_, subset, _).
        ground (arith, IsSubset-narrows parent child subset, digest ((x ∷ h) ++ (parent ++ child))),
  )

  -- With an HMAC of 64 hex characters, `oo_cap_attenuate_v2_ok` says yes exactly when
  -- `oo_cap_attenuate_v2` returns a seal of 64 characters.
  pub attenuate_v2_agree :
      (room : Bool) (h parent child : List ℕ)
      → (oo_cap_attenuate_v2_ok hmac room h parent child ≡ true)
        ↔ (length (oo_cap_attenuate_v2 hmac room h parent child).0 ≡ 64)
  unfolding oo_cap_attenuate_v2_ok oo_cap_attenuate_v2 cap_mac_v2
  attenuate_v2_agree room [] parent child = ground arith
  attenuate_v2_agree false (x ∷ h) parent child = ground arith
  attenuate_v2_agree true (x ∷ h) parent child =
      ground (arith, digest ((x ∷ h) ++ (parent ++ child)))

  -- With an HMAC of 64 hex characters: where a first set of rights may be narrowed to a second and
  -- the second, under any seal, to a third, the first may be narrowed to the third.
  pub attenuate_v2_chain :
      (h h' first second third : List ℕ)
      → oo_cap_attenuate_v2_ok hmac true h first second ≡ true
      → oo_cap_attenuate_v2_ok hmac true h' second third ≡ true
      → oo_cap_attenuate_v2_ok hmac true h first third ≡ true
  attenuate_v2_chain h h' first second third p q =
      let (some_seal, one, _) = (attenuate_v2_iff true h first second).0 p in
      let (_, two, _) = (attenuate_v2_iff true h' second third).0 q in
      (attenuate_v2_iff true h first third).1
        (some_seal, subset_chain first second third one two, refl)

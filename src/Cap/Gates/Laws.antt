-- ===== src/Cap/Gates/Laws.antt =====
-- Who passes a gate.
use oodar.Base.{
  ℕ, ◌≡◌, ◌≢◌, refl, ap, sym, ◌∙◌, Option-cases, Bool-cases, ◌⊎◌, inl, inr, arith, Bool, true,
  false, Option, none, some,
}
use oodar.Base.{returns, exits, ◌>>=◌}
use oodar.Cap.Tokens.{CapKind, CapState}
use oodar.Cap.Tokens.{
  fs, sys, net, process, tcp, udp, bind, fsread, fswrite, alloc, time, rand, ffi,
}
use oodar.Cap.Bridge.Laws.{check_with_ocap_token}
use oodar.Cap.Gates.{oo_cap_grant, oo_cap_require, dual_check, alt_token, oo_cap_require_kind}

-- The kind whose token opens this gate too.
abbrev pub umbrella : CapKind → Option CapKind
umbrella tcp = some net
umbrella udp = some net
umbrella bind = some net
umbrella fsread = some fs
umbrella fswrite = some fs
umbrella process = some sys
umbrella _ = none

-- `j` is `k`, or the umbrella of `k`.
abbrev pub Opens : CapKind → CapKind → Type 0
Opens j k = (j ≡ k) ⊎ (umbrella k ≡ some j)

-- The tokens of a store that was drawn well: distinct, and none of them zero.
pub record IsDistinct (s : CapState) : Type 0 where
  pub injective : (j k : CapKind) → s.token j ≡ s.token k → j ≡ k
  pub nonzero : (k : CapKind) → s.token k ≢ 0

dual_check_pass :
    (s : CapState) (j : CapKind) (want alt : ℕ)
    → s.test_force_fail ≡ false
    → s.token j ≢ 0
    → (s.token j ≡ want) ⊎ (s.token j ≡ alt)
    → dual_check s (s.token j) want alt 1 ≡ returns s
unfolding dual_check
dual_check_pass s j want alt off nz (inl e) = ground (arith, check_with_ocap_token s j off nz)
dual_check_pass s j want alt off nz (inr e) = ground (arith, check_with_ocap_token s j off nz)

dual_stop :
    (s : CapState) (got want alt : ℕ)
    → (got ≡ want → got ≡ 0)
    → (got ≡ alt → got ≡ 0)
    → dual_check s got want alt 1 ≡ exits 1
unfolding dual_check
dual_stop s got want alt p q = ground arith

abbrev has_own_store : CapKind → Bool
has_own_store alloc = true
has_own_store time = true
has_own_store rand = true
has_own_store ffi = true
has_own_store _ = false

gate_of_core :
    (k : CapKind) (s : CapState) (got : ℕ)
    → has_own_store k ≡ false
    → oo_cap_require_kind k s got ≡ dual_check s got (s.token k) (alt_token s k) 1
unfolding oo_cap_require_kind
gate_of_core alloc s got h = cc
gate_of_core time s got h = cc
gate_of_core rand s got h = cc
gate_of_core ffi s got h = cc
gate_of_core _ s got h = refl

gate_of_own :
    (k : CapKind) (s : CapState) (got : ℕ)
    → has_own_store k ≡ true
    → oo_cap_require_kind k s got ≡ (oo_cap_require got (s.token k) >>= λ _. returns s)
unfolding oo_cap_require_kind
gate_of_own alloc s got h = refl
gate_of_own time s got h = refl
gate_of_own rand s got h = refl
gate_of_own ffi s got h = refl
gate_of_own _ s got h = cc

alt_token-umbrella :
    (k : CapKind) (s : CapState)
    → alt_token s k ≡ elim (umbrella k) [ none ↦ 0 | some u ↦ s.token u ]
unfolding alt_token
alt_token-umbrella fs s = refl
alt_token-umbrella _ s = refl

own_has_no_umbrella : (k : CapKind) → has_own_store k ≡ true → umbrella k ≡ none
own_has_no_umbrella fs h = refl
own_has_no_umbrella tcp h = cc
own_has_no_umbrella udp h = cc
own_has_no_umbrella bind h = cc
own_has_no_umbrella fsread h = cc
own_has_no_umbrella fswrite h = cc
own_has_no_umbrella process h = cc
own_has_no_umbrella _ h = refl

Opens-core :
    (s : CapState) (j k : CapKind)
    → IsDistinct s
    → s.test_force_fail ≡ false
    → has_own_store k ≡ false
    → Opens j k
    → oo_cap_require_kind k s (s.token j) ≡ returns s
Opens-core s j k d off core (inl e) =
    rw (gate_of_core k s (s.token j) core)
      (dual_check_pass s j (s.token k) (alt_token s k) off (d.nonzero j) (inl (ap s.token e)))
Opens-core s j k d off core (inr e) = rw (gate_of_core k s (s.token j) core) (
    dual_check_pass s j (s.token k) (alt_token s k) off (d.nonzero j)
      (inr (rw (alt_token-umbrella k s, e) refl)))

shut_core :
    (s : CapState) (j k : CapKind)
    → IsDistinct s
    → has_own_store k ≡ false
    → (Opens j k → ⊥)
    → oo_cap_require_kind k s (s.token j) ≡ exits 1
shut_core s j k d core shut = rw (gate_of_core k s (s.token j) core) (
    dual_stop s (s.token j) (s.token k) (alt_token s k)
      (λ e. absurd (shut (inl (d.injective j k e)))) not_alt)
  where
    not_alt : s.token j ≡ alt_token s k → s.token j ≡ 0
    not_alt e = elim (Option-cases (umbrella k)) [
      | inl p ↦ e ∙ (rw (alt_token-umbrella k s, p) refl)
      | inr (u, p) ↦ absurd (
          shut
            (inr (p ∙ ap some (d.injective u j (sym (e ∙ (rw (alt_token-umbrella k s, p) refl)))))))
    ]

require_own :
    (s : CapState) (got want : ℕ)
    → got ≢ 0
    → ((got ≡ want) → (oo_cap_require got want >>= λ _. returns s) ≡ returns s)
      × ((got ≡ want → ⊥) → (oo_cap_require got want >>= λ _. returns s) ≡ exits 1)
unfolding oo_cap_require
require_own s got want nz = (λ e. ground arith, λ ne. ground arith)

-- With distinct nonzero tokens and the test hook off, a token opens exactly the gate of its own kind
-- and the gates that its kind is the umbrella of; every other gate ends the process with code 1,
-- and the rights table never causes the exit with code 2.
pub Opens-exactly :
    (s : CapState) (j k : CapKind)
    → IsDistinct s
    → s.test_force_fail ≡ false
    → (Opens j k → oo_cap_require_kind k s (s.token j) ≡ returns s)
      × ((Opens j k → ⊥) → oo_cap_require_kind k s (s.token j) ≡ exits 1)
Opens-exactly s j k d off = elim (Bool-cases (has_own_store k)) [
  | inl own ↦
      let r = require_own s (s.token j) (s.token k) (d.nonzero j) in
      (
        λ o. rw (gate_of_own k s (s.token j) own) (r.0 (own_only own o)),
        λ n. rw (gate_of_own k s (s.token j) own) (r.1 (λ e. n (inl (d.injective j k e)))),
      )
  | inr core ↦ (Opens-core s j k d off core, shut_core s j k d core)
]
  where
    own_only : has_own_store k ≡ true → Opens j k → s.token j ≡ s.token k
    own_only own (inl e) = ap s.token e
    own_only own (inr e) = cc (own_has_no_umbrella k own)

own_stop :
    (s : CapState) (got want : ℕ)
    → (got ≡ want → got ≡ 0)
    → (oo_cap_require got want >>= λ _. returns s) ≡ exits 1
unfolding oo_cap_require
own_stop s got want h = ground arith

-- A value that is no token of the store opens no gate, and neither does 0: the process ends with
-- code 1.
pub forged_refused :
    (s : CapState) (k : CapKind) (got : ℕ)
    → ((j : CapKind) → got ≢ s.token j) ⊎ (got ≡ 0)
    → oo_cap_require_kind k s got ≡ exits 1
forged_refused s k got forged = elim (Bool-cases (has_own_store k)) [
  | inl own ↦ rw (gate_of_own k s got own) (own_stop s got (s.token k) (not_own forged))
  | inr core ↦
      rw (gate_of_core k s got core)
        (dual_stop s got (s.token k) (alt_token s k) (not_own forged) (not_alt forged))
]
  where
    not_own : ((j : CapKind) → got ≢ s.token j) ⊎ (got ≡ 0) → (got ≡ s.token k) → got ≡ 0
    not_own (inl f) e = absurd (f k e)
    not_own (inr z) e = z

    not_alt : ((j : CapKind) → got ≢ s.token j) ⊎ (got ≡ 0) → got ≡ alt_token s k → got ≡ 0
    not_alt (inr z) e = z
    not_alt (inl f) e = elim (Option-cases (umbrella k)) [
      | inl p ↦ e ∙ (rw (alt_token-umbrella k s, p) refl)
      | inr (u, p) ↦ absurd (f u (e ∙ (rw (alt_token-umbrella k s, p) refl)))
    ]

-- What a grant hands out is the token of its kind, and it changes no token.
pub grant_lem :
    (k : CapKind) (s : CapState)
    → ((oo_cap_grant k s).0 ≡ s.token k) × ((oo_cap_grant k s).1.token ≡ s.token)
unfolding oo_cap_grant
grant_lem fs s = (refl, refl)
grant_lem _ s = (refl, refl)

-- A gate that returns was not given 0.
pub gate_nonzero :
    (s : CapState) (k : CapKind) (got : ℕ) {s' : CapState}
    → oo_cap_require_kind k s got ≡ returns s'
    → got ≢ 0
gate_nonzero s k got h z = cc (forged_refused s k got (inr z))

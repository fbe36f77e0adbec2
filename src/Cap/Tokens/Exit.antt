-- ===== src/Cap/Tokens/Exit.antt =====
-- The handlers that wipe the tokens when the process ends. The wiping of the HMAC key is left out,
-- since no definition holds the key.
use oodar.Base.{
  ℕ, ◌≡◌, ◌==◌, ==_iff, refl, arith, Bool, true, false, Bool-cases, inl, inr, none, some,
  if◌then◌else◌, exits,
}
use oodar.Cap.Tokens.{CapKind, CapState, offset}
use oodar.Cap.Tokens.{alloc, time, rand, ffi}
use oodar.Cap.Gates.{oo_cap_require_kind}
use oodar.Cap.Gates.Laws.{forged_refused}

abbrev wipe : (CapKind → Bool) → CapState → CapState
wipe these s = record s { token = λ k. if these k then 0 else s.token k }

-- The kinds whose tokens are in caps.c.
pub in_caps : CapKind → Bool
unfolding offset
in_caps k = elim (offset k) [ none ↦ false | some off ↦ true ]

pub caps_zeroize : CapState → CapState
unfolding in_caps
caps_zeroize s = wipe in_caps s

is_alloc : CapKind → Bool
is_alloc alloc = true
is_alloc _ = false

pub alloc_zeroize : CapState → CapState
unfolding is_alloc
alloc_zeroize s = wipe is_alloc s

is_ffi : CapKind → Bool
is_ffi ffi = true
is_ffi _ = false

pub ffi_zeroize : CapState → CapState
unfolding is_ffi
ffi_zeroize s = wipe is_ffi s

is_time_or_rand : CapKind → Bool
is_time_or_rand time = true
is_time_or_rand rand = true
is_time_or_rand _ = false

pub tr_zeroize : CapState → CapState
unfolding is_time_or_rand
tr_zeroize s = wipe is_time_or_rand s

-- The four handlers, the last registered first.
abbrev pub wiped : CapState → CapState
wiped s = caps_zeroize (alloc_zeroize (ffi_zeroize (tr_zeroize s)))

wiped_zero : (s : CapState) (k : CapKind) → (wiped s).token k ≡ 0
unfolding caps_zeroize alloc_zeroize ffi_zeroize tr_zeroize
wiped_zero s alloc = refl
wiped_zero s time = refl
wiped_zero s rand = refl
wiped_zero s ffi = refl
wiped_zero s _ = refl

-- After the four exit handlers no value opens any gate, also none of the tokens that were handed out
-- before: the gate ends the process with code 1.
pub wiped_refuses :
    (s : CapState) (k : CapKind) (got : ℕ) → oo_cap_require_kind k (wiped s) got ≡ exits 1
wiped_refuses s k got = elim (Bool-cases (got == 0)) [
  | inl null ↦ forged_refused (wiped s) k got (inr (ground (arith, ==_iff got 0)))
  | inr other ↦
      forged_refused (wiped s) k got (inl (λ j e. ground (arith, wiped_zero s j, ==_iff got 0)))
]

-- ===== src/Metrics.antt =====
-- core/event/metrics.c: 64 named counters. Every call holds the mutex from its first look at the
-- table to its last write. A name is the list of the bytes before its NUL; a null `data` and a length
-- that is not positive are the empty list. The text of the export and the listeners are left out.
pub mod Names
pub mod Count
mod Tests
use oodar.Base.{ℕ, zero, suc, ◌+◌, ◌%◌, ◌^◌, ltb, leb, ◌==◌, if◌then◌else◌, ◌&&◌, ◌||◌, not}
use oodar.Base.{
  Bool, true, false, List, [], ◌∷◌, Option, none, some, get_or, set, length, ℤ, pos, negsuc,
}
use oodar.Base.{Run, returns, ◌>>=◌}
use oodar.Cap.Tokens.{CapKind, CapState}
use oodar.Cap.Gates.{oo_cap_require_kind}
use oodar.Str.Text.{bytes_equal}

-- The value as its 64 bits.
pub record MetricsSlot : Type 0 where
  pub name : List ℕ
  pub value : ℕ
  pub in_use : Bool

-- A letter, a digit, `_` or `-`.
unfoldable pub safe_byte : ℕ → Bool
safe_byte c =
    (leb b'a' c && leb c b'z')
    || ((leb b'A' c && leb c b'Z') || ((leb b'0' c && leb c b'9') || (c == b'_' || c == b'-')))

unfoldable pub all_safe : List ℕ → Bool
all_safe [] = true
all_safe (c ∷ s) = safe_byte c && all_safe s

unfoldable pub name_is_safe : List ℕ → Bool
name_is_safe s = not (length s == 0) && (ltb (length s) 32 && all_safe s)

abbrev pub is_named : List ℕ → MetricsSlot → Bool
is_named name t = t.in_use && bytes_equal t.name name

-- The value in the first slot in use with this name.
unfoldable pub lookup : List ℕ → List MetricsSlot → Option ℕ
lookup name [] = none
lookup name (t ∷ ts) = let rest = lookup name ts in if is_named name t then some t.value else rest

abbrev pub behind : MetricsSlot → Option (List MetricsSlot) → Option (List MetricsSlot)
behind t none = none
behind t (some ts) = some (t ∷ ts)

-- A change of the first slot in use with this name; `none` where there is none.
unfoldable pub on_used : List ℕ → (ℕ → ℕ) → List MetricsSlot → Option (List MetricsSlot)
on_used name f [] = none
on_used name f (t ∷ ts) =
    let rest = on_used name f ts in
    if is_named name t then some (record t { value = f t.value } ∷ ts) else behind t rest

-- The first slot that is not in use is taken with the value 0, and changed.
unfoldable pub on_free : List ℕ → (ℕ → ℕ) → List MetricsSlot → Option (List MetricsSlot)
on_free name f [] = none
on_free name f (t ∷ ts) =
    let rest = on_free name f ts in
    if t.in_use
    then behind t rest
    else some (record { name = name; value = f 0; in_use = true } ∷ ts)

abbrev pub plus_one : ℕ → ℕ
plus_one v = (v + 1) % 2 ^ 64

-- The result of the call, and the table; a full table refuses a new name.
abbrev pub or_full : List MetricsSlot → Option (List MetricsSlot) → Bool × List MetricsSlot
or_full ts none = (false, ts)
or_full ts (some ts') = (true, ts')

abbrev pub or_free : List ℕ → List MetricsSlot → Option (List MetricsSlot) → Bool × List MetricsSlot
or_free name ts none = or_full ts (on_free name plus_one ts)
or_free name ts (some ts') = (true, ts')

unfoldable pub incr_in : List ℕ → List MetricsSlot → Bool × List MetricsSlot
incr_in name ts =
    if name_is_safe name then or_free name ts (on_used name plus_one ts) else (false, ts)

abbrev pub or_zero : Option ℕ → ℕ
or_zero none = 0
or_zero (some v) = v

unfoldable pub get_in : List ℕ → List MetricsSlot → ℤ
get_in name ts = if name_is_safe name then pos (or_zero (lookup name ts)) else negsuc 0

abbrev pub or_same : List MetricsSlot → Option (List MetricsSlot) → List MetricsSlot
or_same ts none = ts
or_same ts (some ts') = ts'

unfoldable pub reset_in : List ℕ → List MetricsSlot → Bool × List MetricsSlot
reset_in name ts =
    if name_is_safe name then (true, or_same ts (on_used name (λ v. 0) ts)) else (false, ts)

module _ (caps : CapState) (token : ℕ) where
  unfoldable pub oo_metrics_incr : List ℕ → List MetricsSlot → Run (Bool × List MetricsSlot)
  oo_metrics_incr name ts = do
    c ← oo_cap_require_kind CapKind.metrics caps token
    returns (incr_in name ts)

  unfoldable pub oo_metrics_get : List ℕ → List MetricsSlot → Run ℤ
  oo_metrics_get name ts = do
    c ← oo_cap_require_kind CapKind.metrics caps token
    returns (get_in name ts)

  unfoldable pub oo_metrics_reset : List ℕ → List MetricsSlot → Run (Bool × List MetricsSlot)
  oo_metrics_reset name ts = do
    c ← oo_cap_require_kind CapKind.metrics caps token
    returns (reset_in name ts)

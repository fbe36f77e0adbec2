-- ===== src/Events.antt =====
-- core/event/event.c, and the listeners of core/event/metrics.c that it calls. A name is the list of
-- its bytes, a null or an empty one the empty list. The mutex is held from the first look at the table
-- to the last write, and not while the listeners run.
pub mod Table
pub mod Order
pub mod Others
pub mod Dispatch
mod Tests
use oodar.Base.{
  ℕ, zero, suc, ◌+◌, ltb, leb, ◌==◌, if◌then◌else◌, Bool, true, false, not, ◌&&◌, ◌||◌, List, [],
  ◌∷◌, ◌++◌, Option, none, some, length, get_or, Run, returns, ◌>>=◌,
}
use oodar.Cap.Tokens.{CapState, CapKind}
use oodar.Sandbox.Text.{codes}
use oodar.Metrics.{MetricsSlot, oo_metrics_incr, name_is_safe}

-- `n_fns` is the length of `fns`. Behind its name a slot has zeros only.
pub record EventSlot {ℓ} (F : Type ℓ) : Type ℓ where
  pub name : List ℕ
  pub fns : List F

-- `strncmp(slot, name, length name) == 0`: both end at a NUL.
unfoldable pub strncmp_zero : List ℕ → List ℕ → Bool
strncmp_zero slot [] = true
strncmp_zero [] (c ∷ name) = c == 0
strncmp_zero (s ∷ slot) (c ∷ name) = s == c && (c == 0 || strncmp_zero slot name)

unfoldable pub same_name : List ℕ → List ℕ → Bool
same_name slot name = strncmp_zero slot name && get_or slot (length name) 0 == 0

-- A name of 1 to 31 bytes.
unfoldable pub usable : List ℕ → Bool
usable name = ltb 0 (length name) && ltb (length name) 32

module _ {ℓ} {F : Type ℓ} where
  -- A full slot takes no more listeners.
  unfoldable pub add_listener : F → EventSlot F → EventSlot F
  add_listener fn slot =
      if ltb (length slot.fns) 32 then record slot { fns = slot.fns ++ (fn ∷ []) } else slot

  abbrev pub behind : EventSlot F → Option (List (EventSlot F)) → Option (List (EventSlot F))
  behind slot none = none
  behind slot (some slots) = some (slot ∷ slots)

  -- The first slot with the name gets the listener; `none` where there is none.
  unfoldable pub add_in : List ℕ → F → List (EventSlot F) → Option (List (EventSlot F))
  add_in name fn [] = none
  add_in name fn (slot ∷ slots) =
      let rest = behind slot (add_in name fn slots) in
      if same_name slot.name name then some (add_listener fn slot ∷ slots) else rest

  -- A full table takes no more names.
  unfoldable pub or_append :
      List ℕ → F → List (EventSlot F) → Option (List (EventSlot F)) → List (EventSlot F)
  or_append name fn slots (some changed) = changed
  or_append name fn slots none =
      if leb 32 (length slots)
      then slots
      else (slots ++ (record { name = name; fns = fn ∷ [] } ∷ []))

  -- `none` is a null function.
  unfoldable pub oo_event_subscribe : List ℕ → Option F → List (EventSlot F) → List (EventSlot F)
  oo_event_subscribe name none slots = slots
  oo_event_subscribe name (some fn) slots =
      if usable name then or_append name fn slots (add_in name fn slots) else slots

  -- What `oo_event_emit` copies out of the table.
  unfoldable pub listeners_of : List ℕ → List (EventSlot F) → List F
  listeners_of name [] = []
  listeners_of name (slot ∷ slots) =
      let rest = listeners_of name slots in if same_name slot.name name then slot.fns else rest

-- A listener of the metrics, by the name of its counter, or one of a client.
pub data Listener : Type 0 where
  on_cap_attenuate on_pq_sign on_pq_verify on_aead_seal on_aead_open : Listener
  client : ℕ → Listener

abbrev pub counter_of : Listener → List ℕ
counter_of on_cap_attenuate = codes "cap_attenuate"
counter_of on_pq_sign = codes "pq_sign"
counter_of on_pq_verify = codes "pq_verify"
counter_of on_aead_seal = codes "aead_seal"
counter_of on_aead_open = codes "aead_open"
counter_of (client n) = []

-- The table of the bus; whether the metrics have subscribed (`g_metrics_sub_once`) and were initialised
-- (`g_metrics_once`); their own token, 0 before that; their counters; and the clients that were called.
pub record Telemetry : Type 0 where
  pub events : List (EventSlot Listener)
  pub sub_once : Bool
  pub init_once : Bool
  pub self_cap : ℕ
  pub counters : List MetricsSlot
  pub called : List ℕ

-- `oo_metrics_init`
unfoldable pub oo_metrics_init : CapState → Telemetry → Telemetry
oo_metrics_init caps t =
    if t.init_once then t else record t { init_once = true; self_cap = caps.token CapKind.metrics }

-- `oo_metrics_incr` with its initialisation, which stands behind the gate and the test of the name.
unfoldable pub count_event : CapState → ℕ → List ℕ → Telemetry → Run Telemetry
count_event caps token name t = do
  r ← oo_metrics_incr caps token name t.counters
  returns (record (if name_is_safe name then oo_metrics_init caps t else t) { counters = r.1 })

unfoldable pub call_listener : CapState → Listener → Telemetry → Run Telemetry
call_listener caps (client n) t = returns (record t { called = t.called ++ (n ∷ []) })
call_listener caps l t = count_event caps t.self_cap (counter_of l) t

unfoldable pub call_all : CapState → List Listener → Telemetry → Run Telemetry
call_all caps [] t = returns t
call_all caps (l ∷ ls) t = call_listener caps l t >>= call_all caps ls

unfoldable pub metrics_sub_once_init : List (EventSlot Listener) → List (EventSlot Listener)
metrics_sub_once_init slots = oo_event_subscribe (codes "aead.open") (some on_aead_open) (
    oo_event_subscribe (codes "aead.seal") (some on_aead_seal) (
      oo_event_subscribe (codes "pq.verify") (some on_pq_verify) (
        oo_event_subscribe (codes "pq.sign") (some on_pq_sign)
          (oo_event_subscribe (codes "cap.attenuate") (some on_cap_attenuate) slots))))

unfoldable pub oo_metrics_ensure_subscribed : Telemetry → Telemetry
oo_metrics_ensure_subscribed t =
    if t.sub_once then t else record t { sub_once = true; events = metrics_sub_once_init t.events }

unfoldable pub oo_event_emit : CapState → List ℕ → Telemetry → Run Telemetry
oo_event_emit caps name t =
    let t' = oo_metrics_ensure_subscribed t in
    if usable name then call_all caps (listeners_of name t'.events) t' else returns t'

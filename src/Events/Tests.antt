-- ===== src/Events/Tests.antt =====
-- Runs of the event bus, and its theorems at concrete tables.
use oodar.Base.{ℕ, ◌≡◌, refl, arith, true, false, List, [], ◌∷◌, ◌++◌, some, returns, exits, ◌>>=◌}
use oodar.Cap.Tokens.{CapKind}
use oodar.Cap.Sample.{counted, counted_opens}
use oodar.Sandbox.Text.{codes}
use oodar.Metrics.{incr_in}
use oodar.Events.{
  EventSlot, strncmp_zero, same_name, usable, add_listener, add_in, or_append, oo_event_subscribe,
  listeners_of, Telemetry, oo_event_emit, counter_of, on_pq_sign, client, call_all, call_listener,
}
use oodar.Events.Table.{listeners_of-subscribe}
use oodar.Events.Order.{emit-subscribe}
use oodar.Events.Others.{TableFits, TableFits-subscribe}
use oodar.Events.Dispatch.{pq_sign, event_name, emit_early, emit_counts}

abbrev saved : List ℕ
saved = codes "saved"

abbrev one_slot : List (EventSlot ℕ)
one_slot = record { name = saved; fns = 7 ∷ [] } ∷ []

listeners_of-subscribe_test :
    listeners_of saved (oo_event_subscribe saved (some 8) one_slot)
    ≡ listeners_of saved one_slot ++ (8 ∷ [])
listeners_of-subscribe_test =
    listeners_of-subscribe saved 8 one_slot (unfold usable in refl) (omega arith)
      (unfold listeners_of same_name strncmp_zero in omega arith)

both_listed : listeners_of saved (oo_event_subscribe saved (some 8) one_slot) ≡ 7 ∷ 8 ∷ []
unfolding listeners_of oo_event_subscribe usable add_in or_append same_name strncmp_zero
    add_listener
both_listed = refl

TableFits-subscribe_test : TableFits (oo_event_subscribe saved (some 8) one_slot)
TableFits-subscribe_test =
    TableFits-subscribe saved 8 one_slot (omega arith, (omega arith, omega arith, tt))

-- A name that ends in a NUL byte is stored, and found under any name that ends there too: the walk over
-- the names stops at the NUL.
nul_name :
    listeners_of {F = ℕ} (111 ∷ 0 ∷ 1 ∷ []) (record { name = 111 ∷ 0 ∷ 2 ∷ []; fns = 7 ∷ [] } ∷ [])
    ≡ 7 ∷ []
unfolding listeners_of same_name strncmp_zero
nul_name = refl

abbrev at_load : Telemetry
at_load = record {
  events = [];
  sub_once = false;
  init_once = false;
  self_cap = 0;
  counters = [];
  called = [];
}

emit_early_example : oo_event_emit counted (event_name pq_sign) at_load ≡ exits 1
emit_early_example = emit_early counted pq_sign at_load refl refl refl

abbrev with_token : Telemetry
with_token = record at_load { init_once = true; self_cap = counted.token CapKind.metrics }

emit_counts_example :
    (r : Telemetry) × (oo_event_emit counted (event_name pq_sign) with_token ≡ returns r)
    × (r.counters ≡ (incr_in (counter_of on_pq_sign) []).1)
    × (r.called ≡ [])
emit_counts_example =
    emit_counts counted pq_sign with_token refl refl (counted_opens CapKind.metrics)

-- The metrics have subscribed, and one client is under the name.
abbrev with_client : Telemetry
with_client = record at_load {
  sub_once = true;
  events = record { name = saved; fns = client 7 ∷ [] } ∷ [];
}

abbrev with_two : Telemetry
with_two = record with_client {
  events = oo_event_subscribe saved (some (client 8)) with_client.events;
}

emit-subscribe_example : oo_event_emit counted saved with_two ≡ (
    call_all counted (listeners_of saved with_client.events) with_two
    >>= call_listener counted (client 8))
emit-subscribe_example =
    emit-subscribe counted saved (client 8) with_client refl (unfold usable in refl) (omega arith)
      (unfold listeners_of same_name strncmp_zero in omega arith)

in_order : oo_event_emit counted saved with_two ≡ returns (record with_two { called = 7 ∷ 8 ∷ [] })
unfolding listeners_of same_name strncmp_zero call_all call_listener
in_order = emit-subscribe_example

-- ===== src/Events/Dispatch.antt =====
-- What an emit of one of the events of the metrics does.
use oodar.Base.{
  ℕ, ◌≡◌, refl, ap, ◌∙◌, true, false, List, [], ◌∷◌, returns, exits, ◌>>=◌, if_of_false, if_elim,
  inr,
}
use oodar.Cap.Tokens.{CapState, CapKind}
use oodar.Cap.Gates.{oo_cap_require_kind}
use oodar.Cap.Gates.Laws.{forged_refused}
use oodar.Sandbox.Text.{codes}
use oodar.Metrics.{oo_metrics_incr, incr_in, name_is_safe, all_safe, safe_byte}
use oodar.Events.{
  strncmp_zero, same_name, usable, add_listener, add_in, or_append, oo_event_subscribe,
  listeners_of, Listener, on_cap_attenuate, on_pq_sign, on_pq_verify, on_aead_seal, on_aead_open,
  counter_of, Telemetry, oo_metrics_init, count_event, call_listener, call_all,
  metrics_sub_once_init, oo_metrics_ensure_subscribed, oo_event_emit,
}

-- The five events that the metrics subscribe to, by the listener.
pub data MetricsEvent : Type 0 where
  cap_attenuate pq_sign pq_verify aead_seal aead_open : MetricsEvent

abbrev pub event_name : MetricsEvent → List ℕ
event_name cap_attenuate = codes "cap.attenuate"
event_name pq_sign = codes "pq.sign"
event_name pq_verify = codes "pq.verify"
event_name aead_seal = codes "aead.seal"
event_name aead_open = codes "aead.open"

abbrev pub listener_for : MetricsEvent → Listener
listener_for cap_attenuate = on_cap_attenuate
listener_for pq_sign = on_pq_sign
listener_for pq_verify = on_pq_verify
listener_for aead_seal = on_aead_seal
listener_for aead_open = on_aead_open

-- The first emit finds exactly the one listener of its event.
listeners_at_first :
    (e : MetricsEvent)
    → listeners_of (event_name e) (metrics_sub_once_init []) ≡ listener_for e ∷ []
unfolding listeners_of metrics_sub_once_init oo_event_subscribe usable add_in or_append same_name
    strncmp_zero add_listener
listeners_at_first cap_attenuate = refl
listeners_at_first pq_sign = refl
listeners_at_first pq_verify = refl
listeners_at_first aead_seal = refl
listeners_at_first aead_open = refl

usable_name : (e : MetricsEvent) → usable (event_name e) ≡ true
unfolding usable
usable_name cap_attenuate = refl
usable_name pq_sign = refl
usable_name pq_verify = refl
usable_name aead_seal = refl
usable_name aead_open = refl

safe_counter : (e : MetricsEvent) → name_is_safe (counter_of (listener_for e)) ≡ true
unfolding name_is_safe all_safe safe_byte
safe_counter cap_attenuate = refl
safe_counter pq_sign = refl
safe_counter pq_verify = refl
safe_counter aead_seal = refl
safe_counter aead_open = refl

call_metrics :
    (caps : CapState) (e : MetricsEvent) (t : Telemetry)
    → call_listener caps (listener_for e) t
      ≡ count_event caps t.self_cap (counter_of (listener_for e)) t
unfolding call_listener
call_metrics caps cap_attenuate t = refl
call_metrics caps pq_sign t = refl
call_metrics caps pq_verify t = refl
call_metrics caps aead_seal t = refl
call_metrics caps aead_open t = refl

-- The state once the metrics have subscribed.
abbrev pub subscribed : Telemetry → Telemetry
subscribed t = record t { sub_once = true; events = metrics_sub_once_init t.events }

ensured : (t : Telemetry) → t.sub_once ≡ false → oo_metrics_ensure_subscribed t ≡ subscribed t
unfolding oo_metrics_ensure_subscribed
ensured t fresh = if_of_false _ _ fresh

one_call :
    (caps : CapState) (l : Listener) (t : Telemetry)
    → call_all caps (l ∷ []) t ≡ (call_listener caps l t >>= λ t. returns t)
unfolding call_all
one_call caps l t = refl

module _ (caps : CapState) (e : MetricsEvent) (t : Telemetry) (fresh : t.sub_once ≡ false)
    (empty : t.events ≡ []) where
  -- The first emit of one of the events is a call of its one listener.
  first_emit : oo_event_emit caps (event_name e) t ≡ (
      count_event caps t.self_cap (counter_of (listener_for e)) (subscribed t) >>= λ t. returns t)
  unfolding oo_event_emit
  first_emit =
      rw (usable_name e, ensured t fresh)
        (ap (λ ls. call_all caps ls (subscribed t))
            (ap (λ es. listeners_of (event_name e) (metrics_sub_once_init es)) empty
              ∙ listeners_at_first e)
          ∙ one_call caps (listener_for e) (subscribed t)
          ∙ ap (λ r. r >>= λ t. returns t) (call_metrics caps e (subscribed t)))

  -- Where nothing has subscribed yet, neither the metrics nor any other listener, and the metrics have
  -- no token of their own, an emit of one of their five events ends the process with code 1, whatever
  -- the token store.
  pub emit_early : t.self_cap ≡ 0 → oo_event_emit caps (event_name e) t ≡ exits 1
  unfolding count_event oo_metrics_incr
  emit_early z = rw (first_emit, forged_refused caps CapKind.metrics t.self_cap (inr z)) refl

  -- Once they have it, and it opens their gate, the first emit counts its event once and calls nothing
  -- else.
  pub emit_counts :
      oo_cap_require_kind CapKind.metrics caps t.self_cap ≡ returns caps
      → (r : Telemetry) × (oo_event_emit caps (event_name e) t ≡ returns r)
        × (r.counters ≡ (incr_in (counter_of (listener_for e)) t.counters).1)
        × (r.called ≡ t.called)
  unfolding count_event oo_metrics_incr oo_metrics_init
  emit_counts opens =
      let counted = (incr_in (counter_of (listener_for e)) t.counters).1 in
      let inited = oo_metrics_init caps (subscribed t) in
      (
        record inited { counters = counted },
        rw (first_emit, opens, safe_counter e) refl,
        refl,
        if_elim (λ (s : Telemetry). s.called ≡ t.called) t.init_once (λ _. refl) (λ _. refl),
      )

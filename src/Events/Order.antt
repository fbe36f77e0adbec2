-- ===== src/Events/Order.antt =====
-- The order in which an emit calls the listeners of its name.
use oodar.Base.{
  ℕ, ◌≡◌, ◌<◌, refl, ap, sym, ◌∙◌, true, List, [], ◌∷◌, ◌++◌, some, length, fun_ext, ◌>>=◌,
  if◌then◌else◌,
}
use oodar.Base.{Run, returns, exits, aborts, if_of_true}
use oodar.Cap.Tokens.{CapState}
use oodar.Events.{
  usable, oo_event_subscribe, listeners_of, Listener, Telemetry, call_listener, call_all,
  oo_metrics_ensure_subscribed, oo_event_emit,
}
use oodar.Events.Table.{listeners_of-subscribe}

bind_assoc :
    {A B C : Type 0} (r : Run A) (f : A → Run B) (g : B → Run C)
    → ((r >>= f) >>= g) ≡ (r >>= λ a. f a >>= g)
bind_assoc (returns a) f g = refl
bind_assoc (exits c) f g = refl
bind_assoc aborts f g = refl

bind_returns : {A : Type 0} (r : Run A) → (r >>= λ a. returns a) ≡ r
bind_returns (returns a) = refl
bind_returns (exits c) = refl
bind_returns aborts = refl

subscribed_already : (t : Telemetry) → t.sub_once ≡ true → oo_metrics_ensure_subscribed t ≡ t
unfolding oo_metrics_ensure_subscribed
subscribed_already t sub = if_of_true _ _ sub

module _ (caps : CapState) where
  call_all-append :
      (ls ms : List Listener) (t : Telemetry)
      → call_all caps (ls ++ ms) t ≡ (call_all caps ls t >>= call_all caps ms)
  unfolding call_all
  call_all-append [] ms t = refl
  call_all-append (l ∷ ls) ms t =
      ap (λ f. call_listener caps l t >>= f) (fun_ext (call_all-append ls ms))
      ∙ sym (bind_assoc (call_listener caps l t) (call_all caps ls) (call_all caps ms))

  call_all-last :
      (ls : List Listener) (l : Listener) (t : Telemetry)
      → call_all caps (ls ++ (l ∷ [])) t ≡ (call_all caps ls t >>= call_listener caps l)
  call_all-last ls l t =
      call_all-append ls (l ∷ []) t ∙ ap (λ f. call_all caps ls t >>= f) (fun_ext one)
    where
      one : (t : Telemetry) → call_all caps (l ∷ []) t ≡ call_listener caps l t
      one t = unfold call_all in bind_returns (call_listener caps l t)

  -- Once the metrics have subscribed, and where the table and the slot of the name have room: after a
  -- listener has subscribed under a usable name, an emit of that name calls those that were subscribed
  -- to it before, in their order, and then the new one; it is not called where one of them ends the
  -- process.
  pub emit-subscribe :
      (name : List ℕ) (fn : Listener) (t : Telemetry)
      → t.sub_once ≡ true
      → usable name ≡ true
      → length t.events < 32
      → length (listeners_of name t.events) < 32
      → oo_event_emit caps name (record t { events = oo_event_subscribe name (some fn) t.events })
        ≡ (call_all caps
              (listeners_of name t.events)
              (record t { events = oo_event_subscribe name (some fn) t.events })
            >>= call_listener caps fn)
  unfolding oo_event_emit
  emit-subscribe name fn t sub ok room slot_room =
      let t' = record t { events = oo_event_subscribe name (some fn) t.events } in
      ap
        (λ (u : Telemetry).
          if usable name then call_all caps (listeners_of name u.events) u else returns u)
        (subscribed_already t' sub)
      ∙ if_of_true _ _ ok
      ∙ ap (λ ls. call_all caps ls t') (listeners_of-subscribe name fn t.events ok room slot_room)
      ∙ call_all-last (listeners_of name t.events) fn t'

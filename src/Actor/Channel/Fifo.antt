-- ===== src/Actor/Channel/Fifo.antt =====
-- The calls on a channel, in the order in which they take its mutex, against the queue.
use oodar.Base.{ℕ, ◌≤◌, ◌<◌, ◌≡◌, refl, arith, ap, ◌∙◌, sym, ℤ, slot_of, ltb}
use oodar.Base.{
  subst, ◌⊎◌, ==_iff, Bool-cases, inl, inr, true, List, [], ◌∷◌, ◌++◌, length, length-set, get_or,
  set, get_or-set_self, some,
}
use oodar.Base.{Run, returns, ◌>>=◌}
use oodar.Cap.Tokens.{CapKind, CapState}
use oodar.Cap.Gates.{oo_cap_require_kind}
use oodar.Str.Ref.{OoStr, oo_str_retain}
use oodar.Actor.Channel.{
  OoChannel, Channels, Res, ok, ok_msg, err, no_str, idle, channel, put, clamp_len, enqueue,
  dequeue, send_in, recv_in, oo_channel_send, oo_channel_recv,
}
use oodar.Actor.Channel.Queue.{Op, send, recv, replies, step}
use oodar.Actor.Ring.{ring_from, length-ring_from}
use oodar.Actor.Channel.Refine.{
  IsRing, queued, enqueue-IsRing, queued-enqueue, dequeue-IsRing, queued-dequeue,
}

-- Channel `i` of the table is live and its ring is well formed.
pub record IsLive (s : Channels) (i : ℕ) : Type 0 where
  pub sixteen : length s.chs ≡ 16
  pub index_in : i < 16
  pub is_live : (channel s i).live ≡ true
  pub ring : IsRing (channel s i)

abbrev pub call : CapState → ℕ → ℤ → Op → Channels → Run (Res × Channels)
call caps token id (send m) s = oo_channel_send caps token id m s
call caps token id recv s = oo_channel_recv caps token id s

-- The replies to a sequence of calls.
unfoldable pub run : CapState → ℕ → ℤ → List Op → Channels → Run (List Res)
run caps token id [] s = returns []
run caps token id (o ∷ ops) s = do
  p ← call caps token id o s
  rs ← run caps token id ops p.1
  returns (p.0 ∷ rs)

-- The reply and the channel after a call are those of the queue.
Follows : ℕ → Res × Channels → Res × List OoStr → Type 0
Follows i p q = (p.0 ≡ q.0) × IsLive p.1 i × (queued (channel p.1 i) ≡ q.1)

-- The heap is no part of a channel.
put-IsLive :
    (s s' : Channels) (i : ℕ) (c : OoChannel)
    → IsLive s i
    → s'.chs ≡ set s.chs i c
    → c.live ≡ true
    → IsRing c
    → IsLive s' i × (channel s' i ≡ c)
put-IsLive s s' i c v e up ring =
    let at : channel s' i ≡ c =
      ap (λ l. get_or l i idle) e
      ∙ get_or-set_self s.chs i c idle (omega (arith, v.sixteen, v.index_in)) in
    (
      record {
        sixteen = ap length e ∙ length-set s.chs i c ∙ v.sixteen;
        index_in = v.index_in;
        is_live = ap (λ c'. c'.live) at ∙ up;
        ring = subst IsRing (sym at) ring;
      },
      at,
    )

enqueue_live : (m : OoStr) (c : OoChannel) → c.live ≡ true → (enqueue (clamp_len m) c).live ≡ true
unfolding enqueue
enqueue_live m c up = up

dequeue_live : (c : OoChannel) → c.live ≡ true → (dequeue c).live ≡ true
unfolding dequeue
dequeue_live c up = up

lt_or_ge : (a b : ℕ) → (a < b) ⊎ (b ≤ a)
lt_or_ge a b = elim (Bool-cases (ltb a b)) [
  | inl less ↦ inl (ground arith)
  | inr not_less ↦ inr (ground arith)
]

-- The table after a message went in, and after one came out.
abbrev sent : OoStr → ℕ → Channels → Channels
sent m i s = record (put s i (enqueue (clamp_len m) (channel s i))) {
  heap = oo_str_retain s.heap (clamp_len m);
}

abbrev received : ℕ → Channels → Channels
received i s = put s i (dequeue (channel s i))

send_room :
    (s : Channels) (i : ℕ) (m : OoStr)
    → (channel s i).live ≡ true
    → (channel s i).count < 8
    → send_in (some i) m s ≡ (ok "sent", sent m i s)
unfolding send_in
send_room s i m up room = ground (arith, up)

send_full :
    (s : Channels) (i : ℕ) (m : OoStr)
    → (channel s i).live ≡ true
    → 8 ≤ (channel s i).count
    → send_in (some i) m s ≡ (err "channel_send: full", s)
unfolding send_in
send_full s i m up full = ground (arith, up)

recv_some :
    (s : Channels) (i : ℕ)
    → (channel s i).live ≡ true
    → 0 < (channel s i).count
    → recv_in (some i) s
      ≡ (ok_msg (get_or (channel s i).msgs (channel s i).head no_str), received i s)
unfolding recv_in
recv_some s i up some_left = ground (arith, up, ==_iff (channel s i).count 0)

recv_none :
    (s : Channels) (i : ℕ)
    → (channel s i).live ≡ true
    → (channel s i).count ≡ 0
    → recv_in (some i) s ≡ (err "channel_recv: empty", s)
unfolding recv_in
recv_none s i up empty = ground (arith, up, empty)

step_room :
    (q : List OoStr) (m : OoStr)
    → length q < 8
    → step (send m) q ≡ (ok "sent", q ++ (clamp_len m ∷ []))
unfolding step
step_room q m room = ground arith

step_full :
    (q : List OoStr) (m : OoStr) → 8 ≤ length q → step (send m) q ≡ (err "channel_send: full", q)
unfolding step
step_full q m full = ground arith

Follows-send :
    (s : Channels) (i : ℕ) (m : OoStr)
    → IsLive s i
    → Follows i (send_in (some i) m s) (step (send m) (queued (channel s i)))
unfolding Follows
Follows-send s i m v =
    let c = channel s i in
    let len : length (queued c) ≡ c.count = length-ring_from no_str c.msgs c.head c.count in
    elim (lt_or_ge c.count 8) [
      | inl room ↦
          let p =
            put-IsLive s (sent m i s) i (enqueue (clamp_len m) c) v refl
              (enqueue_live m c v.is_live) (enqueue-IsRing (clamp_len m) c v.ring room) in
          rw (send_room s i m v.is_live room, step_room (queued c) m (omega (arith, len)))
            (refl, p.0, ap queued p.1 ∙ queued-enqueue (clamp_len m) c v.ring room)
      | inr full ↦
          rw (send_full s i m v.is_live full, step_full (queued c) m (omega (arith, len)))
            (refl, v, refl)
    ]

queued_none : (c : OoChannel) → c.count ≡ 0 → queued c ≡ []
queued_none c z = ap (ring_from no_str c.msgs c.head) z

Follows-recv :
    (s : Channels) (i : ℕ)
    → IsLive s i
    → Follows i (recv_in (some i) s) (step recv (queued (channel s i)))
unfolding Follows step
Follows-recv s i v =
    let c = channel s i in
    elim (lt_or_ge 0 c.count) [
      | inl some_left ↦
          let p =
            put-IsLive s (received i s) i (dequeue c) v refl (dequeue_live c v.is_live)
              (dequeue-IsRing c v.ring some_left) in
          rw (recv_some s i v.is_live some_left, queued-dequeue c v.ring some_left)
            (refl, p.0, ap queued p.1)
      | inr none_left ↦
          let z : c.count ≡ 0 = omega arith in
          rw (recv_none s i v.is_live z, queued_none c z) (refl, v, refl)
    ]

-- A call behind an open gate is the call on the slot.
call_send :
    (caps : CapState) (token i : ℕ) (id : ℤ) (m : OoStr) (s : Channels)
    → oo_cap_require_kind CapKind.thread caps token ≡ returns caps
    → slot_of 16 id ≡ some i
    → call caps token id (send m) s ≡ returns (send_in (some i) m s)
unfolding oo_channel_send
call_send caps token i id m s opens at = rw (opens, at) refl

call_recv :
    (caps : CapState) (token i : ℕ) (id : ℤ) (s : Channels)
    → oo_cap_require_kind CapKind.thread caps token ≡ returns caps
    → slot_of 16 id ≡ some i
    → call caps token id recv s ≡ returns (recv_in (some i) s)
unfolding oo_channel_recv
call_recv caps token i id s opens at = rw (opens, at) refl

-- One call and the calls after it.
Follows-run :
    (caps : CapState) (token i : ℕ) (id : ℤ) (o : Op) (ops : List Op) (s : Channels)
    (p : Res × Channels)
    → call caps token id o s ≡ returns p
    → Follows i p (step o (queued (channel s i)))
    → (IsLive p.1 i → run caps token id ops p.1 ≡ returns (replies ops (queued (channel p.1 i))))
    → run caps token id (o ∷ ops) s ≡ returns (replies (o ∷ ops) (queued (channel s i)))
unfolding run Follows replies
Follows-run caps token i id o ops s p e (reply, live, left) rest =
    rw (e, rest live, reply, left) refl

-- A thread token that opens the gate, a live channel and any sequence of sends and receives on it,
-- in the order in which the calls take the mutex: every call returns, and the replies are those of a
-- first-in first-out queue of at most 8 messages that starts with the messages in the ring.
pub run-replies :
    (caps : CapState) (token i : ℕ) (id : ℤ) (ops : List Op) (s : Channels)
    → oo_cap_require_kind CapKind.thread caps token ≡ returns caps
    → slot_of 16 id ≡ some i
    → IsLive s i
    → run caps token id ops s ≡ returns (replies ops (queued (channel s i)))
unfolding run replies
run-replies caps token i id [] s opens at v = refl
run-replies caps token i id (send m ∷ ops) s opens at v =
    Follows-run caps token i id (send m) ops s (send_in (some i) m s)
      (call_send caps token i id m s opens at) (Follows-send s i m v)
      (run-replies caps token i id ops (send_in (some i) m s).1 opens at)
run-replies caps token i id (recv ∷ ops) s opens at v =
    Follows-run caps token i id recv ops s (recv_in (some i) s)
      (call_recv caps token i id s opens at) (Follows-recv s i v)
      (run-replies caps token i id ops (recv_in (some i) s).1 opens at)

-- ===== src/Actor/Mailbox/Simulate.antt =====
-- The mailbox of a live actor against a queue of at most 8 messages.
use oodar.Base.{
  ℕ, suc, ◌+◌, ◌-◌, ◌%◌, ◌≤◌, ◌<◌, ◌≡◌, ◌≢◌, refl, arith, ap, ap₂, ◌∙◌, sym, subst, ltb, leb, ◌==◌,
  if◌then◌else◌,
}
use oodar.Base.{
  Bool-cases, inl, inr, true, false, List, [], ◌∷◌, ◌++◌, length, length-set, get_or, set,
  get_or-set_self, get_or-set_ne, some,
}
use oodar.Actor.Ring.{ring_from, length-ring_from, ring_from-set, ring_from-last}
use oodar.Actor.Mailbox.{
  OoActor, Actors, Reply, ok, ok_msg, err, unused, actor, put, oo_act_copy, enqueue, dequeue,
  send_in, recv_in,
}

-- The ring indices are in range, and `tail` is `count` places behind `head`.
pub record IsBox (a : OoActor) : Type 0 where
  pub eight : length a.msgs ≡ 8
  pub head_in : a.head < 8
  pub count_in : a.count ≤ 8
  pub tail_at : a.tail ≡ (a.head + a.count) % 8

abbrev pub waiting : OoActor → List (List ℕ)
waiting a = ring_from [] a.msgs a.head a.count

enqueue-IsBox : (m : List ℕ) (a : OoActor) → IsBox a → a.count < 8 → IsBox (enqueue m a)
unfolding enqueue
enqueue-IsBox m a v room = ground (arith, length-set a.msgs a.tail m)

waiting-enqueue :
    (m : List ℕ) (a : OoActor)
    → IsBox a
    → a.count < 8
    → waiting (enqueue m a) ≡ waiting a ++ (m ∷ [])
unfolding enqueue
waiting-enqueue m a v room =
    let e : a.count + 1 ≡ suc a.count = omega arith in
    ap (ring_from [] (set a.msgs a.tail m) a.head) e
    ∙ ring_from-last [] (set a.msgs a.tail m) a.head a.count v.head_in
    ∙ ap₂ (λ l x. l ++ (x ∷ []))
        (ring_from-set [] a.msgs a.head a.count a.tail m (λ k lt e'. omega (arith, v.tail_at))
          v.head_in)
        (ap (λ k. get_or (set a.msgs a.tail m) k []) (sym v.tail_at)
          ∙ get_or-set_self a.msgs a.tail m [] (omega (arith, v.eight, v.tail_at)))

dequeue-IsBox : (a : OoActor) → IsBox a → 0 < a.count → IsBox (dequeue a)
unfolding dequeue
dequeue-IsBox a v some_left = ground arith

waiting-dequeue :
    (a : OoActor) → 0 < a.count → waiting a ≡ get_or a.msgs a.head [] ∷ waiting (dequeue a)
unfolding dequeue
waiting-dequeue a some_left =
    let e : a.count ≡ suc (a.count - 1) = omega arith in ap (ring_from [] a.msgs a.head) e

pub data Op : Type 0 where
  send : List ℕ → Op
  recv : Op

-- What one call promises: the reply and the queue after it.
unfoldable pub step : Op → List (List ℕ) → Reply × List (List ℕ)
step (send m) q =
    if ltb (length q) 8 then (ok "sent", q ++ (oo_act_copy m ∷ [])) else (err "actor_send: full", q)
step recv [] = (err "actor_recv: empty", [])
step recv (m ∷ q) = (ok_msg m, q)

abbrev pub call : ℕ → Op → Actors → Reply × Actors
call i (send m) s = send_in (some i) m s
call i recv s = recv_in (some i) s

-- Actor `i` is live and its ring is well formed.
pub record IsUp (s : Actors) (i : ℕ) : Type 0 where
  pub sixteen : length s.actors ≡ 16
  pub index_in : i < 16
  pub is_live : (actor s i).live ≡ true
  pub box : IsBox (actor s i)

-- The reply and the mailbox after a call are those of the queue, and the other actors are as before.
abbrev pub Simulates : ℕ → Actors → Reply × Actors → Reply × List (List ℕ) → Type 0
Simulates i s p q =
    (p.0 ≡ q.0)
    × IsUp p.1 i
    × (waiting (actor p.1 i) ≡ q.1)
    × ((j : ℕ) → j ≢ i → actor p.1 j ≡ actor s j)

put-Simulates :
    (i : ℕ) (s : Actors) (a : OoActor) (r : Reply) (q : List (List ℕ))
    → IsUp s i
    → a.live ≡ true
    → IsBox a
    → waiting a ≡ q
    → Simulates i s (r, put i a s) (r, q)
put-Simulates i s a r q v up box e =
    let at : actor (put i a s) i ≡ a =
      get_or-set_self s.actors i a unused (omega (arith, v.sixteen, v.index_in)) in
    (
      refl,
      record {
        sixteen = length-set s.actors i a ∙ v.sixteen;
        index_in = v.index_in;
        is_live = ap (λ b. b.live) at ∙ up;
        box = subst IsBox (sym at) box;
      },
      ap waiting at ∙ e,
      λ j ne. get_or-set_ne s.actors i j a unused (λ z. ne (sym z)),
    )

enqueue-live : (m : List ℕ) (a : OoActor) → a.live ≡ true → (enqueue m a).live ≡ true
unfolding enqueue
enqueue-live m a up = up

dequeue-live : (a : OoActor) → a.live ≡ true → (dequeue a).live ≡ true
unfolding dequeue
dequeue-live a up = up

send-Simulates :
    (i : ℕ) (s : Actors) (m : List ℕ)
    → IsUp s i
    → Simulates i s (send_in (some i) m s) (step (send m) (waiting (actor s i)))
unfolding send_in step
send-Simulates i s m v =
    let a = actor s i in
    let len : length (waiting a) ≡ a.count = length-ring_from [] a.msgs a.head a.count in
    elim (Bool-cases (ltb a.count 8)) [
      | inl e ↦
          let room : a.count < 8 = ground (arith, e) in
          let free : leb 8 a.count ≡ false = ground (arith, e) in
          let fits : ltb (length (waiting a)) 8 ≡ true = ground (arith, e, len) in
          rw (v.is_live, free, fits)
            (put-Simulates i s (enqueue (oo_act_copy m) a) (ok "sent")
              (waiting a ++ (oo_act_copy m ∷ [])) v (enqueue-live (oo_act_copy m) a v.is_live)
              (enqueue-IsBox (oo_act_copy m) a v.box room)
              (waiting-enqueue (oo_act_copy m) a v.box room))
      | inr e ↦
          let full : leb 8 a.count ≡ true = ground (arith, e) in
          let refused : ltb (length (waiting a)) 8 ≡ false = ground (arith, e, len) in
          rw (v.is_live, full, refused) (refl, v, refl, λ j ne. refl)
    ]

recv-Simulates :
    (i : ℕ) (s : Actors)
    → IsUp s i
    → Simulates i s (recv_in (some i) s) (step recv (waiting (actor s i)))
unfolding recv_in step
recv-Simulates i s v =
    let a = actor s i in
    elim (Bool-cases (a.count == 0)) [
      | inl e ↦
          let none_left : a.count ≡ 0 = ground (arith, e) in
          let no_messages : waiting a ≡ [] = ap (ring_from [] a.msgs a.head) none_left in
          rw (v.is_live, e, no_messages) (refl, v, refl, λ j ne. refl)
      | inr e ↦
          let some_left : 0 < a.count = ground (arith, e) in
          rw (v.is_live, e, waiting-dequeue a some_left)
            (put-Simulates i s (dequeue a) (ok_msg (get_or a.msgs a.head [])) (waiting (dequeue a))
              v (dequeue-live a v.is_live) (dequeue-IsBox a v.box some_left) refl)
    ]

-- The replies of the calls, and those of the queue.
unfoldable pub calls : ℕ → List Op → Actors → List Reply
calls i [] s = []
calls i (o ∷ ops) s = (call i o s).0 ∷ calls i ops (call i o s).1

unfoldable pub promised : List Op → List (List ℕ) → List Reply
promised [] q = []
promised (o ∷ ops) q = (step o q).0 ∷ promised ops (step o q).1

-- For a live actor and any sequence of sends and receives, in the order in which they hold the lock:
-- the replies are those of a first-in first-out queue of at most 8 copies that starts with the
-- messages in the mailbox.
pub calls-promised :
    (i : ℕ) (ops : List Op) (s : Actors)
    → IsUp s i
    → calls i ops s ≡ promised ops (waiting (actor s i))
unfolding calls promised
calls-promised i [] s v = refl
calls-promised i (send m ∷ ops) s v =
    let (reply, up, left, _) = send-Simulates i s m v in
    ap₂ ◌∷◌ reply (calls-promised i ops (send_in (some i) m s).1 up ∙ ap (promised ops) left)
calls-promised i (recv ∷ ops) s v =
    let (reply, up, left, _) = recv-Simulates i s v in
    ap₂ ◌∷◌ reply (calls-promised i ops (recv_in (some i) s).1 up ∙ ap (promised ops) left)

-- ===== src/Actor/Channel/Refine.antt =====
-- A live channel behaves as the queue of the messages in its ring.
use oodar.Base.{suc, ◌+◌, ◌-◌, ◌%◌, ◌≤◌, ◌<◌, ◌≡◌, arith, ap, ap₂, ◌∙◌, sym}
use oodar.Base.{List, [], ◌∷◌, ◌++◌, length, length-set, get_or, set, get_or-set_self}
use oodar.Str.Ref.{OoStr}
use oodar.Actor.Ring.{ring_from, ring_from-set, ring_from-last}
use oodar.Actor.Channel.{OoChannel, no_str, enqueue, dequeue}

-- The ring indices are in range, and `tail` is `count` places behind `head`.
pub record IsRing (c : OoChannel) : Type 0 where
  pub eight : length c.msgs ≡ 8
  pub head_in : c.head < 8
  pub count_in : c.count ≤ 8
  pub tail_at : c.tail ≡ (c.head + c.count) % 8

abbrev pub queued : OoChannel → List OoStr
queued c = ring_from no_str c.msgs c.head c.count

pub enqueue-IsRing : (m : OoStr) (c : OoChannel) → IsRing c → c.count < 8 → IsRing (enqueue m c)
unfolding enqueue
enqueue-IsRing m c v room = ground (arith, length-set c.msgs c.tail m)

pub queued-enqueue :
    (m : OoStr) (c : OoChannel)
    → IsRing c
    → c.count < 8
    → queued (enqueue m c) ≡ queued c ++ (m ∷ [])
unfolding enqueue
queued-enqueue m c v room =
    let e : c.count + 1 ≡ suc c.count = omega arith in
    ap (ring_from no_str (set c.msgs c.tail m) c.head) e
    ∙ ring_from-last no_str (set c.msgs c.tail m) c.head c.count v.head_in
    ∙ ap₂ (λ l x. l ++ (x ∷ []))
        (ring_from-set no_str c.msgs c.head c.count c.tail m (λ k lt e'. omega (arith, v.tail_at))
          v.head_in)
        (ap (λ k. get_or (set c.msgs c.tail m) k no_str) (sym v.tail_at)
          ∙ get_or-set_self c.msgs c.tail m no_str (omega (arith, v.eight, v.tail_at)))

pub dequeue-IsRing : (c : OoChannel) → IsRing c → 0 < c.count → IsRing (dequeue c)
unfolding dequeue
dequeue-IsRing c v some_left = ground (arith, length-set c.msgs c.head no_str)

-- The ring holds the message at `head`, then those that stay.
pub queued-dequeue :
    (c : OoChannel)
    → IsRing c
    → 0 < c.count
    → queued c ≡ get_or c.msgs c.head no_str ∷ queued (dequeue c)
unfolding dequeue
queued-dequeue c v some_left =
    let e : c.count ≡ suc (c.count - 1) = omega arith in
    ap (ring_from no_str c.msgs c.head) e
    ∙ ap (λ l. get_or c.msgs c.head no_str ∷ l)
        (sym (
          ring_from-set no_str c.msgs ((c.head + 1) % 8) (c.count - 1) c.head no_str
            (λ k lt e'. omega (arith, v.count_in, v.head_in)) (omega arith)))

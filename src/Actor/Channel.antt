-- ===== src/Actor/Channel.antt =====
-- app/actor/actor_channel.c: 16 channels, each a ring of 8 messages. Every call holds the channel's
-- mutex while it looks at it, so threads interleave by whole calls. The condition variables have no
-- waiter in the program, and their signals are left out.
pub mod Queue
pub mod Refine
pub mod Fifo
pub mod Lifetime
mod Tests
use Prim.Native.String.{String}
use oodar.Base.{ℕ, zero, suc, ◌+◌, ◌-◌, ◌%◌, ◌^◌, ltb, leb, ◌==◌, if◌then◌else◌, not}
use oodar.Base.{Bool, true, false, List, [], ◌∷◌, Option, none, some, get_or, set, replicate}
use oodar.Base.{ℤ, pos, negsuc, slot_of, Run, returns, ◌>>=◌}
use oodar.Cap.Tokens.{CapKind, CapState}
use oodar.Cap.Gates.{oo_cap_require_kind}
use oodar.Str.Ref.{OoStr, StrHeap, oo_str_retain, oo_str_release}

abbrev pub no_str : OoStr
no_str = record { addr = 0; len = pos 0 }

pub record OoChannel : Type 0 where
  pub live : Bool
  pub head : ℕ
  pub tail : ℕ
  pub count : ℕ
  pub msgs : List OoStr

abbrev pub idle : OoChannel
idle = record { live = false; head = 0; tail = 0; count = 0; msgs = replicate 8 no_str }

-- `g_chs`, with the payloads that the messages refer to.
pub record Channels : Type 0 where
  pub chs : List OoChannel
  pub heap : StrHeap

-- An `OoResS`: a text of the code's own, the `ch:N` of a new channel, or a message.
pub data Res : Type 0 where
  ok : String → Res
  ok_slot : ℕ → Res
  ok_msg : OoStr → Res
  err : String → Res

abbrev pub channel : Channels → ℕ → OoChannel
channel s i = get_or s.chs i idle

abbrev pub put : Channels → ℕ → OoChannel → Channels
put s i c = record s { chs = set s.chs i c }

-- The first channel that is not live, counted from `i`.
pub ch_alloc_slot : List OoChannel → ℕ → Option ℕ
ch_alloc_slot [] i = none
ch_alloc_slot (c ∷ rest) i =
    let next = ch_alloc_slot rest (i + 1) in if c.live then next else some i

pub opened : Option ℕ → Channels → Res × Channels
opened none s = (err "channel_new: no free slot", s)
opened (some i) s =
    (ok_slot i, put s i (record (channel s i) { head = 0; tail = 0; count = 0; live = true }))

pub oo_channel_new : CapState → ℕ → Channels → Run (Res × Channels)
unfolding opened ch_alloc_slot
oo_channel_new caps token s = do
  c ← oo_cap_require_kind CapKind.thread caps token
  returns (opened (ch_alloc_slot s.chs 0) s)

-- `if (m.len > (1LL << 20)) m.len = 1LL << 20;`
pub clamp_len : OoStr → OoStr
clamp_len (m) = record m {
  len = elim m.len [ pos n ↦ if ltb (2 ^ 20) n then pos (2 ^ 20) else pos n | negsuc n ↦ negsuc n ];
}

-- The message is retained, and the ring holds it from then on.
pub enqueue : OoStr → OoChannel → OoChannel
enqueue m c = record c { msgs = set c.msgs c.tail m; tail = (c.tail + 1) % 8; count = c.count + 1 }

pub send_in : Option ℕ → OoStr → Channels → Res × Channels
send_in none msg s = (err "channel_send: bad slot", s)
send_in (some i) msg s =
    if not (channel s i).live
    then (err "channel_send: empty slot", s)
    else if leb 8 (channel s i).count
    then (err "channel_send: full", s)
    else (
      ok "sent",
      record (put s i (enqueue (clamp_len msg) (channel s i))) {
        heap = oo_str_retain s.heap (clamp_len msg);
      },
    )

pub oo_channel_send : CapState → ℕ → ℤ → OoStr → Channels → Run (Res × Channels)
oo_channel_send caps token id msg s = do
  c ← oo_cap_require_kind CapKind.thread caps token
  returns (send_in (slot_of 16 id) msg s)

-- The reference passes to the receiver: nothing is released.
pub dequeue : OoChannel → OoChannel
dequeue c = record c {
  msgs = set c.msgs c.head no_str;
  head = (c.head + 1) % 8;
  count = c.count - 1;
}

pub recv_in : Option ℕ → Channels → Res × Channels
recv_in none s = (err "channel_recv: bad slot", s)
recv_in (some i) s =
    if not (channel s i).live
    then (err "channel_recv: empty slot", s)
    else if (channel s i).count == 0
    then (err "channel_recv: empty", s)
    else (
      ok_msg (get_or (channel s i).msgs (channel s i).head no_str),
      put s i (dequeue (channel s i)),
    )

pub oo_channel_recv : CapState → ℕ → ℤ → Channels → Run (Res × Channels)
oo_channel_recv caps token id s = do
  c ← oo_cap_require_kind CapKind.thread caps token
  returns (recv_in (slot_of 16 id) s)

-- `while (ch->count > 0)`: each queued message is released, oldest first.
pub drain : ℕ → ℕ → List OoStr → StrHeap → StrHeap
drain zero head msgs h = h
drain (suc count) head msgs h =
    let m = get_or msgs head no_str in
    drain count ((head + 1) % 8) msgs (if m.addr == 0 then h else oo_str_release h m)

pub destroy_in : Option ℕ → Channels → Res × Channels
unfolding drain
destroy_in none s = (err "channel_destroy: bad slot", s)
destroy_in (some i) s =
    let c = channel s i in
    if not c.live then (err "channel_destroy: empty slot", s) else (
      ok "destroyed",
      record (put s i (record c { live = false; head = 0; tail = 0; count = 0 })) {
        heap = drain c.count c.head c.msgs s.heap;
      },
    )

pub oo_channel_destroy : CapState → ℕ → ℤ → Channels → Run (Res × Channels)
oo_channel_destroy caps token id s = do
  c ← oo_cap_require_kind CapKind.thread caps token
  returns (destroy_in (slot_of 16 id) s)

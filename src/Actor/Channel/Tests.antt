-- ===== src/Actor/Channel/Tests.antt =====
-- Runs of the channels, and the instances of their theorems.
use oodar.Base.{
  ℕ, ap, get_or-replicate, ◌≡◌, ◌≢◌, ◌<◌, refl, arith, true, false, List, [], ◌∷◌, ◌⊎◌, none, pos,
  replicate, length, set, returns,
}
use oodar.Cap.Tokens.{CapKind}
use oodar.Cap.Sample.{counted, counted_opens}
use oodar.Str.Ref.{OoStr, StrHeap}
use oodar.Actor.Channel.{
  OoChannel, Channels, ok, ok_slot, ok_msg, err, no_str, idle, channel, put, clamp_len,
  oo_channel_new, oo_channel_destroy,
}
use oodar.Actor.Channel.Queue.{Op, send, recv, replies, step}
use oodar.Actor.Channel.Refine.{IsRing, queued}
use oodar.Actor.Channel.Fifo.{IsLive, run, run-replies}
use oodar.Actor.Channel.Lifetime.{release_all, oo_channel_new_lem, oo_channel_destroy_lem}

abbrev no_heap : StrHeap
no_heap a = none

abbrev closed : Channels
closed = record { chs = replicate 16 idle; heap = no_heap }

abbrev msg : ℕ → OoStr
msg a = record { addr = a; len = pos 5 }

-- Channel 3 holds one message, at the last index of its ring.
abbrev late : OoChannel
late = record {
  live = true;
  head = 7;
  tail = 0;
  count = 1;
  msgs = set (replicate 8 no_str) 7 (msg 64);
}

abbrev open_3 : Channels
open_3 = put closed 3 late

late-IsRing : IsRing late
late-IsRing = record { eight = refl; head_in = omega arith; count_in = omega arith; tail_at = refl }

open_3-IsLive : IsLive open_3 3
open_3-IsLive = record {
  sixteen = refl;
  index_in = omega arith;
  is_live = refl;
  ring = late-IsRing;
}

abbrev calls : List Op
calls = send (msg 128) ∷ recv ∷ recv ∷ recv ∷ []

run-replies_example :
    run counted (counted.token CapKind.thread) (pos 3) calls open_3
    ≡ returns (replies calls (msg 64 ∷ []))
run-replies_example =
    run-replies counted (counted.token CapKind.thread) 3 (pos 3) calls open_3
      (counted_opens CapKind.thread) refl open_3-IsLive

fifo_replies :
    replies calls (msg 64 ∷ [])
    ≡ ok "sent" ∷ ok_msg (msg 64) ∷ ok_msg (msg 128) ∷ err "channel_recv: empty" ∷ []
unfolding replies step clamp_len
fifo_replies = refl

eights : (j : ℕ) → j < 16 → length (channel closed j).msgs ≡ 8
eights j lt = ap (λ c. length c.msgs) (get_or-replicate 16 j idle)

oo_channel_new_lem_test :
    ((i : ℕ) × (s' : Channels) × (oo_channel_new counted (counted.token CapKind.thread) closed
        ≡ returns (ok_slot i, s'))
      × ((channel closed i).live ≡ false)
      × ((j : ℕ) → j < i → (channel closed j).live ≡ true)
      × IsLive s' i
      × (queued (channel s' i) ≡ [])
      × ((j : ℕ) → j ≢ i → channel s' j ≡ channel closed j)
      × (s'.heap ≡ no_heap))
    ⊎ ((oo_channel_new counted (counted.token CapKind.thread) closed
          ≡ returns (err "channel_new: no free slot", closed))
        × ((j : ℕ) → j < 16 → (channel closed j).live ≡ true))
oo_channel_new_lem_test =
    oo_channel_new_lem counted (counted.token CapKind.thread) closed (counted_opens CapKind.thread)
      refl eights

oo_channel_destroy_lem_test :
    (s' : Channels) × (oo_channel_destroy counted (counted.token CapKind.thread) (pos 3) open_3
      ≡ returns (ok "destroyed", s'))
    × (s'.heap ≡ release_all (msg 64 ∷ []) no_heap)
    × ((channel s' 3).live ≡ false)
    × ((j : ℕ) → j ≢ 3 → channel s' j ≡ channel open_3 j)
oo_channel_destroy_lem_test =
    oo_channel_destroy_lem counted (counted.token CapKind.thread) 3 (pos 3) open_3
      (counted_opens CapKind.thread) refl open_3-IsLive

-- ===== src/Actor/Channel/Queue.antt =====
-- What a channel promises: a queue of at most 8 messages, oldest first.
use oodar.Base.{ltb, if◌then◌else◌, List, [], ◌∷◌, ◌++◌, length}
use oodar.Str.Ref.{OoStr}
use oodar.Actor.Channel.{Res, ok, ok_msg, err, clamp_len}

pub data Op : Type 0 where
  send : OoStr → Op
  recv : Op

-- One call on a live channel: the reply and the queue after it.
unfoldable pub step : Op → List OoStr → Res × List OoStr
step (send m) q =
    if ltb (length q) 8 then (ok "sent", q ++ (clamp_len m ∷ [])) else (err "channel_send: full", q)
step recv [] = (err "channel_recv: empty", [])
step recv (m ∷ q) = (ok_msg m, q)

-- The replies to a sequence of calls, in whatever order the threads made them.
unfoldable pub replies : List Op → List OoStr → List Res
unfolding step
replies [] q = []
replies (o ∷ ops) q = let (r, q') = step o q in r ∷ replies ops q'

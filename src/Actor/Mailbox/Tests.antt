-- ===== src/Actor/Mailbox/Tests.antt =====
-- Runs of actors, and the instances of their theorems.
use oodar.Base.{ℕ, ◌≡◌, ◌≢◌, refl, arith, true, false, List, [], ◌∷◌, set, replicate, some}
use oodar.Actor.Mailbox.{OoActor, Actors, err, unused, actor, supervise_in, restart_in}
use oodar.Actor.Mailbox.Simulate.{IsUp, waiting, Op, send, recv, calls, promised, calls-promised}
use oodar.Actor.Mailbox.Once.{Call, spawn, destroy, perform_all, supervise_once, restart_in_lem}

-- Actor 3 is live, with one message in its mailbox.
abbrev busy : OoActor
busy = record unused {
  live = true;
  running = true;
  head = 7;
  tail = 0;
  count = 1;
  msgs = [] ∷ [] ∷ [] ∷ [] ∷ [] ∷ [] ∷ [] ∷ (65 ∷ []) ∷ [];
}

abbrev table : Actors
table = record {
  actors = set (replicate 16 unused) 3 busy;
  otp_once = replicate 16 false;
  released = [];
}

table-IsUp : IsUp table 3
table-IsUp = record {
  sixteen = refl;
  index_in = omega arith;
  is_live = refl;
  box = record { eight = refl; head_in = omega arith; count_in = omega arith; tail_at = refl };
}

abbrev three_calls : List Op
three_calls = send (66 ∷ 67 ∷ []) ∷ recv ∷ recv ∷ recv ∷ []

calls-promised_example : calls 3 three_calls table ≡ promised three_calls ((65 ∷ []) ∷ [])
calls-promised_example = calls-promised 3 three_calls table table-IsUp

-- The actor is destroyed, and another one takes its slot.
abbrev replacement : List Call
replacement = destroy (some 3) ∷ spawn (some 3) true (98 ∷ []) ∷ []

supervise_once_example :
    (supervise_in (some 3) (perform_all replacement (supervise_in (some 3) table).1)).0
    ≡ some (err "otp_supervise: already")
unfolding supervise_in
supervise_once_example = supervise_once replacement table 3 refl (omega arith) refl

restart_in_lem_test :
    ((actor (restart_in (some 3) true table).1 3).live ≡ true)
    × (waiting (actor (restart_in (some 3) true table).1 3) ≡ (65 ∷ []) ∷ [])
    × ((j : ℕ) → j ≢ 3 → actor (restart_in (some 3) true table).1 j ≡ actor table j)
    × ((actor (restart_in (some 3) false table).1 3).live ≡ false)
    × ((restart_in (some 3) false table).1.released ≡ [])
restart_in_lem_test = restart_in_lem 3 table refl (omega arith) refl

-- ===== src/Actor/Mailbox.antt =====
-- app/actor/actor.c: 16 actors, each with a worker thread and a ring of 8 messages. Every call holds
-- `g_act_boot` from its first look at an actor to its last write, and takes the gate of the thread
-- cap first. A message is the list of its bytes, since a send copies it. `spawned` says whether
-- `pthread_create` returned 0.
pub mod Simulate
pub mod Once
mod Tests
use Prim.Native.String.{String}
use oodar.Base.{ℕ, zero, suc, ◌+◌, ◌-◌, ◌%◌, ◌^◌, leb, ◌==◌, if◌then◌else◌, not, ◌||◌}
use oodar.Base.{
  Bool, true, false, List, [], ◌∷◌, ◌++◌, Option, none, some, get_or, set, take, ℤ, slot_of,
}
use oodar.Base.{Run, returns, ◌>>=◌}
use oodar.Cap.Tokens.{CapKind, CapState}
use oodar.Cap.Gates.{oo_cap_require_kind}
use oodar.Actor.Ring.{ring_from}

pub record OoActor : Type 0 where
  pub live : Bool
  pub running : Bool
  pub stop_req : Bool
  pub head : ℕ
  pub tail : ℕ
  pub count : ℕ
  pub msgs : List (List ℕ)
  pub msgs_processed : ℕ
  pub name : List ℕ

-- `g_actors` and `g_otp_once`, and the messages that were released.
pub record Actors : Type 0 where
  pub actors : List OoActor
  pub otp_once : List Bool
  pub released : List (List ℕ)

-- An `OoResS`: a text of the code's own, the `actor:N` of a new actor, or a message.
pub data Reply : Type 0 where
  ok : String → Reply
  ok_actor : ℕ → Reply
  ok_msg : List ℕ → Reply
  err : String → Reply

abbrev pub unused : OoActor
unused = record {
  live = false;
  running = false;
  stop_req = false;
  head = 0;
  tail = 0;
  count = 0;
  msgs = [] ∷ [] ∷ [] ∷ [] ∷ [] ∷ [] ∷ [] ∷ [] ∷ [];
  msgs_processed = 0;
  name = [];
}

abbrev pub actor : Actors → ℕ → OoActor
actor s i = get_or s.actors i unused

abbrev pub put : ℕ → OoActor → Actors → Actors
put i a s = record s { actors = set s.actors i a }

-- The worker sets `running` when it starts.
unfoldable pub worker_start : OoActor → OoActor
worker_start a = record a { running = true }

-- One round of the worker: it ends, it waits for a message, or it counts one and waits.
unfoldable pub worker_round : OoActor → OoActor
worker_round a =
    if a.stop_req || not a.live
    then record a { running = false }
    else (if a.count == 0 then a else record a { msgs_processed = (a.msgs_processed + 1) % 2 ^ 64 })

-- At most 1 MiB is copied.
unfoldable pub oo_act_copy : List ℕ → List ℕ
oo_act_copy m = take (2 ^ 20) m

unfoldable pub act_alloc_slot : List OoActor → ℕ → Option ℕ
act_alloc_slot [] i = none
act_alloc_slot (a ∷ rest) i =
    let next = act_alloc_slot rest (i + 1) in if a.live then next else some i

-- The name keeps 31 bytes.
unfoldable pub spawn_in : Option ℕ → Bool → List ℕ → Actors → Reply × Actors
spawn_in none spawned name s = (err "actor_spawn: no free slot", s)
spawn_in (some i) spawned name s =
    let a = record (actor s i) {
      live = spawned;
      running = false;
      stop_req = false;
      head = 0;
      tail = 0;
      count = 0;
      msgs_processed = 0;
      name = take 31 name;
    } in
    (if spawned then ok_actor i else err "actor_spawn failed", put i a s)

unfoldable pub enqueue : List ℕ → OoActor → OoActor
enqueue m a = record a { msgs = set a.msgs a.tail m; tail = (a.tail + 1) % 8; count = a.count + 1 }

unfoldable pub send_in : Option ℕ → List ℕ → Actors → Reply × Actors
send_in none msg s = (err "actor_send: bad id", s)
send_in (some i) msg s =
    if not (actor s i).live
    then (err "actor_send: empty slot", s)
    else (if leb 8 (actor s i).count
        then (err "actor_send: full", s)
        else (ok "sent", put i (enqueue (oo_act_copy msg) (actor s i)) s))

unfoldable pub dequeue : OoActor → OoActor
dequeue a = record a { head = (a.head + 1) % 8; count = a.count - 1 }

unfoldable pub recv_in : Option ℕ → Actors → Reply × Actors
recv_in none s = (err "actor_recv: bad id", s)
recv_in (some i) s =
    if not (actor s i).live
    then (err "actor_recv: empty slot", s)
    else (if (actor s i).count == 0
        then (err "actor_recv: empty", s)
        else (ok_msg (get_or (actor s i).msgs (actor s i).head []), put i (dequeue (actor s i)) s))

-- The worker is joined, and the messages that are left are released, the oldest first.
unfoldable pub destroy_in : Option ℕ → Actors → Reply × Actors
destroy_in none s = (err "actor_destroy: bad id", s)
destroy_in (some i) s =
    let a = actor s i in
    if not a.live then (err "actor_destroy: empty slot", s) else (
      ok "destroyed",
      record s {
        actors = set s.actors i (record a {
          live = false;
          running = false;
          stop_req = false;
          head = 0;
          tail = 0;
          count = 0;
          msgs_processed = 0;
        });
        released = s.released ++ ring_from [] a.msgs a.head a.count;
      },
    )

-- The mailbox stays; where no thread is made the actor is no longer live.
unfoldable pub restart_in : Option ℕ → Bool → Actors → Reply × Actors
restart_in none spawned s = (err "actor_restart: bad id", s)
restart_in (some i) spawned s =
    let a = actor s i in
    if not a.live then (err "actor_restart: empty slot", s) else (
      if spawned then ok "restarted" else err "actor_restart: spawn failed",
      put i (record a { live = spawned; running = true; stop_req = false }) s,
    )

-- Whether the restart goes on, or the reply of the refusal.
unfoldable pub supervise_in : Option ℕ → Actors → Option Reply × Actors
supervise_in none s = (some (err "otp_supervise: bad id"), s)
supervise_in (some i) s =
    if get_or s.otp_once i false
    then (some (err "otp_supervise: already"), s)
    else (if not (actor s i).live
        then (some (err "otp_supervise: empty"), s)
        else (none, record s { otp_once = set s.otp_once i true }))

module _ (caps : CapState) (token : ℕ) where
  unfoldable pub oo_actor_spawn : Bool → List ℕ → Actors → Run (Reply × Actors)
  oo_actor_spawn spawned name s = do
    c ← oo_cap_require_kind CapKind.thread caps token
    returns (spawn_in (act_alloc_slot s.actors 0) spawned name s)

  unfoldable pub oo_actor_send : ℤ → List ℕ → Actors → Run (Reply × Actors)
  oo_actor_send id msg s = do
    c ← oo_cap_require_kind CapKind.thread caps token
    returns (send_in (slot_of 16 id) msg s)

  unfoldable pub oo_actor_recv : ℤ → Actors → Run (Reply × Actors)
  oo_actor_recv id s = do
    c ← oo_cap_require_kind CapKind.thread caps token
    returns (recv_in (slot_of 16 id) s)

  unfoldable pub oo_actor_destroy : ℤ → Actors → Run (Reply × Actors)
  oo_actor_destroy id s = do
    c ← oo_cap_require_kind CapKind.thread caps token
    returns (destroy_in (slot_of 16 id) s)

  unfoldable pub oo_actor_restart : ℤ → Bool → Actors → Run (Reply × Actors)
  oo_actor_restart id spawned s = do
    c ← oo_cap_require_kind CapKind.thread caps token
    returns (restart_in (slot_of 16 id) spawned s)

  unfoldable pub or_restart : ℤ → Bool → Option Reply × Actors → Run (Reply × Actors)
  or_restart id spawned (some r, s) = returns (r, s)
  or_restart id spawned (none, s) = oo_actor_restart id spawned s

  unfoldable pub oo_otp_supervise : ℤ → Bool → Actors → Run (Reply × Actors)
  oo_otp_supervise id spawned s = do
    c ← oo_cap_require_kind CapKind.thread caps token
    or_restart id spawned (supervise_in (slot_of 16 id) s)

-- ===== src/Actor/Mailbox/Once.antt =====
-- Supervision and restart.
use oodar.Base.{ℕ, zero, suc, ◌<◌, ◌≡◌, ◌≢◌, refl, arith, ap, sym}
use oodar.Base.{
  Bool, true, false, List, [], ◌∷◌, length, get_or, set, get_or-set_self, get_or-set_ne, some, none,
  Option,
}
use oodar.Actor.Mailbox.{
  OoActor, Actors, err, unused, actor, spawn_in, send_in, recv_in, destroy_in, restart_in,
  supervise_in,
}
use oodar.Actor.Mailbox.Simulate.{waiting}

-- A call on the table; `none` is an id out of range, and for a spawn a full table.
pub data Call : Type 0 where
  spawn : Option ℕ → Bool → List ℕ → Call
  send : Option ℕ → List ℕ → Call
  recv : Option ℕ → Call
  destroy : Option ℕ → Call
  restart : Option ℕ → Bool → Call
  supervise : Option ℕ → Call

unfoldable pub perform : Call → Actors → Actors
perform (spawn o spawned name) s = (spawn_in o spawned name s).1
perform (send o m) s = (send_in o m s).1
perform (recv o) s = (recv_in o s).1
perform (destroy o) s = (destroy_in o s).1
perform (restart o spawned) s = (restart_in o spawned s).1
perform (supervise o) s = (supervise_in o s).1

unfoldable pub perform_all : List Call → Actors → Actors
perform_all [] s = s
perform_all (c ∷ cs) s = perform_all cs (perform c s)

-- A flag that is set stays.
flag_stays :
    (l : List Bool) (i j : ℕ) → get_or l i false ≡ true → get_or (set l j true) i false ≡ true
flag_stays [] i j h = h
flag_stays (b ∷ l) zero zero h = refl
flag_stays (b ∷ l) (suc i) zero h = h
flag_stays (b ∷ l) zero (suc j) h = h
flag_stays (b ∷ l) (suc i) (suc j) h = flag_stays l i j h

perform_keeps :
    (c : Call) (s : Actors) (i : ℕ)
    → get_or s.otp_once i false ≡ true
    → get_or (perform c s).otp_once i false ≡ true
unfolding perform spawn_in send_in recv_in destroy_in restart_in supervise_in
perform_keeps (spawn none spawned name) s i h = h
perform_keeps (spawn (some j) spawned name) s i h = h
perform_keeps (send none m) s i h = h
perform_keeps (send (some j) m) s i h = ground (arith, h)
perform_keeps (recv none) s i h = h
perform_keeps (recv (some j)) s i h = ground (arith, h)
perform_keeps (destroy none) s i h = h
perform_keeps (destroy (some j)) s i h = ground (arith, h)
perform_keeps (restart none spawned) s i h = h
perform_keeps (restart (some j) spawned) s i h = ground (arith, h)
perform_keeps (supervise none) s i h = h
perform_keeps (supervise (some j)) s i h = ground (arith, h, flag_stays s.otp_once i j h)

perform_all_keeps :
    (cs : List Call) (s : Actors) (i : ℕ)
    → get_or s.otp_once i false ≡ true
    → get_or (perform_all cs s).otp_once i false ≡ true
unfolding perform_all
perform_all_keeps [] s i h = h
perform_all_keeps (c ∷ cs) s i h = perform_all_keeps cs (perform c s) i (perform_keeps c s i h)

marked :
    (s : Actors) (i : ℕ)
    → length s.otp_once ≡ 16
    → i < 16
    → (supervise_in (some i) s).0 ≡ none
    → get_or (supervise_in (some i) s).1.otp_once i false ≡ true
unfolding supervise_in
marked s i sixteen inside first =
    ground (arith, first, get_or-set_self s.otp_once i true false (omega (arith, sixteen)))

-- Once a supervision of a slot has gone on to the restart, every later one is refused, whatever
-- calls come between them: also for another actor that was spawned into the slot.
pub supervise_once :
    (cs : List Call) (s : Actors) (i : ℕ)
    → length s.otp_once ≡ 16
    → i < 16
    → (supervise_in (some i) s).0 ≡ none
    → (supervise_in (some i) (perform_all cs (supervise_in (some i) s).1)).0
      ≡ some (err "otp_supervise: already")
unfolding supervise_in
supervise_once cs s i sixteen inside first =
    rw (perform_all_keeps cs (supervise_in (some i) s).1 i (marked s i sixteen inside first)) refl

-- A restart of a live actor whose worker is made again keeps its mailbox and the other actors; where
-- no thread is made, the actor is not live and its messages are not released.
pub restart_in_lem :
    (i : ℕ) (s : Actors)
    → length s.actors ≡ 16
    → i < 16
    → (actor s i).live ≡ true
    → ((actor (restart_in (some i) true s).1 i).live ≡ true)
      × (waiting (actor (restart_in (some i) true s).1 i) ≡ waiting (actor s i))
      × ((j : ℕ) → j ≢ i → actor (restart_in (some i) true s).1 j ≡ actor s j)
      × ((actor (restart_in (some i) false s).1 i).live ≡ false)
      × ((restart_in (some i) false s).1.released ≡ s.released)
unfolding restart_in
restart_in_lem i s sixteen inside up =
    let back : (a : OoActor) → get_or (set s.actors i a) i unused ≡ a =
      λ a. get_or-set_self s.actors i a unused (omega (arith, sixteen)) in
    rw (up) (
      ap (λ a. a.live) (back _),
      ap waiting (back _),
      λ j ne. get_or-set_ne s.actors i j _ unused (λ z. ne (sym z)),
      ap (λ a. a.live) (back _),
      refl,
    )

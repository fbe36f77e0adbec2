-- ===== src/Mem/Arena/Bounds.antt =====
-- Offsets that `oo_arena_alloc` and the frames hand out, against the capacity of the slot.
use oodar.Base.{ℕ, suc, ◌+◌, ◌%◌, ◌^◌, ◌≤◌, ◌<◌, ◌≡◌, arith, ap}
use oodar.Base.{
  true, some, pos, ℤ, returns, align64, slot_of, >>=-returns, returns-injective, add64, length,
  get_or-set_self,
}
use oodar.Cap.Tokens.{CapState}
use oodar.Mem.Arena.{
  OoArena, Arenas, slot, put, Res, ok, bump, alloc_in, idle, arena_slots, oo_arena_need,
  oo_arena_alloc,
}

-- The bump pointer of the slot is inside a capacity that is a multiple of 64 and at most 1 GiB.
pub record Fits (a : OoArena) : Type 0 where
  pub whole : a.capacity % 64 ≡ 0
  pub small : a.capacity ≤ 2 ^ 30
  pub inside : a.off ≤ a.capacity

bump_within :
    (n o : ℕ) (a : OoArena)
    → n ≤ 2 ^ 26
    → Fits a
    → (bump n a).0 ≡ ok o
    → (o % 64 ≡ 0)
      × (a.off ≤ o)
      × (o + n ≤ a.capacity)
      × ((bump n a).1.off ≡ o + n)
      × Fits (bump n a).1
unfolding bump
bump_within n o a hn f h = ground arith

bump-Fits : (n : ℕ) (a : OoArena) → n ≤ 2 ^ 26 → Fits a → Fits (bump n a).1
unfolding bump
bump-Fits n a hn f = ground arith

-- The call reached the bump of a live slot.
alloc_reaches :
    (caps : CapState) (token n o : ℕ) (id : ℤ) (s : Arenas) {s' : Arenas}
    → oo_arena_alloc caps token id (pos (suc n)) s ≡ returns (ok o, s')
    → alloc_in (slot_of arena_slots id) (suc n) s ≡ (ok o, s')
unfolding oo_arena_alloc
alloc_reaches caps token n o id s h =
    let (u, need, rest) = >>=-returns (oo_arena_need caps token) _ h in returns-injective rest

alloc_in_ok :
    (i n o : ℕ) (s : Arenas) {s' : Arenas}
    → alloc_in (some i) n s ≡ (ok o, s')
    → (n ≤ 2 ^ 26)
      × ((slot s i).live ≡ true)
      × ((bump n (slot s i)).0 ≡ ok o)
      × (s' ≡ put s i (bump n (slot s i)).1)
unfolding alloc_in
alloc_in_ok i n o s h = ground arith

-- In a slot of the table whose capacity is a multiple of 64 of at most 1 GiB, with the bump pointer
-- inside it: a successful allocation lies inside the capacity, at or above the bump pointer that the
-- slot had, at a multiple of 64, the bump pointer moves to its end, and the slot stays of this form.
pub alloc_within :
    (caps : CapState) (token i n o : ℕ) (id : ℤ) (s : Arenas) {s' : Arenas}
    → slot_of arena_slots id ≡ some i
    → i < length s.slots
    → Fits (slot s i)
    → oo_arena_alloc caps token id (pos (suc n)) s ≡ returns (ok o, s')
    → (o % 64 ≡ 0)
      × ((slot s i).off ≤ o)
      × (o + suc n ≤ (slot s i).capacity)
      × ((slot s' i).off ≡ o + suc n)
      × Fits (slot s' i)
alloc_within caps token i n o id s {s'} hid hi f h =
    let (small, live, result, after) =
      alloc_in_ok i (suc n) o s (rw hid at (alloc_reaches caps token n o id s h)) in
    let (aligned, past, inside, next, fits) = bump_within (suc n) o (slot s i) small f result in
    let there : slot s' i ≡ (bump (suc n) (slot s i)).1 =
      rw after (get_or-set_self s.slots i (bump (suc n) (slot s i)).1 idle hi) in
    (aligned, past, inside, rw there next, rw there fits)

bump_escapes :
    (n : ℕ) (a : OoArena)
    → a.capacity ≤ 2 ^ 30
    → a.off ≤ a.capacity
    → a.capacity < align64 a.off
    → n < 2 ^ 26
    → bump (suc n) a ≡ (ok (align64 a.off), record a { off = add64 (align64 a.off) (suc n) })
unfolding bump
bump_escapes n a small inside over hn = ground arith

alloc_in-bump :
    (i n : ℕ) (s : Arenas) {r : Res} {a : OoArena}
    → n ≤ 2 ^ 26
    → (slot s i).live ≡ true
    → bump n (slot s i) ≡ (r, a)
    → alloc_in (some i) n s ≡ (r, put s i a)
unfolding alloc_in
alloc_in-bump i n s small live h = ground arith

-- In a live slot of at most 1 GiB whose bump pointer is inside the capacity, but whose aligned bump
-- pointer is not: the free space wraps, and with a token that passes, every allocation of 1 byte to
-- 64 MiB is granted, at an offset beyond the capacity.
pub alloc_escapes :
    (caps : CapState) (token i n : ℕ) (id : ℤ) (s : Arenas)
    → slot_of arena_slots id ≡ some i
    → i < length s.slots
    → oo_arena_need caps token ≡ returns tt
    → (slot s i).live ≡ true
    → (slot s i).capacity ≤ 2 ^ 30
    → (slot s i).off ≤ (slot s i).capacity
    → (slot s i).capacity < align64 (slot s i).off
    → n < 2 ^ 26
    → (o : ℕ) × (s' : Arenas) × (oo_arena_alloc caps token id (pos (suc n)) s ≡ returns (ok o, s'))
      × ((slot s i).capacity < o)
unfolding oo_arena_alloc
alloc_escapes caps token i n id s hid hi need live small inside over hn = (
  align64 (slot s i).off,
  put s i (record (slot s i) { off = add64 (align64 (slot s i).off) (suc n) }),
  reached,
  over,
)
  where
    reached :
        oo_arena_alloc caps token id (pos (suc n)) s
        ≡ returns (
          ok (align64 (slot s i).off),
          put s i (record (slot s i) { off = add64 (align64 (slot s i).off) (suc n) }),
        )
    reached =
        rw (need, hid)
          (ap returns (
            alloc_in-bump i (suc n) s (omega arith) live
              (bump_escapes n (slot s i) small inside over hn)))

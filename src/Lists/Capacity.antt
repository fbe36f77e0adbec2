-- ===== src/Lists/Capacity.antt =====
-- The capacity that a push asks for: the loop that doubles it ends with enough and not too much.
use oodar.Base.{
  ℕ, zero, suc, ◌+◌, ◌*◌, ◌<◌, ◌≤◌, ◌≡◌, ◌≢◌, ◌⊎◌, inl, inr, refl, arith, if◌then◌else◌, ◌==◌,
  ==_iff,
}
use oodar.Lists.{OoList}
use oodar.Lists.Ops.{grow, new_capacity}

grow_enough : (fuel ncap need : ℕ) → 0 < ncap → need ≤ ncap + fuel → need ≤ grow fuel ncap need
unfolding grow
grow_enough zero ncap need pos h = omega arith
grow_enough (suc fuel) ncap need pos h =
    ground (arith, grow_enough fuel (ncap * 2) need (omega arith) (omega arith))

grow_bound : (fuel ncap need : ℕ) → (grow fuel ncap need ≡ ncap) ⊎ (grow fuel ncap need < 2 * need)
unfolding grow
grow_bound zero ncap need = inl refl
grow_bound (suc fuel) ncap need = elim (grow_bound fuel (ncap * 2) need) [
  | inl e ↦ ground (arith, e)
  | inr lt ↦ ground (arith, lt)
]

-- The capacity that a push asks for holds the longer list, and it is the one at hand (8 for none) or
-- below twice the length.
pub new_capacity_lem :
    (l : OoList)
    → (suc l.len ≤ new_capacity l)
      × ((new_capacity l ≡ (if l.capacity == 0 then 8 else l.capacity))
          ⊎ (new_capacity l < 2 * suc l.len))
unfolding new_capacity
new_capacity_lem l = (
  grow_enough (suc l.len) (if l.capacity == 0 then 8 else l.capacity) (suc l.len)
      (ground (arith, ==_iff l.capacity 0)) (omega arith),
  grow_bound (suc l.len) (if l.capacity == 0 then 8 else l.capacity) (suc l.len),
)

pub new_capacity_ne_zero : (l : OoList) → new_capacity l ≢ 0
new_capacity_ne_zero l e = omega (arith, (new_capacity_lem l).0)

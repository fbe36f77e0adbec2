-- ===== src/Sandbox/Limits/Laws.antt =====
-- What the calls do to the limits.
use oodar.Base.{
  ℕ, ◌≡◌, ◌≢◌, ◌≤◌, ◌*◌, ◌%◌, ◌^◌, refl, arith, ltb, if◌then◌else◌, Bool, true, false, not, pos,
  if_elim, List, ==_iff, ◌==◌, ℤ, negsuc, above, pos_part,
}
use oodar.Sandbox.Text.{OoResS, failed, succeeded, codes}
use oodar.Sandbox.Limits.{
  Resource, address_space, nofile, cpu, Rlimit, Limits, LimitKernel, put_limit, same_resource,
  tighten, set_mem_in, set_nofile_in, set_cpu_in,
}

-- The soft limit is `amount`, the hard one is not above it or above the old one, and the limits of the
-- other resources are as they were.
pub record Tightened (r : Resource) (amount : ℕ) (old new : Limits) : Type 0 where
  pub soft : (new r).rlim_cur ≡ amount
  pub hard : ((new r).rlim_max ≤ amount) × ((new r).rlim_max ≤ (old r).rlim_max)
  pub others : (q : Resource) → q ≢ r → new q ≡ old q

-- The limits that the kernel is asked for.
abbrev pub wanted : Resource → ℕ → Limits → Rlimit
wanted r amount old = record {
  rlim_cur = amount;
  rlim_max = if ltb amount (old r).rlim_max then amount else (old r).rlim_max;
}

-- Why a call of `n` units fails; the kernel is asked only where `n` is positive.
pub data Reason (k : LimitKernel) (r : Resource) (n : ℤ) (amount : ℕ) (old : Limits) : Type 0 where
  not_positive : above 0 n ≡ false → Reason k r n amount old
  no_get : above 0 n ≡ true → k.gets r ≡ false → Reason k r n amount old
  no_set : above 0 n ≡ true → k.sets r (wanted r amount old) ≡ false → Reason k r n amount old

-- A call fails and changes nothing, or was asked for a positive amount, says OK and has tightened its
-- resource.
pub data Limited (k : LimitKernel) (r : Resource) (n : ℤ) (amount : ℕ) (old : Limits)
    (s : OoResS × Limits) : Type 0 where
  refused :
      (msg : List ℕ) → s ≡ (failed msg, old) → Reason k r n amount old → Limited k r n amount old s
  tightened :
      (new : Limits)
      → above 0 n ≡ true
      → s ≡ (succeeded (codes "OK"), new)
      → Tightened r amount old new
      → Limited k r n amount old s

same_resource_same : (r : Resource) → same_resource r r ≡ true
same_resource_same address_space = refl
same_resource_same nofile = refl
same_resource_same cpu = refl

same_resource-eq : (r q : Resource) → q ≢ r → same_resource r q ≡ false
same_resource-eq address_space address_space ne = absurd (ne refl)
same_resource-eq address_space nofile ne = refl
same_resource-eq address_space cpu ne = refl
same_resource-eq nofile address_space ne = refl
same_resource-eq nofile nofile ne = absurd (ne refl)
same_resource-eq nofile cpu ne = refl
same_resource-eq cpu address_space ne = refl
same_resource-eq cpu nofile ne = refl
same_resource-eq cpu cpu ne = absurd (ne refl)

put_limit-Tightened :
    (r : Resource) (amount hard : ℕ) (old : Limits)
    → (hard ≤ amount) × (hard ≤ (old r).rlim_max)
    → Tightened r amount old (put_limit r (record { rlim_cur = amount; rlim_max = hard }) old)
put_limit-Tightened r amount hard old h = record {
  soft = rw (same_resource_same r) refl;
  hard = rw (same_resource_same r) h;
  others = λ q ne. rw (same_resource-eq r q ne) refl;
}

negated : {b : Bool} → not b ≡ true → b ≡ false
negated {b = true} h = absurd (cc)
negated {b = false} h = refl

module _ (k : LimitKernel) (n : ℤ) (old : Limits) where
  tighten-Limited :
      (r : Resource) (amount : ℕ) (no_get_msg no_set_msg : List ℕ)
      → above 0 n ≡ true
      → Limited k r n amount old (tighten k r amount no_get_msg no_set_msg old)
  unfolding tighten
  tighten-Limited r amount no_get_msg no_set_msg positive =
      if_elim (Limited k r n amount old) (not (k.gets r))
        (λ h. refused no_get_msg refl (no_get positive (negated h)))
        λ _.
          if_elim (Limited k r n amount old) (not (k.sets r (wanted r amount old)))
            (λ h. refused no_set_msg refl (no_set positive (negated h)))
            λ _.
              tightened _ positive refl
                (put_limit-Tightened r amount (wanted r amount old).rlim_max old (ground arith))

asked-Limited :
    (k : LimitKernel) (n : ℕ) (old : Limits) (r : Resource) (amount : ℕ)
    (bad no_get_msg no_set_msg : List ℕ)
    → Limited k r
        (pos n)
        amount
        old
        (if n == 0 then (failed bad, old) else tighten k r amount no_get_msg no_set_msg old)
asked-Limited k n old r amount bad no_get_msg no_set_msg =
    if_elim (Limited k r (pos n) amount old) (n == 0)
      (λ h. refused bad refl (not_positive (ground (arith, ==_iff n 0))))
      λ h. tighten-Limited k (pos n) old r amount no_get_msg no_set_msg (ground (arith, ==_iff n 0))

-- Each of the three calls, behind its gate and for every signed amount, either fails and changes no
-- limit, because the amount is not positive, or because it is and the limits cannot be read or the
-- kernel refuses the new ones; or the amount is positive, and the call says OK and leaves the soft
-- limit of its resource at the amount, in bytes modulo 2^64 for the memory, its hard limit at no more
-- than the amount and the old hard limit, and the other resources as they were.
pub limits-Limited :
    (k : LimitKernel) (n : ℤ) (old : Limits)
    → Limited k address_space n (pos_part n * 1048576 % 2 ^ 64) old (set_mem_in k n old)
      × Limited k nofile n (pos_part n) old (set_nofile_in k n old)
      × Limited k cpu n (pos_part n) old (set_cpu_in k n old)
unfolding set_mem_in set_nofile_in set_cpu_in
limits-Limited k (negsuc n) old = (
  refused _ refl (not_positive refl),
  refused _ refl (not_positive refl),
  refused _ refl (not_positive refl),
)
limits-Limited k (pos n) old = (
  asked-Limited k n old address_space (n * 1048576 % 2 ^ 64) _ _ _,
  asked-Limited k n old nofile n _ _ _,
  asked-Limited k n old cpu n _ _ _,
)

-- A quota of 2^44 MB or a multiple of it becomes a limit of 0 bytes.
pub overflow_lem :
    (k : LimitKernel) (m : ℕ) (old : Limits)
    → Limited k address_space
        (pos (17592186044416 * m))
        0
        old
        (set_mem_in k (pos (17592186044416 * m)) old)
overflow_lem k m old =
    let e : 17592186044416 * m * 1048576 % 2 ^ 64 ≡ 0 = omega arith in
    rw e at (limits-Limited k (pos (17592186044416 * m)) old).0

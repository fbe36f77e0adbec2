-- ===== src/Seccomp/Install/Laws.antt =====
-- What an application of a filter leaves behind, and which masks allow more than others.
use oodar.Base.{
  ℕ, zero, suc, ◌≡◌, refl, arith, List, ◌∷◌, Option, none, some, Bool, true, false, if◌then◌else◌,
  ℤ, pos, negsuc, Bool-cases, inl, inr, ◌<◌, ◌^◌, ==_iff, if_of_true, if_of_false,
}
use oodar.Base.Bits.{disjoint_mono}
use Prim.Native.Nat.{bit_and}
use oodar.Seccomp.{Build, Actions, capf_filter, seccomp_ret_allow}
use oodar.Seccomp.Machine.{SeccompData, Bpf, overlaps}
use oodar.Seccomp.Policy.{policy, run-capf_filter}
use oodar.Seccomp.Install.{
  Program, Kernel, CapFilter, hand_over, prctl_filter, capf_install, capf_install_on, note_result,
  cap_net, cap_process_or_sys, cap_fswrite_or_fs, cap_actions, fsw_granted,
  oodar_cap_apply_seccomp_filter, oodar_cap_init, oodar_cap_drop, oodar_cap_is_sandboxed,
}

-- The newest filter in the kernel does for every call what the table says for these actions.
pub record Confines (b : Build) (acts : Actions) (fsw_ok : Bool) (filters : List Program)
    : Type 0 where
  pub arch : ℕ
  pub newest : Program
  pub older : List Program
  pub arch_known : b.audit_arch ≡ some arch
  pub stacked : filters ≡ newest ∷ older
  pub verdicts :
      (m : Bpf) (d : SeccompData) (a : ℕ) → m.run newest a d ≡ some (policy b arch acts fsw_ok d)

-- A filter is taken over with result 0, or nothing is and the result is negative.
data Handed (f : Program) (fs : List Program) (r : ℤ × List Program) : Type 0 where
  taken : r ≡ (pos 0, f ∷ fs) → Handed f fs r
  refused : (n : ℕ) → r ≡ (negsuc n, fs) → Handed f fs r

both :
    {f : Program} {fs : List Program} (c : Bool) (x y : ℤ × List Program)
    → Handed f fs x
    → Handed f fs y
    → Handed f fs (if c then x else y)
both true x y hx hy = hx
both false x y hx hy = hy

prctl_filter-Handed :
    (b : Build) (k : Kernel) (f : Program) (fs : List Program) → Handed f fs (prctl_filter b k f fs)
unfolding prctl_filter
prctl_filter-Handed b k f fs =
    both _ _ _ (taken refl) (both _ _ _ (refused 0 refl) (refused 1 refl))

hand_over-Handed :
    (b : Build) (k : Kernel) (f : Program) (fs : List Program) → Handed f fs (hand_over b k f fs)
unfolding hand_over
hand_over-Handed b k f fs =
    both _ _ _ (refused 1 refl)
      (both _ _ _ (refused 0 refl) (both _ _ _ (taken refl) (prctl_filter-Handed b k f fs)))

-- What an application may do to a state in which no filter is on.
pub data Applied (b : Build) (mask : ℕ) (fs : List Program) (r : ℤ × CapFilter) : Type 0 where
  installed :
      r.0 ≡ pos 0
      → r.1.on ≡ true
      → r.1.mask ≡ mask
      → Confines b (cap_actions b mask) (fsw_granted mask) r.1.filters
      → Applied b mask fs r
  failed : (n : ℕ) → r.0 ≡ negsuc n → r.1.on ≡ false → r.1.filters ≡ fs → Applied b mask fs r

note_result-Applied :
    (b : Build) (mask arch : ℕ) (s : CapFilter) (fs : List Program) (r : ℤ × List Program)
    → b.audit_arch ≡ some arch
    → s.mask ≡ mask
    → Handed (capf_filter b arch (cap_actions b mask) (fsw_granted mask)) fs r
    → s.on ≡ false
    → Applied b mask fs (note_result s r)
unfolding note_result
note_result-Applied b mask arch s fs r known em (taken h) off = rw h (
    installed refl refl em (record {
      arch = arch;
      newest = capf_filter b arch (cap_actions b mask) (fsw_granted mask);
      older = fs;
      arch_known = known;
      stacked = refl;
      verdicts = λ m d a. run-capf_filter m d b arch (cap_actions b mask) (fsw_granted mask) a;
    }))
note_result-Applied b mask arch s fs r known em (refused zero h) off = rw h (failed 0 refl off refl)
note_result-Applied b mask arch s fs r known em (refused (suc n) h) off =
    rw h (failed (suc n) refl off refl)

apply_on :
    (b : Build) (k : Kernel) (mask : ℕ) (s : CapFilter) (arch : Option ℕ)
    → b.audit_arch ≡ arch
    → s.mask ≡ mask
    → s.on ≡ false
    → Applied b mask s.filters
        (note_result s (capf_install_on arch b k (cap_actions b mask) (fsw_granted mask) s.filters))
unfolding capf_install_on note_result
apply_on b k mask s none known em off = failed 0 refl off refl
apply_on b k mask s (some arch) known em off =
    note_result-Applied b mask arch s s.filters _ known em (hand_over-Handed b k _ s.filters) off

-- Where no filter is on, an application either returns 0 and leaves the flag set, the mask stored and
-- a filter in the kernel that does for every call what the table says for that mask; or it returns a
-- negative number, and neither the flag nor the kernel's filters change.
pub apply-Applied :
    (b : Build) (k : Kernel) (mask : ℕ) (s : CapFilter)
    → s.on ≡ false
    → Applied b mask s.filters (oodar_cap_apply_seccomp_filter b k mask s)
unfolding oodar_cap_apply_seccomp_filter capf_install
apply-Applied b k mask s off =
    rw (if_of_false _ _ off) (apply_on b k mask _ b.audit_arch refl refl off)

-- While a filter is on, an application returns 0 for any other mask and changes nothing: the mask that
-- was asked for is neither stored nor enforced.
pub apply_again :
    (b : Build) (k : Kernel) (mask : ℕ) (s : CapFilter)
    → oodar_cap_is_sandboxed s ≡ true
    → oodar_cap_apply_seccomp_filter b k mask s ≡ (pos 0, s)
unfolding oodar_cap_apply_seccomp_filter oodar_cap_is_sandboxed
apply_again b k mask s on = if_of_true _ _ on

-- The operations of the module, in any order and with any answers of the kernel.
pub data Step (b : Build) (s : CapFilter) (t : CapFilter) : Type 0 where
  init : t ≡ oodar_cap_init s → Step b s t
  drop_all : t ≡ oodar_cap_drop s → Step b s t
  apply : (k : Kernel) (mask : ℕ) → t ≡ (oodar_cap_apply_seccomp_filter b k mask s).1 → Step b s t

pub data Reach (b : Build) (s : CapFilter) : CapFilter → Type 0 where
  here : Reach b s s
  next : {t u : CapFilter} → Reach b s t → Step b t u → Reach b s u

-- While the module says that it is sandboxed, the newest filter in the kernel is that of its mask.
abbrev pub IsSound : Build → CapFilter → Type 0
IsSound b s =
    oodar_cap_is_sandboxed s ≡ true
    → Confines b (cap_actions b s.mask) (fsw_granted s.mask) s.filters

Applied-IsSound :
    (b : Build) (mask : ℕ) (fs : List Program) (r : ℤ × CapFilter)
    → Applied b mask fs r
    → IsSound b r.1
unfolding oodar_cap_is_sandboxed
Applied-IsSound b mask fs r (installed z on em c) h = rw em c
Applied-IsSound b mask fs r (failed n z off ef) h = absurd (cc)

Step-IsSound : (b : Build) (s t : CapFilter) → Step b s t → IsSound b s → IsSound b t
unfolding oodar_cap_is_sandboxed
Step-IsSound b s t (init e) v = rw e (unfold oodar_cap_init in λ h. absurd (cc))
Step-IsSound b s t (drop_all e) v = rw e (unfold oodar_cap_drop in λ h. absurd (cc))
Step-IsSound b s t (apply k mask e) v = elim (Bool-cases s.on) [
  | inl on ↦ rw e (rw (apply_again b k mask s on) v)
  | inr off ↦ rw e (Applied-IsSound b mask s.filters _ (apply-Applied b k mask s off))
]

-- After any sequence of `oodar_cap_init`, `oodar_cap_drop` and applications from a state in which no
-- filter is on, whatever the kernel answered: if `oodar_cap_is_sandboxed` then the newest filter in
-- the kernel does for every call what the table says for the stored mask.
pub Reach-IsSound : (b : Build) (s t : CapFilter) → s.on ≡ false → Reach b s t → IsSound b t
unfolding oodar_cap_is_sandboxed
Reach-IsSound b s t off here = λ h. absurd (cc)
Reach-IsSound b s t off (next r st) = Step-IsSound b _ t st (Reach-IsSound b s _ off r)

overlaps_mono :
    (m1 m2 k : ℕ)
    → m1 < 2 ^ 32
    → m2 < 2 ^ 32
    → bit_and m2 m1 ≡ m1
    → overlaps m1 k ≡ true
    → overlaps m2 k ≡ true
overlaps_mono m1 m2 k h1 h2 sub o =
    ground
      (arith, disjoint_mono 32 m1 m2 k h1 h2 sub, ==_iff (bit_and m1 k) 0, ==_iff (bit_and m2 k) 0)

policy_mono :
    (b : Build) (arch : ℕ) (a1 a2 : Actions) (f1 f2 : Bool) (d : SeccompData)
    → (a1.net_act ≡ seccomp_ret_allow → a2.net_act ≡ seccomp_ret_allow)
    → (a1.proc_act ≡ seccomp_ret_allow → a2.proc_act ≡ seccomp_ret_allow)
    → (a1.clone3_act ≡ seccomp_ret_allow → a2.clone3_act ≡ seccomp_ret_allow)
    → (f1 ≡ true → f2 ≡ true)
    → policy b arch a1 f1 d ≡ seccomp_ret_allow
    → policy b arch a2 f2 d ≡ seccomp_ret_allow
policy_mono b arch a1 a2 f1 f2 d net proc clone3 fsw h = ground (arith)

-- A filter for a subset of the capabilities allows no call that the filter for all of them does not
-- allow.
pub policy-narrower :
    (b : Build) (arch m1 m2 : ℕ) (d : SeccompData)
    → m1 < 2 ^ 32
    → m2 < 2 ^ 32
    → bit_and m2 m1 ≡ m1
    → policy b arch (cap_actions b m1) (fsw_granted m1) d ≡ seccomp_ret_allow
    → policy b arch (cap_actions b m2) (fsw_granted m2) d ≡ seccomp_ret_allow
unfolding cap_actions fsw_granted
policy-narrower b arch m1 m2 d h1 h2 sub =
    policy_mono b arch _ _ _ _ d (λ h. ground (arith, overlaps_mono m1 m2 cap_net h1 h2 sub))
      (λ h. ground (arith, overlaps_mono m1 m2 cap_process_or_sys h1 h2 sub))
      (λ h. ground (arith, overlaps_mono m1 m2 cap_process_or_sys h1 h2 sub))
      (overlaps_mono m1 m2 cap_fswrite_or_fs h1 h2 sub)

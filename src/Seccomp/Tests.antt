-- ===== src/Seccomp/Tests.antt =====
-- The filters at a target with the numbers of x86-64, and the theorems at concrete calls.
use oodar.Base.{ℕ, ◌≡◌, ◌≤◌, refl, arith, List, [], Option, some, true, length, pos}
use oodar.Seccomp.{
  SockFilter, capf_filter, gates, gate, gate_clone, gate_open, fsw_gates, assert_arch,
  seccomp_ret_allow, seccomp_ret_kill_process,
}
use oodar.Seccomp.Sample.{x86_64, call, willing, at_start}
use oodar.Seccomp.Machine.{SeccompData, interpreter}
use oodar.Seccomp.Policy.{policy, run-capf_filter, capf_filter-within}
use oodar.Seccomp.Install.{
  CapFilter, cap_actions, fsw_granted, oodar_cap_apply_seccomp_filter, oodar_cap_is_sandboxed,
  capf_install, capf_install_on, hand_over, refused_privs, prctl_filter, note_result,
}
use oodar.Seccomp.Install.Laws.{
  Applied, apply-Applied, Step, Reach, IsSound, Reach-IsSound, policy-narrower, apply_again,
}

abbrev filter_for : ℕ → List SockFilter
filter_for mask = capf_filter x86_64 0xc000003e (cap_actions x86_64 mask) (fsw_granted mask)

abbrev verdict : ℕ → SeccompData → Option ℕ
verdict mask d = interpreter.run (filter_for mask) 0 d

run-capf_filter_example : verdict 0 (call 257 0 0x41) ≡ some seccomp_ret_kill_process
unfolding cap_actions fsw_granted
run-capf_filter_example =
    run-capf_filter interpreter (call 257 0 0x41) x86_64 0xc000003e (cap_actions x86_64 0)
      (fsw_granted 0) 0

-- Reading, a new thread, and a socket with the capability are let through; `fork` is not.
verdicts :
    (verdict 0 (call 257 0 0) ≡ some seccomp_ret_allow)
    × (verdict 0 (call 56 0x10f00 0) ≡ some seccomp_ret_allow)
    × (verdict 0 (call 56 0x11 0) ≡ some seccomp_ret_kill_process)
    × (verdict 1 (call 41 0 0) ≡ some seccomp_ret_allow)
    × (verdict 1 (call 57 0 0) ≡ some seccomp_ret_kill_process)
    × (verdict 0 (call 435 0 0) ≡ some 0x50026)
unfolding interpreter capf_filter assert_arch gates gate gate_clone gate_open fsw_gates cap_actions
    fsw_granted
verdicts = (refl, refl, refl, refl, refl, refl)

-- A number of the x32 table has the same architecture and none of the numbers of the filter.
x32_socket : verdict 0 (call 0x40000029 0 0) ≡ some seccomp_ret_allow
unfolding interpreter capf_filter assert_arch gates gate gate_clone gate_open fsw_gates cap_actions
    fsw_granted
x32_socket = refl

-- `openat2` with flags for writing is not looked at.
openat2_unseen : verdict 0 (call 437 0 0x41) ≡ some seccomp_ret_allow
unfolding interpreter capf_filter assert_arch gates gate gate_clone gate_open fsw_gates cap_actions
    fsw_granted
openat2_unseen = refl

capf_filter-within_test : length (filter_for 0) ≤ 36
capf_filter-within_test =
    capf_filter-within x86_64 0xc000003e (cap_actions x86_64 0) (fsw_granted 0)

abbrev confined : CapFilter
confined = (oodar_cap_apply_seccomp_filter x86_64 willing 5 at_start).1

apply-Applied_example :
    Applied x86_64 5 [] (oodar_cap_apply_seccomp_filter x86_64 willing 5 at_start)
apply-Applied_example = apply-Applied x86_64 willing 5 at_start refl

Reach-IsSound_example : IsSound x86_64 confined
Reach-IsSound_example =
    Reach-IsSound x86_64 at_start confined refl (Reach.next Reach.here (Step.apply willing 5 refl))

applied_on : oodar_cap_is_sandboxed confined ≡ true
unfolding oodar_cap_is_sandboxed oodar_cap_apply_seccomp_filter capf_install capf_install_on
    hand_over refused_privs prctl_filter note_result capf_filter assert_arch gates gate gate_clone
    gate_open fsw_gates fsw_granted
applied_on = refl

apply_again_example : oodar_cap_apply_seccomp_filter x86_64 willing 0 confined ≡ (pos 0, confined)
apply_again_example = apply_again x86_64 willing 0 confined applied_on

policy-narrower_example :
    policy x86_64 0xc000003e (cap_actions x86_64 5) (fsw_granted 5) (call 41 0 0)
    ≡ seccomp_ret_allow
policy-narrower_example =
    policy-narrower x86_64 0xc000003e 1 5 (call 41 0 0) (omega arith) (omega arith) refl
      (unfold cap_actions fsw_granted in refl)

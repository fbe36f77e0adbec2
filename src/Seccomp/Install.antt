-- ===== src/Seccomp/Install.antt =====
-- sec/cap/cap.c: the state behind its mutex, and how a filter gets into the kernel. What the kernel
-- answers is an argument; the filters that it has taken over for the process are part of the state.
pub mod Laws
use oodar.Base.{
  ℕ, ◌≡◌, List, [], ◌∷◌, ◌++◌, Option, none, some, Bool, true, false, if◌then◌else◌, ◌==◌, ◌||◌,
  zero, drop, length, replicate, ltb, ℤ, pos, negsuc, ◌/◌, ◌%◌,
}
use Prim.Native.Nat.{bit_or}
use oodar.Seccomp.{
  SockFilter, Build, Actions, capf_filter, sand_filter, seccomp_ret_allow, seccomp_ret_errno,
  seccomp_ret_kill_process,
}
use oodar.Seccomp.Machine.{overlaps}

abbrev pub Program : Type 0
Program = List SockFilter

-- The answers of `prctl(PR_SET_NO_NEW_PRIVS)`, `syscall(__NR_seccomp)` and `prctl(PR_SET_SECCOMP)`:
-- 0, or the errno. `none` is a target without `__NR_seccomp`.
pub record Kernel : Type 0 where
  pub no_new_privs : ℕ
  pub sys_seccomp : Option ℕ
  pub prctl_seccomp : ℕ

pub record CapFilter : Type 0 where
  pub mask : ℕ
  pub tok : List ℕ
  pub on : Bool
  pub avail : Option Bool
  pub filters : List Program

abbrev pub cap_net : ℕ
cap_net = 1

-- `OODAR_CAP_PROCESS | OODAR_CAP_SYS`
abbrev pub cap_process_or_sys : ℕ
cap_process_or_sys = 18

-- `OODAR_CAP_FSWRITE | OODAR_CAP_FS`
abbrev pub cap_fswrite_or_fs : ℕ
cap_fswrite_or_fs = 36

abbrev pub accepted : Option ℕ → Bool
accepted none = false
accepted (some e) = e == 0

-- What stands in both installers around `PR_SET_NO_NEW_PRIVS`.
unfoldable pub refused_privs : Build → Kernel → Bool
refused_privs b k = k.no_new_privs == b.enosys || k.no_new_privs == b.einval

-- The last call of both installers.
unfoldable pub prctl_filter : Build → Kernel → Program → List Program → ℤ × List Program
prctl_filter b k f filters =
    if k.prctl_seccomp == 0
    then (pos 0, f ∷ filters)
    else if k.prctl_seccomp == b.enosys
        || (k.prctl_seccomp == b.eperm || k.prctl_seccomp == b.einval)
    then (negsuc 0, filters)
    else (negsuc 1, filters)

unfoldable pub hand_over : Build → Kernel → Program → List Program → ℤ × List Program
hand_over b k f filters =
    if ltb 64 (length f)
    then (negsuc 1, filters)
    else if refused_privs b k
    then (negsuc 0, filters)
    else if accepted k.sys_seccomp
    then (pos 0, f ∷ filters)
    else prctl_filter b k f filters

-- On a target that is not in seccomp_audit_arch.h nothing is installed.
unfoldable pub capf_install_on :
    Option ℕ → Build → Kernel → Actions → Bool → List Program → ℤ × List Program
capf_install_on none b k acts fsw_ok filters = (negsuc 0, filters)
capf_install_on (some arch) b k acts fsw_ok filters =
    hand_over b k (capf_filter b arch acts fsw_ok) filters

unfoldable pub capf_install : Build → Kernel → Actions → Bool → List Program → ℤ × List Program
capf_install b k = capf_install_on b.audit_arch b k

unfoldable pub sand_install_on :
    Option ℕ → Build → Kernel → Actions → List Program → ℤ × List Program
sand_install_on none b k acts filters = (negsuc 0, filters)
sand_install_on (some arch) b k acts filters =
    if refused_privs b k
    then (negsuc 0, filters)
    else prctl_filter b k (sand_filter b arch acts) filters

unfoldable pub sand_install_seccomp : Build → Kernel → Actions → List Program → ℤ × List Program
sand_install_seccomp b k = sand_install_on b.audit_arch b k

unfoldable pub oodar_cap_init : CapFilter → CapFilter
oodar_cap_init s = record s { mask = 0; tok = replicate 32 0; on = false }

unfoldable pub oodar_cap_drop : CapFilter → CapFilter
oodar_cap_drop s = record s { mask = 0; tok = replicate 32 0; on = false }

unfoldable pub oodar_cap_is_sandboxed : CapFilter → Bool
oodar_cap_is_sandboxed s = s.on

-- The actions for a mask of capabilities.
unfoldable pub cap_actions : Build → ℕ → Actions
cap_actions b mask = record {
  net_act = if overlaps mask cap_net then seccomp_ret_allow else seccomp_ret_kill_process;
  proc_act =
      if overlaps mask cap_process_or_sys then seccomp_ret_allow else seccomp_ret_kill_process;
  clone3_act =
      if overlaps mask cap_process_or_sys
      then seccomp_ret_allow
      else bit_or seccomp_ret_errno b.enosys;
}

unfoldable pub fsw_granted : ℕ → Bool
fsw_granted mask = overlaps mask cap_fswrite_or_fs

-- The four bytes of the mask, on a little-endian machine.
unfoldable pub mask_bytes : ℕ → List ℕ
mask_bytes m = (m % 256) ∷ (m / 256 % 256) ∷ (m / 65536 % 256) ∷ (m / 16777216 % 256) ∷ []

-- The result of the installation goes into the flags.
unfoldable pub note_result : CapFilter → ℤ × List Program → ℤ × CapFilter
note_result s (pos zero, filters) =
    (pos 0, record s { on = true; avail = some true; filters = filters })
note_result s (negsuc zero, filters) =
    (negsuc 0, record s { avail = some false; filters = filters })
note_result s (rc, filters) = (rc, record s { filters = filters })

unfoldable pub oodar_cap_apply_seccomp_filter : Build → Kernel → ℕ → CapFilter → ℤ × CapFilter
oodar_cap_apply_seccomp_filter b k allowed_caps_mask s =
    if s.on
    then (pos 0, s)
    else (let s' = record s {
      mask = allowed_caps_mask;
      tok = mask_bytes allowed_caps_mask ++ drop 4 s.tok;
    } in
        note_result s' (
          capf_install b k (cap_actions b allowed_caps_mask) (fsw_granted allowed_caps_mask)
            s.filters))

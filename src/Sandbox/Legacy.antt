-- ===== src/Sandbox/Legacy.antt =====
-- `oo_sandbox_apply` of sec/landlock/sandbox/sandbox_config.c: the older way in, by the notes that the
-- grants of the token store made.
use oodar.Base.{
  ℕ, zero, if◌then◌else◌, true, false, List, some, ℤ, pos, negsuc, Run, returns, ◌>>=◌,
}
use Prim.Native.Nat.{bit_or}
use oodar.Cap.Tokens.{CapState, sys}
use oodar.Cap.Gates.{oo_cap_require_kind}
use oodar.Seccomp.{Actions, Build, seccomp_ret_allow, seccomp_ret_errno}
use oodar.Seccomp.Install.{Program, sand_install_seccomp}
use oodar.Sandbox.Apply.{Host, System, seccomp}

unfoldable pub note_actions : Build → CapState → Actions
note_actions b caps = record {
  net_act = if caps.sand_net then seccomp_ret_allow else bit_or seccomp_ret_errno b.eperm;
  proc_act = if caps.sand_proc then seccomp_ret_allow else bit_or seccomp_ret_errno b.eperm;
  clone3_act = if caps.sand_proc then seccomp_ret_allow else bit_or seccomp_ret_errno b.enosys;
}

-- The result of `sand_install_seccomp` goes into the flags; any failure is -1.
unfoldable pub legacy_result : Host → ℤ × List Program → ℤ × Host
legacy_result h (pos zero, filters) = (
  pos 0,
  record h {
    locked = true;
    avail = some true;
    status = record h.status { is_enforced = true; backend = seccomp };
    capf = record h.capf { filters = filters };
  },
)
legacy_result h (rc, filters) = (negsuc 0, record h { avail = some false })

-- On a target without `PR_SET_SECCOMP` nothing is installed.
unfoldable pub legacy_in : System → CapState → Host → ℤ × Host
legacy_in y caps h =
    if h.locked
    then (pos 0, h)
    else if y.has_pr_set_seccomp
    then legacy_result h
        (sand_install_seccomp y.build y.seccomp_kernel (note_actions y.build caps) h.capf.filters)
    else (negsuc 0, record h { avail = some false })

unfoldable pub oo_sandbox_apply : System → CapState → ℕ → Host → Run (ℤ × Host)
oo_sandbox_apply y caps cap h = do
  _ ← oo_cap_require_kind sys caps cap
  returns (legacy_in y caps h)

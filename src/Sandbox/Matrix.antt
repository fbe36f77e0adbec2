-- ===== src/Sandbox/Matrix.antt =====
-- The public calls of sec/landlock/sandbox/sandbox.c, and those of sandbox_c.c that stand before them.
-- The mutex is held from the probe to the last write, so a call is one step.
pub mod Landed
pub mod Laws
pub mod Status
use oodar.Base.{
  ℕ, ◌+◌, ◌-◌, ◌^◌, ◌%◌, ltb, ◌==◌, if◌then◌else◌, Bool, true, false, not, ◌||◌, List, [], Option,
  none, some, ℤ, pos, negsuc, above, is_negative, Run, returns, ◌>>=◌,
}
use oodar.Cap.Tokens.{CapState, sys}
use oodar.Cap.Gates.{oo_cap_require_kind}
use oodar.Seccomp.Machine.{overlaps}
use oodar.Sandbox.Text.{OoResS, codes, failed, succeeded}
use oodar.Sandbox.Paths.{sand_validate_paths}
use oodar.Sandbox.Landlock.{is_code}
use oodar.Sandbox.Limits.{Limits, oo_rlimit_set_mem_mb, oo_rlimit_set_cpu_sec, oo_rlimit_set_nofile}
use oodar.Sandbox.Apply.{
  Backend, linux_landlock_seccomp, OoSandboxConfig, OoSandboxStatus, Host, System, Answer,
  oo_sandbox_probe_backend, sand_apply_linux_landlock_seccomp, sand_store_dirs, confines_files,
}

-- `OODAR_CAP_NET | OODAR_CAP_TCP | OODAR_CAP_UDP | OODAR_CAP_BIND`
abbrev pub net_caps : ℕ
net_caps = 1 + 2 ^ 17 + 2 ^ 18 + 2 ^ 19

-- `OODAR_CAP_PROCESS | OODAR_CAP_SYS`
abbrev pub process_caps : ℕ
process_caps = 18

unfoldable pub status_of : OoSandboxConfig → Backend → ℕ → ℕ → OoSandboxStatus
status_of c backend nread nwrite = record {
  is_enforced = true;
  backend = backend;
  active_caps_mask = c.allowed_caps_mask;
  fs_restricted = confines_files c.read_dirs_colon c.write_dirs_colon nread nwrite;
  net_restricted = not (overlaps c.allowed_caps_mask net_caps);
  proc_restricted = not (overlaps c.allowed_caps_mask process_caps);
  quotas_enforced = above 0 c.max_mem_mb || (above 0 c.max_cpu_sec || above 0 c.max_nofile);
}

unfoldable pub sand_update_status_from_config : OoSandboxConfig → Backend → ℕ → ℕ → Host → Host
sand_update_status_from_config c backend nread nwrite h = record h {
  status = status_of c backend nread nwrite;
}

unfoldable pub is_linux : Backend → Bool
is_linux linux_landlock_seccomp = true
is_linux b = false

abbrev pub refuse : List ℕ → Host → Answer
refuse msg h = returns (failed msg, h)

module _ (y : System) (caps : CapState) (cap : ℕ) where
  -- From the answer of the platform on.
  unfoldable pub finish : OoSandboxConfig → Backend → ℕ → ℕ → OoResS × Host → Answer
  finish c backend nread nwrite r =
      let h = sand_update_status_from_config c backend nread nwrite (sand_store_dirs c r.1) in
      if not r.0.ok then returns r else returns (r.0, record h { locked = true })

  -- Behind the mutex.
  unfoldable pub apply_backend : OoSandboxConfig → ℕ → ℕ → Host → Answer
  apply_backend c nread nwrite h =
      let backend = oo_sandbox_probe_backend y in
      if is_linux backend
      then (sand_apply_linux_landlock_seccomp y caps cap c nread nwrite h
          >>= finish c backend nread nwrite)
      else refuse (codes "ERR\tsandbox\tkernel primitive unavailable, fail closed") h

  unfoldable pub apply_checked : OoSandboxConfig → ℤ → ℤ → ℕ → ℕ → Host → Answer
  apply_checked c pr pw nread nwrite h =
      if is_code 2 pr || is_code 2 pw
      then refuse (codes "ERR\tsandbox\tpath not absolute") h
      else if is_code 1 pr || is_code 1 pw
      then refuse (codes "ERR\tsandbox\tpath too long") h
      else if is_code 0 pr || is_code 0 pw
      then refuse (codes "ERR\tsandbox\tembedded NUL in path") h
      else if ltb 64 (nread + nwrite)
      then refuse (codes "ERR\tsandbox\ttoo many paths") h
      else apply_backend c nread nwrite h

  unfoldable pub apply_config : Option OoSandboxConfig → Host → Answer
  apply_config none h = refuse (codes "ERR\tsandbox\tnull configuration") h
  apply_config (some c) h =
      let r = sand_validate_paths c.read_dirs_colon in
      let w = sand_validate_paths c.write_dirs_colon in apply_checked c r.0 w.0 r.1 w.1 h

  -- `none` is a null pointer.
  unfoldable pub oo_sandbox_apply_matrix : Option OoSandboxConfig → Host → Answer
  oo_sandbox_apply_matrix c h = do _ ← oo_cap_require_kind sys caps cap; apply_config c h

  abbrev pub only_mask : ℕ → OoSandboxConfig
  only_mask mask = record {
    allowed_caps_mask = mask;
    read_dirs_colon = [];
    write_dirs_colon = [];
    max_mem_mb = pos 0;
    max_cpu_sec = pos 0;
    max_nofile = pos 0;
    fail_closed_on_kernel_miss = false;
  }

  unfoldable pub oo_sandbox_restrict_caps : ℕ → Host → Answer
  oo_sandbox_restrict_caps mask h = do
    _ ← oo_cap_require_kind sys caps cap
    oo_sandbox_apply_matrix (some (only_mask mask)) h

  -- `if (max > 0) { r = oo_rlimit_set_...; if (!r.ok) return r; }`, and what comes next.
  unfoldable pub or_return : Bool → Run (OoResS × Limits) → Host → (Host → Answer) → Answer
  or_return asked call h next =
      if asked
      then (call >>= λ r.
          if not r.0.ok
          then returns (r.0, record h { limits = r.1 })
          else next (record h { limits = r.1 }))
      else next h

  unfoldable pub quotas_noted : Host → Answer
  quotas_noted h =
      returns
        (succeeded (codes "OK"), record h { status = record h.status { quotas_enforced = true } })

  unfoldable pub oo_sandbox_set_quotas : ℤ → ℤ → ℤ → Host → Answer
  oo_sandbox_set_quotas mem_mb cpu_sec max_fds h = do
    _ ← oo_cap_require_kind sys caps cap
    if is_negative mem_mb || (is_negative cpu_sec || is_negative max_fds)
        then refuse (codes "ERR\tsandbox\tnegative quota parameter") h
        else (or_return (above 0 mem_mb)
            (oo_rlimit_set_mem_mb y.limit_kernel caps cap mem_mb h.limits) h
            λ h₁.
              or_return (above 0 cpu_sec)
                (oo_rlimit_set_cpu_sec y.limit_kernel caps cap cpu_sec h₁.limits) h₁
                λ h₂.
                  or_return (above 0 max_fds)
                    (oo_rlimit_set_nofile y.limit_kernel caps cap max_fds h₂.limits) h₂
                    quotas_noted)

  -- 0 for a success and -1 for a failure.
  abbrev pub as_int : OoResS × Host → Run (ℤ × Host)
  as_int r = returns (if r.0.ok then pos 0 else negsuc 0, r.1)

  -- The directory is `none` for a null pointer.
  unfoldable pub oo_sandbox_c_apply_matrix : Option (List ℕ) → ℕ → Host → Run (ℤ × Host)
  oo_sandbox_c_apply_matrix writedir cap_mask h = do
    _ ← oo_cap_require_kind sys caps cap
    oo_sandbox_apply_matrix
          (some (record (only_mask (cap_mask % 2 ^ 32)) {
            write_dirs_colon = elim writedir [ none ↦ [] | some d ↦ d ];
          }))
          h
        >>= as_int

  unfoldable pub oo_sandbox_c_restrict_caps : ℕ → Host → Run (ℤ × Host)
  oo_sandbox_c_restrict_caps cap_mask h = do
    _ ← oo_cap_require_kind sys caps cap
    oo_sandbox_restrict_caps (cap_mask % 2 ^ 32) h >>= as_int

  -- `(long long)` of a `uint64_t`.
  abbrev pub as_signed : ℕ → ℤ
  as_signed n = if ltb n (2 ^ 63) then pos n else negsuc (2 ^ 64 - 1 - n)

  unfoldable pub oo_sandbox_c_set_quotas : ℕ → ℕ → ℕ → Host → Run (ℤ × Host)
  oo_sandbox_c_set_quotas mem_mb cpu_sec max_fds h = do
    _ ← oo_cap_require_kind sys caps cap
    oo_sandbox_set_quotas (as_signed mem_mb) (as_signed cpu_sec) (as_signed max_fds) h >>= as_int

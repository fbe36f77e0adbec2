-- ===== src/Sandbox/Apply.antt =====
-- sec/landlock/sandbox/sandbox.c and sandbox_config.c on Linux: the state behind the mutex of the
-- sandbox, and what one application does to the process. The notes of `oo_sandbox_note_net` and
-- `oo_sandbox_note_proc` stand in the token store, whose grants make them.
use oodar.Base.{
  ℕ, ltb, ◌==◌, if◌then◌else◌, Bool, true, false, not, ◌||◌, ◌&&◌, List, Option, length, take, ℤ,
  above, is_negative, Run, returns, ◌>>=◌,
}
use oodar.Cap.Tokens.{CapState}
use oodar.Str.Text.{bytes_equal}
use oodar.Seccomp.{Build}
use oodar.Seccomp.Install.{
  Kernel, CapFilter, oodar_cap_apply_seccomp_filter, oodar_cap_is_sandboxed,
}
use oodar.Sandbox.Text.{OoResS, codes, failed, succeeded}
use oodar.Sandbox.Landlock.{
  LandlockKernel, Landlock, oo_landlock_restrict, oo_landlock_is_available, update_bypass,
}
use oodar.Sandbox.Limits.{
  LimitKernel, Limits, oo_rlimit_set_mem_mb, oo_rlimit_set_cpu_sec, oo_rlimit_set_nofile,
}

pub data Backend : Type 0 where
  no_backend linux_landlock_seccomp darwin_seatbelt openbsd_pledge_unveil : Backend
  freebsd_capsicum windows_appcontainer_job virtualized_fallback seccomp : Backend

pub record OoSandboxConfig : Type 0 where
  pub allowed_caps_mask : ℕ
  pub read_dirs_colon : List ℕ
  pub write_dirs_colon : List ℕ
  pub max_mem_mb : ℤ
  pub max_cpu_sec : ℤ
  pub max_nofile : ℤ
  pub fail_closed_on_kernel_miss : Bool

pub record OoSandboxStatus : Type 0 where
  pub is_enforced : Bool
  pub backend : Backend
  pub active_caps_mask : ℕ
  pub fs_restricted : Bool
  pub net_restricted : Bool
  pub proc_restricted : Bool
  pub quotas_enforced : Bool

-- The state of the sandbox; the two directory caches up to their NUL. The filters of the process, those
-- of the older path too, are in `capf`.
pub record Host : Type 0 where
  pub locked : Bool
  pub avail : Option Bool
  pub status : OoSandboxStatus
  pub read_dirs : List ℕ
  pub write_dirs : List ℕ
  pub capf : CapFilter
  pub landlock : Landlock
  pub limits : Limits

-- The target, and what the kernel answers. `has_pr_set_seccomp` says whether the macro is defined.
pub record System : Type 0 where
  pub build : Build
  pub has_pr_set_seccomp : Bool
  pub seccomp_kernel : Kernel
  pub landlock_kernel : LandlockKernel
  pub limit_kernel : LimitKernel

unfoldable pub oo_sandbox_note_net : CapState → CapState
oo_sandbox_note_net caps = record caps { sand_net = true }

unfoldable pub oo_sandbox_note_proc : CapState → CapState
oo_sandbox_note_proc caps = record caps { sand_proc = true }

unfoldable pub oo_sandbox_probe_backend : System → Backend
oo_sandbox_probe_backend y =
    if oo_landlock_is_available y.landlock_kernel
    then linux_landlock_seccomp
    else if y.has_pr_set_seccomp
    then seccomp
    else virtualized_fallback

unfoldable pub oo_sandbox_backend_name : Backend → List ℕ
oo_sandbox_backend_name no_backend = codes "none"
oo_sandbox_backend_name linux_landlock_seccomp = codes "linux_landlock_seccomp"
oo_sandbox_backend_name darwin_seatbelt = codes "darwin_seatbelt"
oo_sandbox_backend_name openbsd_pledge_unveil = codes "openbsd_pledge_unveil"
oo_sandbox_backend_name freebsd_capsicum = codes "freebsd_capsicum"
oo_sandbox_backend_name windows_appcontainer_job = codes "windows_appcontainer_job"
oo_sandbox_backend_name virtualized_fallback = codes "virtualized_fallback"
oo_sandbox_backend_name seccomp = codes "unknown"

unfoldable pub confines : Backend → Bool
confines no_backend = false
confines virtualized_fallback = false
confines b = true

unfoldable pub oo_sandbox_is_available : System → Bool
oo_sandbox_is_available y = confines (oo_sandbox_probe_backend y)

unfoldable pub oo_sandbox_status : Host → OoSandboxStatus
oo_sandbox_status h = h.status

-- The condition on the lists that `sand_apply_linux_landlock_seccomp` and
-- `sand_update_status_from_config` share.
unfoldable pub confines_files : List ℕ → List ℕ → ℕ → ℕ → Bool
confines_files read_dirs write_dirs nread nwrite =
    ltb 0 (length read_dirs) || (ltb 0 (length write_dirs) || (nread == 0 && nwrite == 0))

unfoldable pub is_bypass : OoResS → Bool
is_bypass r = length r.val == 24 && bytes_equal (take 24 r.val) (take 24 update_bypass)

abbrev pub Answer : Type 0
Answer = Run (OoResS × Host)

abbrev pub enforced_text : OoResS
enforced_text = succeeded (codes "OK_LINUX_LANDLOCK_SECCOMP_ENFORCED")

module _ (y : System) (caps : CapState) (cap : ℕ) where
  -- `if (max > 0) oo_rlimit_set_...;` with the result left aside.
  unfoldable pub limit_mem : ℤ → Limits → Run Limits
  limit_mem max l =
      if above 0 max
      then (oo_rlimit_set_mem_mb y.limit_kernel caps cap max l >>= λ r. returns r.1)
      else returns l

  unfoldable pub limit_cpu : ℤ → Limits → Run Limits
  limit_cpu max l =
      if above 0 max
      then (oo_rlimit_set_cpu_sec y.limit_kernel caps cap max l >>= λ r. returns r.1)
      else returns l

  unfoldable pub limit_nofile : ℤ → Limits → Run Limits
  limit_nofile max l =
      if above 0 max
      then (oo_rlimit_set_nofile y.limit_kernel caps cap max l >>= λ r. returns r.1)
      else returns l

  unfoldable pub apply_limits : OoSandboxConfig → Host → Answer
  apply_limits c h = do
    l₁ ← limit_mem c.max_mem_mb h.limits
    l₂ ← limit_cpu c.max_cpu_sec l₁
    l₃ ← limit_nofile c.max_nofile l₂
    returns (enforced_text, record h { limits = l₃ })

  -- From the seccomp filter on.
  unfoldable pub apply_filter : OoSandboxConfig → Host → Answer
  apply_filter c h =
      let r = oodar_cap_apply_seccomp_filter y.build y.seccomp_kernel c.allowed_caps_mask h.capf in
      let h' = record h { capf = r.1 } in
      if is_negative r.0
      then returns (failed (codes "ERR\tseccomp\tfilter application failed"), h')
      else if not (oodar_cap_is_sandboxed r.1)
      then returns (failed (codes "ERR\tseccomp\tfilter not enforced"), h')
      else apply_limits c h'

  unfoldable pub after_landlock : OoSandboxConfig → Host → OoResS × Landlock → Answer
  after_landlock c h r =
      let h' = record h { landlock = r.1 } in
      if not r.0.ok
      then returns (r.0, h')
      else if is_bypass r.0
      then returns (enforced_text, h')
      else apply_filter c h'

  unfoldable pub sand_apply_linux_landlock_seccomp : OoSandboxConfig → ℕ → ℕ → Host → Answer
  sand_apply_linux_landlock_seccomp c nread nwrite h =
      if confines_files c.read_dirs_colon c.write_dirs_colon nread nwrite
      then (oo_landlock_restrict y.landlock_kernel caps cap c.read_dirs_colon c.write_dirs_colon
            h.landlock
          >>= after_landlock c h)
      else apply_filter c h

-- A cache of 4096 bytes is written if the list is not empty, cut to 4095.
unfoldable pub cached : List ℕ → List ℕ → List ℕ
cached dirs old = if ltb 0 (length dirs) then take 4095 dirs else old

unfoldable pub sand_store_dirs : OoSandboxConfig → Host → Host
sand_store_dirs c h = record h {
  read_dirs = cached c.read_dirs_colon h.read_dirs;
  write_dirs = cached c.write_dirs_colon h.write_dirs;
}

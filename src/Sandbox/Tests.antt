-- ===== src/Sandbox/Tests.antt =====
-- Runs of the sandbox, and its theorems at concrete configurations.
use oodar.Base.{
  ℕ, ◌≡◌, ◌≢◌, ◌↔◌, ◌*◌, ◌-◌, ◌%◌, ◌^◌, refl, true, false, List, [], none, some, pos, negsuc,
  returns,
}
use oodar.Cap.Tokens.{sys}
use oodar.Cap.Sample.{counted, counted_opens}
use oodar.Seccomp.Policy.{policy}
use oodar.Seccomp.{
  seccomp_ret_kill_process, capf_filter, assert_arch, gates, gate, gate_clone, gate_open, fsw_gates,
}
use oodar.Str.Text.{bytes_equal}
use oodar.Seccomp.Install.{
  CapFilter, oodar_cap_is_sandboxed, oodar_cap_apply_seccomp_filter, cap_actions, fsw_granted,
  capf_install, capf_install_on, hand_over, refused_privs, prctl_filter, note_result,
}
use oodar.Seccomp.Sample.{x86_64, call, willing, at_start}
use oodar.Sandbox.Text.{OoResS, codes}
use oodar.Sandbox.Paths.{sand_validate_paths, sand_walk, sand_part}
use oodar.Sandbox.Paths.Laws.{parts}
use oodar.Sandbox.Paths.Valid.{AllGood, listed, sand_validate_paths_lem}
use oodar.Sandbox.Access.{ll_handled_fs}
use oodar.Sandbox.Landlock.{
  directory, device, regular, LandlockKernel, Landlock, restrict_in, ll_is_update_cmd, update_from,
  names_update, second_argument, c_string, oo_landlock_is_available, ll_abi_version,
  oo_landlock_restrict,
}
use oodar.Sandbox.Landlock.Rights.{Includes, executes_and_reads, read_rule, read_rule_lem}
use oodar.Sandbox.Limits.{
  address_space, nofile, cpu, Limits, LimitKernel, set_mem_in, set_nofile_in, set_cpu_in,
}
use oodar.Sandbox.Limits.Laws.{Limited, limits-Limited}
use oodar.Sandbox.Apply.{
  OoSandboxConfig, Host, System, no_backend, linux_landlock_seccomp, enforced_text, sand_store_dirs,
  oo_sandbox_probe_backend, sand_apply_linux_landlock_seccomp, confines_files, after_landlock,
  is_bypass, apply_filter, apply_limits, limit_mem, limit_cpu, limit_nofile,
}
use oodar.Sandbox.Matrix.{
  oo_sandbox_apply_matrix, status_of, sand_update_status_from_config, apply_config, apply_checked,
  apply_backend, is_linux, finish,
}
use oodar.Sandbox.Matrix.Laws.{Outcome, apply_matrix-Outcome}
use oodar.Sandbox.Matrix.Status.{update_unconfined, applied_again, sockets_killed}

-- An empty part between two colons is passed over.
abbrev two_dirs : List ℕ
two_dirs = codes "/usr::/tmp"

two_counted : sand_validate_paths two_dirs ≡ (pos 0, 2)
unfolding sand_validate_paths sand_walk sand_part
two_counted = refl

refused_paths :
    (sand_validate_paths (codes "/usr:tmp") ≡ (negsuc 2, 1))
    × (sand_validate_paths (codes "/usr\0") ≡ (negsuc 0, 0))
unfolding sand_validate_paths sand_walk sand_part
refused_paths = (refl, refl)

sand_validate_paths_lem_example :
    ((sand_validate_paths two_dirs).0 ≡ pos 0 ↔ AllGood (parts two_dirs))
    × (AllGood (parts two_dirs) → sand_validate_paths two_dirs ≡ (pos 0, listed (parts two_dirs)))
sand_validate_paths_lem_example = sand_validate_paths_lem two_dirs

abbrev kernel_for : List ℕ → LandlockKernel
kernel_for cmdline = record {
  version = pos 4;
  cmdline = some cmdline;
  creates = true;
  open_path = λ path. some directory;
  adds = λ path access. true;
  no_new_privs = true;
  restricts = true;
}

abbrev unconfined : Landlock
unconfined = record { rulesets = []; applied = false; no_new_privs = false }

read_rule_lem_example :
    Includes (ll_handled_fs 4) (read_rule regular 4)
    × (regular ≢ device → Includes executes_and_reads (read_rule regular 4))
read_rule_lem_example = read_rule_lem regular 4

abbrev unlimited : Limits
unlimited r = record { rlim_cur = 2 ^ 64 - 1; rlim_max = 2 ^ 64 - 1 }

abbrev all_limits : LimitKernel
all_limits = record { gets = λ r. true; sets = λ r l. true }

limits-Limited_example :
    Limited all_limits address_space
      (pos 512)
      (512 * 1048576 % 2 ^ 64)
      unlimited
      (set_mem_in all_limits (pos 512) unlimited)
    × Limited all_limits nofile
        (pos 512)
        512
        unlimited
        (set_nofile_in all_limits (pos 512) unlimited)
    × Limited all_limits cpu (pos 512) 512 unlimited (set_cpu_in all_limits (pos 512) unlimited)
limits-Limited_example = limits-Limited all_limits (pos 512) unlimited

abbrev system_for : List ℕ → System
system_for cmdline = record {
  build = x86_64;
  has_pr_set_seccomp = true;
  seccomp_kernel = willing;
  landlock_kernel = kernel_for cmdline;
  limit_kernel = all_limits;
}

abbrev config : ℕ → OoSandboxConfig
config mask = record {
  allowed_caps_mask = mask;
  read_dirs_colon = two_dirs;
  write_dirs_colon = [];
  max_mem_mb = pos 0;
  max_cpu_sec = pos 0;
  max_nofile = pos 0;
  fail_closed_on_kernel_miss = true;
}

abbrev host : Host
host = record {
  locked = false;
  avail = none;
  status = record {
    is_enforced = false;
    backend = no_backend;
    active_caps_mask = 0;
    fs_restricted = false;
    net_restricted = false;
    proc_restricted = false;
    quotas_enforced = false;
  };
  read_dirs = [];
  write_dirs = [];
  capf = at_start;
  landlock = unconfined;
  limits = unlimited;
}

apply_matrix-Outcome_example :
    (r : OoResS × Host) × (oo_sandbox_apply_matrix
        (system_for (codes "ooda\0run"))
        counted
        (counted.token sys)
        (some (config 8))
        host
      ≡ returns r)
    × Outcome (system_for (codes "ooda\0run")) (some (config 8)) host r
apply_matrix-Outcome_example =
    apply_matrix-Outcome (system_for (codes "ooda\0run")) counted (counted.token sys)
      (counted_opens sys) (some (config 8)) host

-- `ooda update`
abbrev update_line : List ℕ
update_line = codes "ooda\0update\0"

abbrev applied_8 : CapFilter
applied_8 = (oodar_cap_apply_seccomp_filter x86_64 willing 8 at_start).1

abbrev updated : Host
updated =
    let h : Host = record host { capf = applied_8 } in
    record (sand_update_status_from_config (config 8) linux_landlock_seccomp 2 0
      (sand_store_dirs (config 8) h)) { locked = true }

names_the_update : ll_is_update_cmd (kernel_for update_line) ≡ true
unfolding ll_is_update_cmd update_from names_update second_argument c_string bytes_equal
names_the_update = refl

update_applied :
    oo_sandbox_apply_matrix
      (system_for update_line)
      counted
      (counted.token sys)
      (some (config 8))
      host
    ≡ returns (enforced_text, updated)
unfolding oo_sandbox_apply_matrix apply_config apply_checked apply_backend is_linux finish
    oo_sandbox_probe_backend oo_landlock_is_available ll_abi_version sand_validate_paths sand_walk
    sand_part sand_apply_linux_landlock_seccomp confines_files oo_landlock_restrict restrict_in
    ll_is_update_cmd update_from names_update second_argument c_string bytes_equal after_landlock
    is_bypass apply_filter apply_limits limit_mem limit_cpu limit_nofile oodar_cap_is_sandboxed
    oodar_cap_apply_seccomp_filter capf_install capf_install_on hand_over refused_privs prctl_filter
    note_result capf_filter assert_arch gates gate gate_clone gate_open fsw_gates fsw_granted
update_applied = rw (counted_opens sys) refl

update_unconfined_example :
    (updated.landlock ≡ unconfined)
    × (oodar_cap_is_sandboxed updated.capf ≡ true)
    × (updated.status.fs_restricted ≡ true)
update_unconfined_example =
    update_unconfined (system_for update_line) counted (counted.token sys) (counted_opens sys)
      (config 8) host (enforced_text, updated) names_the_update update_applied refl

is_on : oodar_cap_is_sandboxed updated.capf ≡ true
is_on = update_unconfined_example.1

-- The same process asks once more, for no capability at all.
abbrev asked_again : Host
asked_again =
    record (sand_update_status_from_config (config 0) linux_landlock_seccomp 2 0
      (sand_store_dirs (config 0) updated)) { locked = true }

again_applied :
    oo_sandbox_apply_matrix
      (system_for update_line)
      counted
      (counted.token sys)
      (some (config 0))
      updated
    ≡ returns (enforced_text, asked_again)
unfolding oo_sandbox_apply_matrix apply_config apply_checked apply_backend is_linux finish
    oo_sandbox_probe_backend oo_landlock_is_available ll_abi_version sand_validate_paths sand_walk
    sand_part sand_apply_linux_landlock_seccomp confines_files oo_landlock_restrict restrict_in
    ll_is_update_cmd update_from names_update second_argument c_string bytes_equal after_landlock
    is_bypass apply_filter apply_limits limit_mem limit_cpu limit_nofile oodar_cap_is_sandboxed
    oodar_cap_apply_seccomp_filter capf_install capf_install_on hand_over refused_privs prctl_filter
    note_result capf_filter assert_arch gates gate gate_clone gate_open fsw_gates fsw_granted
    sand_update_status_from_config sand_store_dirs
again_applied = rw (counted_opens sys) refl

applied_again_example :
    (asked_again.capf ≡ updated.capf) × (asked_again.status.active_caps_mask ≡ 0)
applied_again_example =
    applied_again (system_for update_line) counted (counted.token sys) (counted_opens sys)
      (config 0) updated (enforced_text, asked_again) is_on again_applied refl

sockets_killed_test :
    ((status_of (config 0x20000) linux_landlock_seccomp 2 0).net_restricted ≡ false)
    × (policy x86_64 0xc000003e (cap_actions x86_64 0x20000) (fsw_granted 0x20000) (call 41 0 0)
        ≡ seccomp_ret_kill_process)
sockets_killed_test =
    sockets_killed x86_64 0xc000003e (config 0x20000) linux_landlock_seccomp 2 0 (call 41 0 0) refl
      refl refl

-- ===== src/Seccomp/Sample.antt =====
-- A target with the numbers of x86-64, a kernel that accepts every filter, and the state at the start.
use oodar.Base.{ℕ, [], none, some, false, if◌then◌else◌, ◌==◌, replicate}
use oodar.Seccomp.{Build}
use oodar.Seccomp.Machine.{SeccompData}
use oodar.Seccomp.Install.{Kernel, CapFilter}

abbrev pub x86_64 : Build
x86_64 = record {
  audit_arch = some 0xc000003e;
  sys_socket = some 41;
  sys_connect = some 42;
  sys_bind = some 49;
  sys_fork = some 57;
  sys_vfork = some 58;
  sys_execve = some 59;
  sys_execveat = some 322;
  sys_clone3 = some 435;
  sys_clone = some 56;
  sys_openat = some 257;
  sys_open = some 2;
  open_write_bits = 0x643;
  eperm = 1;
  enosys = 38;
  einval = 22;
}

abbrev pub call : ℕ → ℕ → ℕ → SeccompData
call n first third = record {
  nr = n;
  arch = 0xc000003e;
  args = λ i. if i == 0 then first else if i == 2 then third else 0;
}

abbrev pub willing : Kernel
willing = record { no_new_privs = 0; sys_seccomp = some 0; prctl_seccomp = 0 }

abbrev pub at_start : CapFilter
at_start = record { mask = 0; tok = replicate 32 0; on = false; avail = none; filters = [] }

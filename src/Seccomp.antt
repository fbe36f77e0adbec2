-- ===== src/Seccomp.antt =====
-- The seccomp filters of sec/cap/cap.c and sec/landlock/sandbox/sandbox_config.c: the programs that
-- the two builders write, instruction by instruction. Numbers that the system's headers give
-- (`__NR_*`, `OO_AUDIT_ARCH`, the `O_*` flags, errno values) are fields of `Build`; `none` is a
-- macro that the target does not define.
pub mod Machine
pub mod Policy
pub mod Install
pub mod Sample
mod Tests
use oodar.Base.{ℕ, suc, ◌+◌, Bool, List, [], ◌∷◌, ◌++◌, Option, none, some, if◌then◌else◌}

-- What `BPF_ABS` loads: a 32-bit word of `struct seccomp_data`. Of an argument it is the lower word.
pub data Field : Type 0 where
  nr_word arch_word : Field
  arg_word : ℕ → Field

-- `BPF_STMT` and `BPF_JUMP` as the builders use them.
pub data SockFilter : Type 0 where
  ld : Field → SockFilter
  jeq jset : ℕ → ℕ → ℕ → SockFilter
  ret : ℕ → SockFilter

pub record Build : Type 0 where
  pub audit_arch : Option ℕ
  pub sys_socket : Option ℕ
  pub sys_connect : Option ℕ
  pub sys_bind : Option ℕ
  pub sys_fork : Option ℕ
  pub sys_vfork : Option ℕ
  pub sys_execve : Option ℕ
  pub sys_execveat : Option ℕ
  pub sys_clone3 : Option ℕ
  pub sys_clone : Option ℕ
  pub sys_openat : Option ℕ
  pub sys_open : Option ℕ
  pub open_write_bits : ℕ
  pub eperm : ℕ
  pub enosys : ℕ
  pub einval : ℕ

abbrev pub seccomp_ret_allow : ℕ
seccomp_ret_allow = 0x7fff0000

abbrev pub seccomp_ret_errno : ℕ
seccomp_ret_errno = 0x00050000

abbrev pub seccomp_ret_kill_process : ℕ
seccomp_ret_kill_process = 0x80000000

abbrev pub clone_thread : ℕ
clone_thread = 0x00010000

-- One `#ifdef __NR_x` block that returns an action for a call.
unfoldable pub gate : Option ℕ → ℕ → List SockFilter
gate none act = []
gate (some n) act = jeq n 0 1 ∷ ret act ∷ []

-- The block of `__NR_clone`: a thread is let through.
unfoldable pub gate_clone : Option ℕ → ℕ → List SockFilter
gate_clone none act = []
gate_clone (some n) act =
    jeq n 0 4 ∷ ld (arg_word 0) ∷ jset clone_thread 0 1 ∷ ret seccomp_ret_allow ∷ ret act ∷ []

-- The blocks of `__NR_openat` and `__NR_open`: a call with a write flag in argument `i` is killed.
unfoldable pub gate_open : Option ℕ → ℕ → ℕ → List SockFilter
gate_open none i bits = []
gate_open (some n) i bits =
    jeq n 0 4
    ∷ ld (arg_word i)
    ∷ jset bits 0 1
    ∷ ret seccomp_ret_kill_process
    ∷ ret seccomp_ret_allow
    ∷ []

-- `net_act`, `proc_act` and `clone3_act`.
pub record Actions : Type 0 where
  pub net_act : ℕ
  pub proc_act : ℕ
  pub clone3_act : ℕ

-- The blocks from `__NR_socket` to `__NR_clone`, with the program that follows them.
unfoldable pub gates : Build → Actions → List SockFilter → List SockFilter
gates b a rest =
    gate b.sys_socket a.net_act
    ++ (gate b.sys_connect a.net_act
        ++ (gate b.sys_bind a.net_act
            ++ (gate b.sys_fork a.proc_act
                ++ (gate b.sys_vfork a.proc_act
                    ++ (gate b.sys_execve a.proc_act
                        ++ (gate b.sys_execveat a.proc_act
                            ++ (gate b.sys_clone3 a.clone3_act
                                ++ (gate_clone b.sys_clone a.proc_act ++ rest))))))))

-- The test of the architecture, and the load of the number.
unfoldable pub assert_arch : ℕ → List SockFilter → List SockFilter
assert_arch arch rest =
    ld arch_word ∷ jeq arch 1 0 ∷ ret seccomp_ret_kill_process ∷ ld nr_word ∷ rest

unfoldable pub fsw_gates : Build → Bool → List SockFilter
fsw_gates b fsw_ok =
    if fsw_ok
    then []
    else (gate_open b.sys_openat 2 b.open_write_bits ++ gate_open b.sys_open 1 b.open_write_bits)

-- What `capf_install` writes into `f`.
unfoldable pub capf_filter : Build → ℕ → Actions → Bool → List SockFilter
capf_filter b arch a fsw_ok =
    assert_arch arch (gates b a (fsw_gates b fsw_ok ++ (ret seccomp_ret_allow ∷ [])))

-- The array of `sand_install_seccomp`.
unfoldable pub sand_filter : Build → ℕ → Actions → List SockFilter
sand_filter b arch a = assert_arch arch (gates b a (ret seccomp_ret_allow ∷ []))

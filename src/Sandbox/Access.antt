-- ===== src/Sandbox/Access.antt =====
-- The rights of a Landlock rule: the LL_FS_ macros of sec/landlock/landlock/landlock.c, and the rights
-- that are handled, read and written at each version of the kernel's interface
-- (landlock_restrict.c).
use oodar.Base.{ℕ, ◌^◌, leb, if◌then◌else◌, Bool, List, [], ◌∷◌}
use Prim.Native.Nat.{bit_or}

abbrev pub ll_fs_execute : ℕ
ll_fs_execute = 2 ^ 0

abbrev pub ll_fs_write_file : ℕ
ll_fs_write_file = 2 ^ 1

abbrev pub ll_fs_read_file : ℕ
ll_fs_read_file = 2 ^ 2

abbrev pub ll_fs_read_dir : ℕ
ll_fs_read_dir = 2 ^ 3

abbrev pub ll_fs_remove_dir : ℕ
ll_fs_remove_dir = 2 ^ 4

abbrev pub ll_fs_remove_file : ℕ
ll_fs_remove_file = 2 ^ 5

abbrev pub ll_fs_make_char : ℕ
ll_fs_make_char = 2 ^ 6

abbrev pub ll_fs_make_dir : ℕ
ll_fs_make_dir = 2 ^ 7

abbrev pub ll_fs_make_reg : ℕ
ll_fs_make_reg = 2 ^ 8

abbrev pub ll_fs_make_sock : ℕ
ll_fs_make_sock = 2 ^ 9

abbrev pub ll_fs_make_fifo : ℕ
ll_fs_make_fifo = 2 ^ 10

abbrev pub ll_fs_make_block : ℕ
ll_fs_make_block = 2 ^ 11

abbrev pub ll_fs_make_sym : ℕ
ll_fs_make_sym = 2 ^ 12

abbrev pub ll_fs_refer : ℕ
ll_fs_refer = 2 ^ 13

abbrev pub ll_fs_truncate : ℕ
ll_fs_truncate = 2 ^ 14

abbrev pub ll_fs_ioctl_dev : ℕ
ll_fs_ioctl_dev = 2 ^ 15

-- `a | b | ...`
abbrev pub any_of : List ℕ → ℕ
any_of [] = 0
any_of (a ∷ rest) = bit_or a (any_of rest)

-- `REMOVE_DIR` to `MAKE_SYM`.
abbrev pub removes_and_makes : List ℕ
removes_and_makes =
    ll_fs_remove_dir ∷ ll_fs_remove_file ∷ ll_fs_make_char ∷ ll_fs_make_dir ∷ ll_fs_make_reg
    ∷ ll_fs_make_sock ∷ ll_fs_make_fifo ∷ ll_fs_make_block ∷ ll_fs_make_sym ∷ []

abbrev pub ll_fs_abi1 : ℕ
ll_fs_abi1 =
    any_of (ll_fs_execute ∷ ll_fs_write_file ∷ ll_fs_read_file ∷ ll_fs_read_dir ∷ removes_and_makes)

-- `if (c) a |= b;`
abbrev pub or_if : Bool → ℕ → ℕ → ℕ
or_if c b a = if c then bit_or a b else a

unfoldable pub ll_handled_fs : ℕ → ℕ
ll_handled_fs abi =
    or_if (leb 5 abi) ll_fs_ioctl_dev
      (or_if (leb 3 abi) ll_fs_truncate (or_if (leb 2 abi) ll_fs_refer ll_fs_abi1))

unfoldable pub ll_read_bits : ℕ → ℕ
ll_read_bits abi = any_of (ll_fs_execute ∷ ll_fs_read_file ∷ ll_fs_read_dir ∷ [])

unfoldable pub ll_write_bits : ℕ → ℕ
unfolding ll_read_bits
ll_write_bits abi = or_if (leb 3 abi) ll_fs_truncate (
    or_if (leb 2 abi) ll_fs_refer
      (bit_or (any_of (ll_fs_write_file ∷ removes_and_makes)) (ll_read_bits abi)))

-- ===== src/Sandbox/Landlock.antt =====
-- sec/landlock/landlock/landlock_restrict.c and landlock.c: one ruleset for the process. What the
-- kernel and the file system answer is an argument; the rulesets in force are part of the state.
pub mod Rules
pub mod Laws
pub mod Rights
use oodar.Base.{
  ℕ, zero, suc, ◌+◌, ◌*◌, ◌^◌, ltb, leb, ◌==◌, if◌then◌else◌, Bool, true, false, not, ◌||◌, ◌&&◌,
  List, [], ◌∷◌, ◌++◌, Option, none, some, length, ℤ, pos, negsuc, above, Run, returns, ◌>>=◌,
}
use oodar.Base.Bits.{complement}
use Prim.Native.Nat.{bit_and, bit_or}
use oodar.Cap.Tokens.{CapState, sys}
use oodar.Cap.Gates.{oo_cap_require_kind}
use oodar.Str.Text.{bytes_equal}
use oodar.Sandbox.Text.{OoResS, codes, failed, succeeded}
use oodar.Sandbox.Paths.{ll_each_dir, count_only}
use oodar.Sandbox.Access.{
  ll_fs_execute, ll_fs_write_file, ll_fs_read_file, ll_fs_read_dir, ll_fs_remove_dir,
  ll_fs_remove_file, ll_fs_make_char, ll_fs_make_dir, ll_fs_make_reg, ll_fs_make_sock,
  ll_fs_make_fifo, ll_fs_make_block, ll_fs_make_sym, ll_fs_refer, ll_fs_truncate, ll_fs_ioctl_dev,
  any_of, removes_and_makes, ll_fs_abi1, or_if, ll_handled_fs, ll_read_bits, ll_write_bits,
}

-- What `fstat` says of an open path; `unstated` where it fails.
pub data Kind : Type 0 where
  directory regular device unstated : Kind

-- The answers of the kernel: the version, 0 or below where there is none; what `open` with `O_PATH`
-- finds; and which calls succeed. `cmdline` is what one `read` of /proc/self/cmdline gives, of 511
-- bytes at most.
pub record LandlockKernel : Type 0 where
  pub version : ℤ
  pub cmdline : Option (List ℕ)
  pub creates : Bool
  pub open_path : List ℕ → Option Kind
  pub adds : List ℕ → ℕ → Bool
  pub no_new_privs : Bool
  pub restricts : Bool

pub record PathRule : Type 0 where
  pub path : List ℕ
  pub allowed_access : ℕ

-- The rulesets that the kernel enforces, the newest first, `g_ll_applied`, and whether a call of
-- landlock_restrict.c has set PR_SET_NO_NEW_PRIVS for the process, which cannot be undone.
pub record Landlock : Type 0 where
  pub rulesets : List (List PathRule)
  pub applied : Bool
  pub no_new_privs : Bool

unfoldable pub ll_abi_version : LandlockKernel → ℕ
ll_abi_version k = elim k.version [ pos n ↦ n | negsuc n ↦ 0 ]

unfoldable pub oo_landlock_is_available : LandlockKernel → Bool
oo_landlock_is_available k = ltb 0 (ll_abi_version k)

unfoldable pub oo_landlock_is_applied : Landlock → Bool
oo_landlock_is_applied l = l.applied

unfoldable pub oo_landlock_mark_applied : Landlock → Landlock
oo_landlock_mark_applied l = record l { applied = true }

-- The rights that a file cannot have.
abbrev pub dir_bits : ℕ
dir_bits = any_of (ll_fs_read_dir ∷ (removes_and_makes ++ (ll_fs_refer ∷ [])))

unfoldable pub rule_access : Kind → ℕ → ℕ → ℕ
rule_access directory abi access = access
rule_access unstated abi access = access
rule_access regular abi access = bit_and access (complement 64 dir_bits)
rule_access device abi access =
    or_if (leb 5 abi) ll_fs_ioctl_dev
      (bit_or (bit_and access (complement 64 dir_bits)) ll_fs_write_file)

unfoldable pub add_opened :
    LandlockKernel → ℕ → ℕ → List ℕ → Option Kind → List PathRule → Bool × List PathRule
add_opened k abi access path none rules = (false, rules)
add_opened k abi access path (some kind) rules =
    let a = rule_access kind abi access in
    if k.adds path a
    then (true, rules ++ (record { path = path; allowed_access = a } ∷ []))
    else (false, rules)

unfoldable pub ll_add_one : LandlockKernel → ℕ → ℕ → List ℕ → List PathRule → Bool × List PathRule
ll_add_one k abi access path rules = add_opened k abi access path (k.open_path path) rules

-- The bytes behind the first NUL, if one is there with something behind it.
unfoldable pub second_argument : List ℕ → Option (List ℕ)
second_argument [] = none
second_argument (c ∷ []) = none
second_argument (c ∷ d ∷ rest) =
    let on = second_argument (d ∷ rest) in if c == 0 then some (d ∷ rest) else on

-- A C string in the buffer: the bytes before a NUL; the code puts one behind what was read.
unfoldable pub c_string : List ℕ → List ℕ
c_string [] = []
c_string (c ∷ rest) = let on = c_string rest in if c == 0 then [] else c ∷ on

unfoldable pub names_update : Option (List ℕ) → Bool
names_update none = false
names_update (some sub) =
    bytes_equal (c_string sub) (codes "update") || bytes_equal (c_string sub) (codes "upgrade")

unfoldable pub update_from : Option (List ℕ) → Bool
update_from none = false
update_from (some bytes) = names_update (second_argument bytes)

unfoldable pub ll_is_update_cmd : LandlockKernel → Bool
ll_is_update_cmd k = update_from k.cmdline

unfoldable pub ll_err : List ℕ → Landlock → OoResS × Landlock
ll_err msg l = (failed msg, l)

abbrev pub is_code : ℕ → ℤ → Bool
is_code n (pos m) = false
is_code n (negsuc m) = m == n

abbrev pub is_zero : ℤ → Bool
is_zero (pos n) = n == 0
is_zero (negsuc n) = false

-- The rules for one of the two lists, if it has parts.
unfoldable pub add_rules : LandlockKernel → ℕ → ℕ → List ℕ → ℕ → List PathRule → ℤ × List PathRule
add_rules k abi access dirs count rules =
    if ltb 0 count
    then (let r = ll_each_dir (ll_add_one k abi access) dirs rules in (r.0, r.2))
    else (pos 0, rules)

-- From `PR_SET_NO_NEW_PRIVS` on.
unfoldable pub enforce : LandlockKernel → List PathRule → Landlock → OoResS × Landlock
enforce k rules l =
    if not k.no_new_privs
    then ll_err (codes "ERR\tlandlock\tfailed to set PR_SET_NO_NEW_PRIVS") l
    else if not k.restricts
    then ll_err (codes "ERR\tlandlock\trestrict_self failed") (record l { no_new_privs = true })
    else (
      succeeded (codes "OK_LANDLOCK_ENFORCED"),
      oo_landlock_mark_applied (record l { rulesets = rules ∷ l.rulesets; no_new_privs = true }),
    )

-- The two walks that add the rules.
unfoldable pub restrict_with :
    LandlockKernel → ℕ → List ℕ → List ℕ → ℕ → ℕ → Landlock → OoResS × Landlock
restrict_with k abi read_dirs write_dirs nread nwrite l =
    let handled = ll_handled_fs abi in
    let reads = add_rules k abi (bit_and (ll_read_bits abi) handled) read_dirs nread [] in
    let writes = add_rules k abi (bit_and (ll_write_bits abi) handled) write_dirs nwrite reads.1 in
    if not (is_zero reads.0)
    then ll_err (codes "ERR\tlandlock\tadd_rule read path failed") l
    else if not (is_zero writes.0)
    then ll_err (codes "ERR\tlandlock\tadd_rule write path failed") l
    else enforce k writes.1 l

-- From the codes of the two counting walks on.
unfoldable pub restrict_checked :
    LandlockKernel → List ℕ → List ℕ → ℤ → ℤ → ℕ → ℕ → Landlock → OoResS × Landlock
restrict_checked k read_dirs write_dirs pr pw nread nwrite l =
    if is_code 2 pr || is_code 2 pw
    then ll_err (codes "ERR\tlandlock\tpath not absolute") l
    else if is_code 1 pr || is_code 1 pw
    then ll_err (codes "ERR\tlandlock\tpath too long") l
    else if is_code 0 pr || is_code 0 pw
    then ll_err (codes "ERR\tlandlock\tembedded NUL in path") l
    else if not (is_zero pr) || not (is_zero pw)
    then ll_err (codes "ERR\tlandlock\tinvalid path list") l
    else if ltb 64 (nread + nwrite)
    then ll_err (codes "ERR\tlandlock\ttoo many paths") l
    else if ltb (ll_abi_version k) 1
    then ll_err (codes "ERR\tlandlock\tnot_supported_on_this_kernel") l
    else if not k.creates
    then ll_err (codes "ERR\tlandlock\tcreate_ruleset failed") l
    else restrict_with k (ll_abi_version k) read_dirs write_dirs nread nwrite l

abbrev pub update_bypass : List ℕ
update_bypass = codes "OK_LANDLOCK_UPDATE_BYPASS"

unfoldable pub restrict_in : LandlockKernel → List ℕ → List ℕ → Landlock → OoResS × Landlock
restrict_in k read_dirs write_dirs l =
    let r = ll_each_dir count_only read_dirs tt in
    let w = ll_each_dir count_only write_dirs tt in
    if ll_is_update_cmd k
    then (succeeded update_bypass, l)
    else restrict_checked k read_dirs write_dirs r.0 w.0 r.1 w.1 l

-- The gate reads the token store; a gate that returns leaves the store as it was.
unfoldable pub oo_landlock_restrict :
    LandlockKernel → CapState → ℕ → List ℕ → List ℕ → Landlock → Run (OoResS × Landlock)
oo_landlock_restrict k caps cap read_dirs write_dirs l = do
  _ ← oo_cap_require_kind sys caps cap
  returns (restrict_in k read_dirs write_dirs l)

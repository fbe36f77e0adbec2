-- ===== src/Sandbox/Limits.antt =====
-- fs/os/rlimit.c outside Windows: the soft and the hard limit of three resources. What `getrlimit` and
-- `setrlimit` answer is an argument.
pub mod Laws
use oodar.Base.{
  ℕ, ◌*◌, ◌%◌, ◌^◌, ltb, leb, ◌==◌, if◌then◌else◌, Bool, true, false, not, List, ℤ, pos, negsuc,
  Run, returns, ◌>>=◌,
}
use oodar.Cap.Tokens.{CapState, sys}
use oodar.Cap.Gates.{oo_cap_require_kind}
use oodar.Sandbox.Text.{OoResS, codes, failed, succeeded}

pub data Resource : Type 0 where
  address_space nofile cpu : Resource

-- `struct rlimit`; RLIM_INFINITY is 2^64 - 1.
pub record Rlimit : Type 0 where
  pub rlim_cur : ℕ
  pub rlim_max : ℕ

abbrev pub Limits : Type 0
Limits = Resource → Rlimit

-- Which calls succeed.
pub record LimitKernel : Type 0 where
  pub gets : Resource → Bool
  pub sets : Resource → Rlimit → Bool

abbrev pub same_resource : Resource → Resource → Bool
same_resource address_space address_space = true
same_resource nofile nofile = true
same_resource cpu cpu = true
same_resource _ _ = false

abbrev pub put_limit : Resource → Rlimit → Limits → Limits
put_limit r v limits q = if same_resource r q then v else limits q

-- The body that the three calls share, with the number of units.
unfoldable pub tighten : LimitKernel → Resource → ℕ → List ℕ → List ℕ → Limits → OoResS × Limits
tighten k r amount cannot_get cannot_set limits =
    let old = limits r in
    let new : Rlimit = record {
      rlim_cur = amount;
      rlim_max = if ltb amount old.rlim_max then amount else old.rlim_max;
    } in
    if not (k.gets r)
    then (failed cannot_get, limits)
    else if not (k.sets r new)
    then (failed cannot_set, limits)
    else (succeeded (codes "OK"), put_limit r new limits)

unfoldable pub set_mem_in : LimitKernel → ℤ → Limits → OoResS × Limits
set_mem_in k (negsuc n) limits = (failed (codes "ERR\trlimit\tinvalid memory quota size"), limits)
set_mem_in k (pos n) limits =
    if n == 0
    then (failed (codes "ERR\trlimit\tinvalid memory quota size"), limits)
    else tighten k address_space (n * 1048576 % 2 ^ 64)
        (codes "ERR\trlimit\tfailed to get RLIMIT_AS")
        (codes "ERR\trlimit\tfailed to set RLIMIT_AS") limits

unfoldable pub set_nofile_in : LimitKernel → ℤ → Limits → OoResS × Limits
set_nofile_in k (negsuc n) limits = (failed (codes "ERR\trlimit\tinvalid fd count"), limits)
set_nofile_in k (pos n) limits =
    if n == 0
    then (failed (codes "ERR\trlimit\tinvalid fd count"), limits)
    else tighten k nofile n (codes "ERR\trlimit\tfailed to get RLIMIT_NOFILE")
        (codes "ERR\trlimit\tfailed to set RLIMIT_NOFILE") limits

unfoldable pub set_cpu_in : LimitKernel → ℤ → Limits → OoResS × Limits
set_cpu_in k (negsuc n) limits = (failed (codes "ERR\trlimit\tinvalid cpu seconds"), limits)
set_cpu_in k (pos n) limits =
    if n == 0
    then (failed (codes "ERR\trlimit\tinvalid cpu seconds"), limits)
    else tighten k cpu n (codes "ERR\trlimit\tfailed to get RLIMIT_CPU")
        (codes "ERR\trlimit\tfailed to set RLIMIT_CPU") limits

unfoldable pub oo_rlimit_set_mem_mb :
    LimitKernel → CapState → ℕ → ℤ → Limits → Run (OoResS × Limits)
oo_rlimit_set_mem_mb k caps cap megabytes limits = do
  _ ← oo_cap_require_kind sys caps cap
  returns (set_mem_in k megabytes limits)

unfoldable pub oo_rlimit_set_nofile :
    LimitKernel → CapState → ℕ → ℤ → Limits → Run (OoResS × Limits)
oo_rlimit_set_nofile k caps cap max_fds limits = do
  _ ← oo_cap_require_kind sys caps cap
  returns (set_nofile_in k max_fds limits)

unfoldable pub oo_rlimit_set_cpu_sec :
    LimitKernel → CapState → ℕ → ℤ → Limits → Run (OoResS × Limits)
oo_rlimit_set_cpu_sec k caps cap seconds limits = do
  _ ← oo_cap_require_kind sys caps cap
  returns (set_cpu_in k seconds limits)

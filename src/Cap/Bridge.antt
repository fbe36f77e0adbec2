-- ===== src/Cap/Bridge.antt =====
-- cap_ocap_bridge.c over cap_bridge_emitted.c: the rights mask behind each token.
pub mod Laws
use Prim.Native.Nat.{bit_and}
use Prim.Native.String.{String}
use text.Mathlib.Text.{◌==◌ as str_eq}
use oodar.Base.{ℕ, zero, suc, ◌+◌, ltb, ◌==◌, if◌then◌else◌, ◌||◌, Bool, true, false}
use oodar.Base.{List, [], ◌∷◌, Option, none, some, get_or, get_elem?, map}
use oodar.Base.{ℤ, pos, negsuc}
use oodar.Cap.Tokens.{CapState, oo_cap_self_token}

pub record OcapRow : Type 0 where
  pub name : String
  pub row_token : String
  pub mask : ℕ

abbrev row : String → String → ℕ → OcapRow
row n t m = record { name = n; row_token = t; mask = m }

abbrev pub rows : List OcapRow
rows =
    row "FsReadCap" "fsread" 1
    ∷ row "FsWriteCap" "fswrite" 3
    ∷ row "NetCap" "net" 3
    ∷ row "TcpCap" "tcp" 3
    ∷ row "UdpCap" "udp" 3
    ∷ row "SysCap" "sys" 7
    ∷ row "ProcessCap" "process" 7
    ∷ row "EnvCap" "env" 1
    ∷ row "TimeCap" "time" 1
    ∷ row "RandCap" "rand" 1
    ∷ row "AllocCap" "alloc" 3
    ∷ row "ThreadCap" "thread" 7
    ∷ row "GpuCap" "gpu" 7
    ∷ row "FfiCap" "ffi" 7
    ∷ row "FsCap" "fs" 31
    ∷ row "ArenaCap" "arena" 11
    ∷ row "MetricsCap" "metrics" 1
    ∷ row "SignCap" "sign" 3
    ∷ row "BindCap" "bind" 3
    ∷ row "CompilerReadCap" "compiler_read" 1
    ∷ []

-- The first row of the name; the length and `memcmp` test is equality of the texts.
pub find_row : List OcapRow → String → Option OcapRow
find_row [] n = none
find_row (r ∷ rs) n = if str_eq r.name n then some r else find_row rs n

mask_of : Option OcapRow → ℕ
mask_of none = 0
mask_of (some r) = r.mask

-- An `OCapBridgeRecord`; of no row it has empty texts and no right.
record_from_row : Option OcapRow → OcapRow
record_from_row none = row "" "" 0
record_from_row (some r) = r

pub ocap_to_oodar_record_for : String → OcapRow
unfolding find_row record_from_row
ocap_to_oodar_record_for n = record_from_row (find_row rows n)

names_of : List OcapRow → List String
names_of [] = []
names_of (r ∷ rs) = r.name ∷ names_of rs

pub ocap_to_oodar_all_names : List String
unfolding names_of
ocap_to_oodar_all_names = names_of rows

pub ocap_to_oodar_rights_for_name : String → ℕ
unfolding find_row mask_of
ocap_to_oodar_rights_for_name n = mask_of (find_row rows n)

pub ocap_to_oodar_has_permission : String → ℕ → Bool
unfolding ocap_to_oodar_rights_for_name
ocap_to_oodar_has_permission n required =
    bit_and (ocap_to_oodar_rights_for_name n) required == required

abbrev pub substrate_to_language : List String
substrate_to_language =
    "FsCap" ∷ "SysCap" ∷ "EnvCap" ∷ "NetCap" ∷ "SignCap" ∷ "ProcessCap" ∷ "TcpCap" ∷ "UdpCap"
    ∷ "BindCap" ∷ "FsReadCap" ∷ "FsReadCap" ∷ "FsReadCap" ∷ "FsReadCap" ∷ "FsReadCap" ∷ "FsReadCap"
    ∷ "FsReadCap" ∷ "FsWriteCap" ∷ "ArenaCap" ∷ "ThreadCap" ∷ "GpuCap" ∷ "CompilerReadCap"
    ∷ "MetricsCap" ∷ "AllocCap" ∷ "TimeCap" ∷ "RandCap" ∷ "FfiCap" ∷ []

-- `g_ocap_rights`, as `ocap_init_once` fills it before the first check.
pub ocap_init_once : List String → List ℕ
ocap_init_once [] = []
ocap_init_once (lang ∷ rest) = ocap_to_oodar_rights_for_name lang ∷ ocap_init_once rest

pub g_ocap_rights : List ℕ
unfolding ocap_init_once ocap_to_oodar_rights_for_name
g_ocap_rights = ocap_init_once substrate_to_language

-- `for (i = 0; i < 26; i++) if (oo_cap_self_token(i) == cap) return i;`
pub find_from : CapState → ℕ → ℕ → ℕ → Option ℕ
find_from s cap zero i = none
find_from s cap (suc left) i =
    if oo_cap_self_token s (pos i) == cap then some i else find_from s cap left (i + 1)

pub find_substrate_index : CapState → ℕ → Option ℕ
unfolding find_from
find_substrate_index s cap = find_from s cap 26 0

granted_at : Option ℕ → ℕ → Bool
unfolding g_ocap_rights
granted_at none required = false
granted_at (some idx) required = bit_and (get_or g_ocap_rights idx 0) required == required

-- The test hook fails one call and clears itself.
pub oo_cap_check_with_ocap : CapState → ℕ → ℕ → Bool × CapState
unfolding find_substrate_index granted_at
oo_cap_check_with_ocap s cap required =
    if s.test_force_fail
    then (false, record s { test_force_fail = false })
    else if cap == 0
    then (false, s)
    else (granted_at (find_substrate_index s cap) required, s)

pub oo_cap_bridge_set_test_force_fail : CapState → Bool → CapState
oo_cap_bridge_set_test_force_fail s on = record s { test_force_fail = on }

-- `none` is the -1 of an index out of range.
pub oo_cap_ocap_rights_at : ℤ → Option ℕ
unfolding g_ocap_rights
oo_cap_ocap_rights_at (negsuc n) = none
oo_cap_ocap_rights_at (pos which) = get_elem? g_ocap_rights which

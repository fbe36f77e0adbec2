-- ===== src/Cap/Gates.antt =====
-- cap_grant.c, cap_require.c, and the gates of the sub-stores.
pub mod Laws
use oodar.Base.{ℕ, ◌==◌, if◌then◌else◌, ◌||◌, ◌&&◌, not, Bool, true, false}
use oodar.Base.{Run, returns, exits, ◌>>=◌, ◌>>◌}
use oodar.Cap.Tokens.{CapKind, CapState}
use oodar.Cap.Tokens.{
  fs, sys, env, net, sign, process, tcp, udp, bind, arena, fsread, fswrite, alloc,
}
use oodar.Cap.Bridge.{oo_cap_check_with_ocap}

-- `oo_sandbox_note_net` and `oo_sandbox_note_proc` run in the grants that call them.
pub oo_cap_grant : CapKind → CapState → ℕ × CapState
oo_cap_grant sys s = (s.token sys, record s { sand_proc = true })
oo_cap_grant net s = (s.token net, record s { sand_net = true })
oo_cap_grant process s = (s.token process, record s { sand_proc = true; process_handed = true })
oo_cap_grant tcp s = (s.token tcp, record s { sand_net = true })
oo_cap_grant udp s = (s.token udp, record s { sand_net = true })
oo_cap_grant bind s = (s.token bind, record s { sand_net = true })
oo_cap_grant k s = (s.token k, s)

unfoldable pub oo_cap_is_arena : CapState → ℕ → Bool
oo_cap_is_arena s got = got == s.token arena

unfoldable pub oo_cap_is_alloc : CapState → ℕ → Bool
oo_cap_is_alloc s got = got == s.token alloc

-- The bitmask-only entry point, and what the gates of alloc, time, rand and ffi do.
pub oo_cap_require : ℕ → ℕ → Run (Unit {0})
oo_cap_require got want = if got == 0 || not (got == want) then exits 1 else returns tt

-- A disagreement of the rights table is exit code 2. `blackbox_trap_cap` only writes a report.
pub dual_check : CapState → ℕ → ℕ → ℕ → ℕ → Run CapState
dual_check s got want alt required =
    if got == 0 || (not (got == want) && not (got == alt))
    then exits 1
    else (let (ok, s') = oo_cap_check_with_ocap s got required in
        if ok then returns s' else exits 2)

-- The second token that a gate accepts; 0 for a gate of one token.
pub alt_token : CapState → CapKind → ℕ
alt_token s tcp = s.token net
alt_token s udp = s.token net
alt_token s bind = s.token net
alt_token s fsread = s.token fs
alt_token s fswrite = s.token fs
alt_token s process = s.token sys
alt_token s k = 0

-- `oo_cap_require_<kind>`: 22 dual checks, and 4 gates of the sub-stores.
pub oo_cap_require_kind : CapKind → CapState → ℕ → Run CapState
unfolding dual_check alt_token oo_cap_require
oo_cap_require_kind CapKind.alloc s got = do oo_cap_require got (s.token alloc); returns s
oo_cap_require_kind CapKind.time s got = do oo_cap_require got (s.token CapKind.time); returns s
oo_cap_require_kind CapKind.rand s got = do oo_cap_require got (s.token CapKind.rand); returns s
oo_cap_require_kind CapKind.ffi s got = do oo_cap_require got (s.token CapKind.ffi); returns s
oo_cap_require_kind k s got = dual_check s got (s.token k) (alt_token s k) 1

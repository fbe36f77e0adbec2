-- ===== src/Cap.antt =====
-- sec/cap: capability tokens and the gates that every privileged call goes through.
-- `Tokens` is the token store (caps.c, cap_alloc.c, cap_time.c, cap_ffi.c), `Bridge` the rights
-- table behind it (cap_ocap_bridge.c, cap_bridge_emitted.c), `Gates` grant and require
-- (cap_grant.c, cap_require.c), `Rights` the attenuation of a rights mask (cap_attenuate_hmac.c),
-- `Path` path-scoped caps (cap_attenuate_path.c). The `Laws` children hold what is proved.
pub mod Tokens
pub mod Bridge
pub mod Gates
pub mod Rights
pub mod Path
pub mod Sample
mod Tests

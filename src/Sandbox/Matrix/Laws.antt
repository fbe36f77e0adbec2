-- ===== src/Sandbox/Matrix/Laws.antt =====
-- What an application of the whole matrix leaves, and that it always comes to an end behind its gate.
use oodar.Base.{
  ℕ, ◌+◌, ◌≡◌, refl, arith, ltb, true, false, not, ◌||◌, List, [], ◌∷◌, Option, none, some, returns,
  if_elim, if_of_true, if_of_false,
}
use oodar.Cap.Tokens.{CapState, sys}
use oodar.Cap.Gates.{oo_cap_require_kind}
use oodar.Seccomp.Install.{
  CapFilter, oodar_cap_apply_seccomp_filter, oodar_cap_is_sandboxed, cap_actions, fsw_granted,
}
use oodar.Seccomp.Install.Laws.{Confines, Applied, apply-Applied}
use oodar.Sandbox.Text.{OoResS, failed}
use oodar.Sandbox.Paths.{sand_validate_paths, sand_walk, sand_part}
use oodar.Sandbox.Landlock.{is_code, oo_landlock_is_available}
use oodar.Sandbox.Landlock.Laws.{Restricted}
use oodar.Sandbox.Apply.{
  linux_landlock_seccomp, OoSandboxConfig, Host, System, confines_files, oo_sandbox_probe_backend,
  sand_store_dirs,
}
use oodar.Sandbox.Matrix.{
  status_of, sand_update_status_from_config, is_linux, refuse, finish, apply_backend, apply_checked,
  apply_config, oo_sandbox_apply_matrix,
}
use oodar.Sandbox.Matrix.Landed.{Ends, ends, Ends-bind, Landed, sand_apply-Landed}

files_confined :
    (reads writes : List ℕ)
    → confines_files reads writes (sand_validate_paths reads).1 (sand_validate_paths writes).1
      ≡ true
unfolding confines_files sand_validate_paths sand_walk sand_part
files_confined [] [] = refl
files_confined [] (d ∷ writes) = ground arith
files_confined (c ∷ reads) writes = ground arith

-- The process after a success: the kernel has Landlock and has answered for these lists with a success;
-- the filter is on, and where none was on before, the newest one in the kernel does what the table says
-- for the mask; the status is that of the configuration, and the sandbox is locked.
pub record Confinement (y : System) (c : OoSandboxConfig) (h t : Host) : Type 0 where
  pub available : oo_landlock_is_available y.landlock_kernel ≡ true
  pub answer : OoResS
  pub answered : answer.ok ≡ true
  pub restricted :
      Restricted y.landlock_kernel c.read_dirs_colon c.write_dirs_colon h.landlock
        (answer, t.landlock)
  pub sandboxed : oodar_cap_is_sandboxed t.capf ≡ true
  pub filter_state :
      t.capf
      ≡ (oodar_cap_apply_seccomp_filter y.build y.seccomp_kernel c.allowed_caps_mask h.capf).1
  pub filter_of_mask :
      oodar_cap_is_sandboxed h.capf ≡ false
      → Confines y.build
          (cap_actions y.build c.allowed_caps_mask)
          (fsw_granted c.allowed_caps_mask)
          t.capf.filters
  pub files_restricted : t.status.fs_restricted ≡ true
  pub status_written :
      t.status
      ≡ status_of c linux_landlock_seccomp
          (sand_validate_paths c.read_dirs_colon).1
          (sand_validate_paths c.write_dirs_colon).1
  pub lock : t.locked ≡ true

pub data Outcome (y : System) (c : Option OoSandboxConfig) (h : Host) (r : OoResS × Host)
    : Type 0 where
  refused : r.0.ok ≡ false → r.1.status ≡ h.status → r.1.locked ≡ h.locked → Outcome y c h r
  confined :
      (k : OoSandboxConfig) → c ≡ some k → r.0.ok ≡ true → Confinement y k h r.1 → Outcome y c h r

installed_for_mask :
    (y : System) (mask : ℕ) (f : CapFilter)
    → oodar_cap_is_sandboxed f ≡ false
    → oodar_cap_is_sandboxed (oodar_cap_apply_seccomp_filter y.build y.seccomp_kernel mask f).1
      ≡ true
    → Confines y.build
        (cap_actions y.build mask)
        (fsw_granted mask)
        (oodar_cap_apply_seccomp_filter y.build y.seccomp_kernel mask f).1.filters
unfolding oodar_cap_is_sandboxed
installed_for_mask y mask f off on = elim (apply-Applied y.build y.seccomp_kernel mask f off) [
  | Applied.installed z o m c ↦ c
  | Applied.failed n z o fs ↦ absurd (cc)
]

linux_available :
    (y : System)
    → is_linux (oo_sandbox_probe_backend y) ≡ true
    → (oo_sandbox_probe_backend y ≡ linux_landlock_seccomp)
      × (oo_landlock_is_available y.landlock_kernel ≡ true)
unfolding oo_sandbox_probe_backend is_linux
linux_available y h = ground arith

module _ (y : System) (caps : CapState) (cap : ℕ)
    (opens : oo_cap_require_kind sys caps cap ≡ returns caps) where
  finish-Outcome :
      (c : OoSandboxConfig) (h : Host) (r : OoResS × Host)
      → oo_landlock_is_available y.landlock_kernel ≡ true
      → Landed y caps cap opens c h r
      → Ends (Outcome y (some c) h) (
          finish y caps cap c linux_landlock_seccomp
            (sand_validate_paths c.read_dirs_colon).1
            (sand_validate_paths c.write_dirs_colon).1
            r)
  unfolding finish sand_update_status_from_config sand_store_dirs status_of
  finish-Outcome c h r av (Landed.kept ok st lk) =
      rw (if_of_true {c = not r.0.ok} _ _ (rw ok refl)) (ends r refl (refused ok st lk))
  finish-Outcome c h r av (Landed.landed ok res good w cf on) =
      rw (if_of_false {c = not r.0.ok} _ _ (rw ok refl)) (
        ends _ refl (
          confined c refl ok (record {
            available = av;
            answer = res;
            answered = good;
            restricted = w;
            sandboxed = on;
            filter_state = cf;
            filter_of_mask =
                λ off. rw cf (installed_for_mask y c.allowed_caps_mask h.capf off (rw cf at on));
            files_restricted = files_confined c.read_dirs_colon c.write_dirs_colon;
            status_written = refl;
            lock = refl;
          })))

  refuse-Outcome :
      (c : Option OoSandboxConfig) (msg : List ℕ) (h : Host) → Ends (Outcome y c h) (refuse msg h)
  refuse-Outcome c msg h = ends (failed msg, h) refl (refused refl refl refl)

  apply_backend-Outcome :
      (c : OoSandboxConfig) (h : Host)
      → Ends (Outcome y (some c) h) (
          apply_backend y caps cap c
            (sand_validate_paths c.read_dirs_colon).1
            (sand_validate_paths c.write_dirs_colon).1
            h)
  unfolding apply_backend
  apply_backend-Outcome c h =
      if_elim (Ends (Outcome y (some c) h)) (is_linux (oo_sandbox_probe_backend y))
        (λ linux.
          let (e, av) = linux_available y linux in
          rw e (
            Ends-bind _ _ _
              (sand_apply-Landed y caps cap opens c _ _ h
                (files_confined c.read_dirs_colon c.write_dirs_colon))
              λ r w. finish-Outcome c h r av w))
        λ _. refuse-Outcome (some c) _ h

  apply_config-Outcome :
      (c : Option OoSandboxConfig) (h : Host) → Ends (Outcome y c h) (apply_config y caps cap c h)
  unfolding apply_config apply_checked
  apply_config-Outcome none h = refuse-Outcome none _ h
  apply_config-Outcome (some c) h =
      let r = sand_validate_paths c.read_dirs_colon in
      let w = sand_validate_paths c.write_dirs_colon in
      let P = Ends (Outcome y (some c) h) in
      if_elim P (is_code 2 r.0 || is_code 2 w.0) (λ _. refuse-Outcome (some c) _ h)
        λ _.
          if_elim P (is_code 1 r.0 || is_code 1 w.0) (λ _. refuse-Outcome (some c) _ h)
            λ _.
              if_elim P (is_code 0 r.0 || is_code 0 w.0) (λ _. refuse-Outcome (some c) _ h)
                λ _.
                  if_elim P (ltb 64 (r.1 + w.1)) (λ _. refuse-Outcome (some c) _ h)
                    λ _. apply_backend-Outcome c h

  -- Behind its gate an application always returns. It fails with the status and the lock as they were;
  -- or it succeeds on a configuration, and then the kernel has Landlock and has answered for both lists
  -- with a success, a seccomp filter is on, the status is that of the configuration, and the sandbox is
  -- locked; and where no filter was on before, the newest one does for every call what the table says
  -- for the mask.
  pub apply_matrix-Outcome :
      (c : Option OoSandboxConfig) (h : Host)
      → (r : OoResS × Host) × (oo_sandbox_apply_matrix y caps cap c h ≡ returns r) × Outcome y c h r
  unfolding oo_sandbox_apply_matrix
  apply_matrix-Outcome c h = rw opens (elim (apply_config-Outcome c h) [ ends a e p ↦ (a, e, p) ])

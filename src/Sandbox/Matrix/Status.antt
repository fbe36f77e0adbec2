-- ===== src/Sandbox/Matrix/Status.antt =====
-- Where the status and the kernel disagree.
use oodar.Base.{
  ℕ, ◌≡◌, refl, arith, ap, sym, ◌∙◌, true, false, some, List, returns, returns-injective, subst,
}
use oodar.Cap.Tokens.{CapState, sys}
use oodar.Cap.Gates.{oo_cap_require_kind}
use oodar.Seccomp.{Build, seccomp_ret_kill_process}
use oodar.Seccomp.Machine.{SeccompData, overlaps}
use oodar.Seccomp.Policy.{policy, net_call}
use oodar.Seccomp.Install.{oodar_cap_is_sandboxed, cap_actions, fsw_granted, cap_net}
use oodar.Seccomp.Install.Laws.{apply_again}
use oodar.Sandbox.Text.{OoResS}
use oodar.Sandbox.Landlock.{Landlock, LandlockKernel, ll_is_update_cmd}
use oodar.Sandbox.Landlock.Laws.{Restricted}
use oodar.Sandbox.Apply.{Backend, OoSandboxConfig, Host, System}
use oodar.Sandbox.Matrix.{oo_sandbox_apply_matrix, status_of, net_caps}
use oodar.Sandbox.Matrix.Laws.{Outcome, Confinement, apply_matrix-Outcome}

kept_for_update :
    (k : LandlockKernel) (reads writes : List ℕ) (l : Landlock) (r : OoResS × Landlock)
    → Restricted k reads writes l r
    → ll_is_update_cmd k ≡ true
    → r.1 ≡ l
kept_for_update k reads writes l r (Restricted.refused msg e) u = ap (λ r. r.1) e
kept_for_update k reads writes l r (Restricted.unenforced plain p z e) u = absurd (cc)
kept_for_update k reads writes l r (Restricted.bypassed _ e) u = ap (λ r. r.1) e
kept_for_update k reads writes l r (Restricted.enforced rr wr p gr gw fr fw e) u = absurd (cc)

module _ (y : System) (caps : CapState) (cap : ℕ)
    (opens : oo_cap_require_kind sys caps cap ≡ returns caps) where
  of_outcome :
      (c : OoSandboxConfig) (h : Host) (r r' : OoResS × Host)
      → r' ≡ r
      → r.0.ok ≡ true
      → Outcome y (some c) h r'
      → Confinement y c h r.1
  of_outcome c h r r' e ok (Outcome.refused bad st lk) =
      absurd (not_both (sym bad ∙ ap (λ a. a.0.ok) e ∙ ok))
    where
      not_both : false ≡ true → ⊥
      not_both z = cc
  of_outcome c h r r' e ok (Outcome.confined k ek good w) =
      let same : k ≡ c = cc in
      subst (λ a. Confinement y c h a.1) e (subst (λ c. Confinement y c h r'.1) same w)

  of_success :
      (c : OoSandboxConfig) (h : Host) (r : OoResS × Host)
      → oo_sandbox_apply_matrix y caps cap (some c) h ≡ returns r
      → r.0.ok ≡ true
      → Confinement y c h r.1
  of_success c h r e ok =
      let (r', e', o) = apply_matrix-Outcome y caps cap opens (some c) h in
      of_outcome c h r r' (returns-injective (sym e' ∙ e)) ok o

  -- Where the process was started with `update` or `upgrade`, an application that succeeds leaves no
  -- ruleset more in force than before, and yet the seccomp filter is on and the status says that the
  -- files are restricted.
  pub update_unconfined :
      (c : OoSandboxConfig) (h : Host) (r : OoResS × Host)
      → ll_is_update_cmd y.landlock_kernel ≡ true
      → oo_sandbox_apply_matrix y caps cap (some c) h ≡ returns r
      → r.0.ok ≡ true
      → (r.1.landlock ≡ h.landlock)
        × (oodar_cap_is_sandboxed r.1.capf ≡ true)
        × (r.1.status.fs_restricted ≡ true)
  update_unconfined c h r u e ok =
      let w = of_success c h r e ok in
      (kept_for_update _ _ _ _ _ w.restricted u, w.sandboxed, w.files_restricted)

  -- Where a filter is on already, an application that succeeds installs none, whatever mask it was
  -- asked for, and yet the status shows that mask.
  pub applied_again :
      (c : OoSandboxConfig) (h : Host) (r : OoResS × Host)
      → oodar_cap_is_sandboxed h.capf ≡ true
      → oo_sandbox_apply_matrix y caps cap (some c) h ≡ returns r
      → r.0.ok ≡ true
      → (r.1.capf ≡ h.capf) × (r.1.status.active_caps_mask ≡ c.allowed_caps_mask)
  applied_again c h r on e ok =
      let w = of_success c h r e ok in
      (
        w.filter_state
            ∙ ap (λ a. a.1) (apply_again y.build y.seccomp_kernel c.allowed_caps_mask h.capf on),
        rw w.status_written (unfold status_of in refl),
      )

-- With a capability for TCP, UDP or binding but not the one for the network as a whole, the status says
-- that the network is not restricted, and the filter kills every call that makes, connects or binds a
-- socket.
pub sockets_killed :
    (b : Build) (arch : ℕ) (c : OoSandboxConfig) (by : Backend) (nread nwrite : ℕ) (d : SeccompData)
    → overlaps c.allowed_caps_mask net_caps ≡ true
    → overlaps c.allowed_caps_mask cap_net ≡ false
    → net_call b d.nr ≡ true
    → ((status_of c by nread nwrite).net_restricted ≡ false)
      × (policy b arch (cap_actions b c.allowed_caps_mask) (fsw_granted c.allowed_caps_mask) d
          ≡ seccomp_ret_kill_process)
unfolding status_of cap_actions
sockets_killed b arch c by nread nwrite d some_net no_net call =
    (rw some_net refl, rw (call, no_net) (ground arith))

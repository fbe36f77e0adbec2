-- ===== src/Mem/Weak/Gated.antt =====
-- core/mem/weak.c: the calls that change a control block, each behind the gate of the allocation cap.
use oodar.Base.{ℕ, Option, Run, returns, ◌>>=◌}
use oodar.Cap.Tokens.{CapKind, CapState}
use oodar.Cap.Gates.{oo_cap_require_kind}
use oodar.Mem.Weak.{
  OoWeakRef, WeakHeap, init_at, create_at, retain_at, release_at, weak_create_at, upgrade_at,
  weak_retain_at, weak_release_at,
}

module _ (caps : CapState) (token : ℕ) where
  unfoldable pub oo_control_block_init : ℕ → Option ℕ → WeakHeap → Run WeakHeap
  oo_control_block_init a dtor s = do
    c ← oo_cap_require_kind CapKind.alloc caps token
    returns (init_at a dtor s)

  unfoldable pub oo_control_block_create : ℕ → Option ℕ → WeakHeap → Run (ℕ × WeakHeap)
  oo_control_block_create a dtor s = do
    c ← oo_cap_require_kind CapKind.alloc caps token
    returns (create_at a dtor s)

  unfoldable pub oo_control_block_retain : ℕ → WeakHeap → Run WeakHeap
  oo_control_block_retain a s = do
    c ← oo_cap_require_kind CapKind.alloc caps token
    returns (retain_at a s)

  unfoldable pub oo_control_block_release : ℕ → ℕ → WeakHeap → Run WeakHeap
  oo_control_block_release a payload s = do
    c ← oo_cap_require_kind CapKind.alloc caps token
    returns (release_at a payload s)

  unfoldable pub oo_weak_create : ℕ → ℕ → WeakHeap → Run (OoWeakRef × WeakHeap)
  oo_weak_create payload a s = do
    c ← oo_cap_require_kind CapKind.alloc caps token
    returns (weak_create_at payload a s)

  unfoldable pub oo_weak_upgrade : OoWeakRef → WeakHeap → Run (ℕ × WeakHeap)
  oo_weak_upgrade ref s = do
    c ← oo_cap_require_kind CapKind.alloc caps token
    returns (upgrade_at ref s)

  unfoldable pub oo_weak_retain : OoWeakRef → WeakHeap → Run WeakHeap
  oo_weak_retain ref s = do
    c ← oo_cap_require_kind CapKind.alloc caps token
    returns (weak_retain_at ref s)

  unfoldable pub oo_weak_release : OoWeakRef → WeakHeap → Run (OoWeakRef × WeakHeap)
  oo_weak_release ref s = do
    c ← oo_cap_require_kind CapKind.alloc caps token
    returns (weak_release_at ref s)

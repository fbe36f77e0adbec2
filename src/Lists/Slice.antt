-- ===== src/Lists/Slice.antt =====
-- core/list/list_slice.c: the slice of a list, pushed element by element onto a new one.
pub mod Segment
pub mod Laws
use oodar.Base.{ℕ, zero, suc, ◌-◌, ◌==◌, if◌then◌else◌, ltb, min, pos_part}
use oodar.Base.{Run, returns, ◌>>=◌, ℤ}
use oodar.Lists.{Ledger, OoList, Lists, Family, contents, list_new}
use oodar.Lists.Payload.{Given, oo_list_release}
use oodar.Lists.Ops.{oo_list_push}

module _ {ℓ} {A H : Type ℓ} where
  -- The pushes of the elements i to i + n - 1 onto `o`; the old handle of each is released. `given`
  -- says what the allocator gives to the push of the element i.
  unfoldable pub slice_loop :
      Family A H
      → (ℕ → Given A)
      → OoList
      → ℕ
      → ℕ
      → OoList
      → Ledger × Lists A H
      → Run (OoList × (Ledger × Lists A H))
  slice_loop fam given l i zero o s = returns (o, s)
  slice_loop fam given l i (suc n) o s = do
    r ← oo_list_push fam (given i) o (contents (s.1.block l.addr) (given i).items i) s
    slice_loop fam given l (suc i) n r.0 (oo_list_release fam o r.1)

  -- `lo < 0` counts as 0, and `hi > len` as the length.
  unfoldable pub oo_list_slice :
      Family A H
      → (ℕ → Given A)
      → OoList
      → ℤ
      → ℤ
      → Ledger × Lists A H
      → Run (OoList × (Ledger × Lists A H))
  oo_list_slice fam given l lo hi s =
      if l.addr == 0
      then returns (list_new, s)
      else slice_loop fam given l (pos_part lo) (min (pos_part hi) l.len - pos_part lo) list_new s

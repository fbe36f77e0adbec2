-- ===== src/Lists/Payload.antt =====
-- core/list/list_alloc.c and list_atomic.c: the payload of a list, its reference count and the bytes
-- that it is charged for.
use oodar.Base.{
  ℕ, zero, suc, ◌+◌, ◌%◌, ◌^◌, ◌-◌, ◌/◌, ltb, ◌==◌, if◌then◌else◌, ◌&&◌, not, add64, sub64,
}
use oodar.Base.{Bool, false, Option, none, some, Run, returns, exits, pos}
use oodar.Lists.{Ledger, OoListBlock, OoList, Lists, Family, put, within, oo_list_hdr_ok}
use oodar.Mem.Layout.{oo_list_block_bytes}

-- What the allocators give: a payload of the active arena, or one of the heap.
pub record Given {ℓ} (A : Type ℓ) : Type ℓ where
  pub in_arena : Bool
  pub addr : ℕ
  pub items : ℕ → A

-- `curr + charge > quota`, where `curr` is a signed number.
unfoldable pub over_quota : Ledger → ℕ → Bool
over_quota g charge =
    if ltb g.bytes (2 ^ 63)
    then ltb g.quota (g.bytes + charge)
    else ltb (g.quota + 2 ^ 64) (g.bytes + charge)

-- `elem_size > 0 && cap > INT64_MAX / elem_size`
abbrev pub too_big : ℕ → ℕ → Bool
too_big elem n = ltb 0 elem && ltb ((2 ^ 63 - 1) / elem) n

module _ {ℓ} {A : Type ℓ} where
  abbrev bumped : Option (OoListBlock A) → Option (OoListBlock A)
  bumped none = none
  bumped (some b) = some (record b { ref_count = suc b.ref_count })

module _ {ℓ} {A H : Type ℓ} where
  unfoldable pub oo_list_alloc_payload :
      ℕ → ℕ → Given A → Ledger × Lists A H → Run (ℕ × (Ledger × Lists A H))
  oo_list_alloc_payload elem n g s =
      if n == 0
      then returns (0, s)
      else (if too_big elem n
          then exits 1
          else (if g.in_arena
              then returns (
                g.addr,
                put g.addr (some (record { ref_count = 1; flags = 2; items = g.items })) s,
              )
              else (if over_quota s.0 (oo_list_block_bytes (pos n) elem)
                  then exits 1
                  else returns (
                    g.addr,
                    put g.addr (some (record { ref_count = 1; flags = 0; items = g.items })) (
                      record s.0 { bytes = add64 s.0.bytes (oo_list_block_bytes (pos n) elem) },
                      s.1,
                    ),
                  ))))

  abbrev pub countable : Family A H → Option (OoListBlock A) → Bool
  countable fam none = false
  countable fam (some b) =
      not (b.ref_count == 0)
      && (not (b.ref_count == 2 ^ 32 - 1)
          && (if fam.static_only then not (b.flags % 2 == 1) else b.flags % 4 == 0))

  unfoldable pub oo_list_retain : Family A H → OoList → Ledger × Lists A H → Ledger × Lists A H
  oo_list_retain fam l s =
      if not (l.addr == 0) && countable fam (s.1.block l.addr)
      then put l.addr (bumped (s.1.block l.addr)) s
      else s

  -- The elements 0 to n - 1, in this order.
  unfoldable pub each : (A → Ledger × H → Ledger × H) → (ℕ → A) → ℕ → Ledger × H → Ledger × H
  each f items zero h = h
  each f items (suc n) h = f (items n) (each f items n h)

  -- The last reference is gone: the elements are released, the charge is given back, and the payload
  -- is freed.
  unfoldable pub dispose :
      Family A H → OoList → OoListBlock A → Ledger × Lists A H → Ledger × Lists A H
  dispose fam l b s =
      let t = within (each fam.loose b.items l.len) s in
      put l.addr none (
        record t.0 { bytes = sub64 t.0.bytes (oo_list_block_bytes (pos l.capacity) fam.elem_size) },
        t.1,
      )

  unfoldable pub dropped :
      Family A H → OoList → Option (OoListBlock A) → Ledger × Lists A H → Ledger × Lists A H
  dropped fam l none s = s
  dropped fam l (some b) s =
      if b.ref_count == 1
      then dispose fam l b s
      else put l.addr (some (record b { ref_count = (b.ref_count + 2 ^ 32 - 1) % 2 ^ 32 })) s

  unfoldable pub releasable : Family A H → (ℕ → Option (OoListBlock A)) → OoList → Bool
  releasable fam block l = if fam.unchecked then not (l.addr == 0) else oo_list_hdr_ok block l

  unfoldable pub oo_list_release : Family A H → OoList → Ledger × Lists A H → Ledger × Lists A H
  oo_list_release fam l s =
      if releasable fam s.1.block l then dropped fam l (s.1.block l.addr) s else s

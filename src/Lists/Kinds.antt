-- ===== src/Lists/Kinds.antt =====
-- core/list/list.c, flist.c and llist.c: the families of lists. An Int and a Float are kept as their
-- 64 bits, and a list of lists has handles for its elements.
use oodar.Base.{ℕ, suc, ◌<◌, ◌≤◌, ◌≡◌, ◌≢◌, ◌+◌, ◌-◌, ◌^◌, refl, arith, ==_iff}
use oodar.Base.{true, false, none, some, pos, returns}
use oodar.Lists.{
  OoListBlock, OoList, Ledger, Lists, Family, list_new, put, contents, within, oo_list_hdr_ok,
}
use oodar.Lists.Payload.{Given, oo_list_retain, oo_list_release, dropped, releasable, dispose, each}
use oodar.Lists.Holds.{==_same}
use oodar.Mem.Layout.{oo_list_block_bytes}
use oodar.Lists.Quota.{alloc_charged}
use oodar.Lists.Ops.{
  oo_list_get, get_at, read_at, index, oo_list_push, push_copied, new_capacity, grow, write, copied,
}
use oodar.Str.Ref.{OoStr, StrHeap, oo_str_retain, oo_str_release}

abbrev pub ilist : Family ℕ (Unit {0})
ilist = record {
  elem_size = 8;
  keep = λ x h. h;
  loose = λ x h. h;
  static_only = false;
  unchecked = false;
}

abbrev pub slist : Family OoStr StrHeap
slist = record {
  elem_size = 16;
  keep = λ x h. (h.0, oo_str_retain h.1 x);
  loose = λ x h. (h.0, oo_str_release h.1 x);
  static_only = false;
  unchecked = false;
}

-- The retain looks at the static flag only, and the release has no header check.
abbrev pub flist : Family ℕ (Unit {0})
flist = record {
  elem_size = 8;
  keep = λ x h. h;
  loose = λ x h. h;
  static_only = true;
  unchecked = true;
}

-- The lists of lists: the macro is the same in every dimension.
abbrev pub ll : {A H : Type 0} → Family A H → Family OoList (Lists A H)
ll inner = record {
  elem_size = 24;
  keep = oo_list_retain inner;
  loose = oo_list_release inner;
  static_only = true;
  unchecked = false;
}

module _ {A H : Type 0} (inner : Family A H) where
  arena_retained :
      (s : Ledger × Lists OoList (Lists A H)) (l : OoList) (b : OoListBlock OoList)
      → l.addr ≢ 0
      → s.1.block l.addr ≡ some b
      → b.flags ≡ 2
      → b.ref_count ≢ 0
      → b.ref_count < 2 ^ 32 - 1
      → (oo_list_retain (ll inner) l s).1.block l.addr
        ≡ some (record b { ref_count = suc b.ref_count })
  unfolding oo_list_retain
  arena_retained s l b nz found arena some_refs few = ground (arith, found, ==_iff l.addr l.addr)

  -- A payload of an arena is not released.
  arena_not_released :
      (s : Ledger × Lists OoList (Lists A H)) (l : OoList) (b : OoListBlock OoList)
      → s.1.block l.addr ≡ some b
      → b.flags ≡ 2
      → oo_list_release (ll inner) l s ≡ s
  unfolding oo_list_release releasable oo_list_hdr_ok
  arena_not_released s l b found arena = ground (arith, found)

  -- For a list of lists in an arena, with n references: a get at an index inside the list leaves the
  -- payload with n + 1 references, since the retain counts a payload of an arena and the release
  -- does not.
  pub arena_get_counts :
      (s : Ledger × Lists OoList (Lists A H)) (l : OoList) (b : OoListBlock OoList) (k : ℕ)
      → l.addr ≢ 0
      → s.1.block l.addr ≡ some b
      → b.flags ≡ 2
      → b.ref_count ≢ 0
      → b.ref_count < 2 ^ 32 - 1
      → k < l.len
      → (t : Ledger × Lists OoList (Lists A H)) × (oo_list_get (ll inner) l (pos k) s
          ≡ returns (b.items k, t))
        × (t.1.block l.addr ≡ some (record b { ref_count = suc b.ref_count }))
  unfolding oo_list_get get_at read_at
  arena_get_counts s l b k nz found arena some_refs few lt =
      let inside : index (pos k) l.len ≡ some k = ground (arith, lt) in
      let kept : (oo_list_retain (ll inner) l s).1.block l.addr
          ≡ some (record b { ref_count = suc b.ref_count }) =
        arena_retained s l b nz found arena some_refs few in
      (
        oo_list_release (ll inner) l
            (within (oo_list_retain inner (b.items k)) (oo_list_retain (ll inner) l s)),
        rw (inside) (rw (kept) refl),
        rw
            (arena_not_released
              (within (oo_list_retain inner (b.items k)) (oo_list_retain (ll inner) l s)) l
              (record b { ref_count = suc b.ref_count }) kept arena)
            kept,
      )

-- For a payload from the heap at an address that a header fits before, a quota below 2^63 that 128
-- more bytes fit, and a handle without elements: the push of one Int returns, and the release of the
-- list that it made gives its charge back and frees the payload.
pub release-push_new :
    (g : Given ℕ) (v : ℕ) (s : Ledger × Lists ℕ (Unit {0}))
    → g.in_arena ≡ false
    → 16 ≤ g.addr
    → s.0.bytes + 128 ≤ s.0.quota
    → s.0.quota < 2 ^ 63
    → (r : OoList × (Ledger × Lists ℕ (Unit {0}))) × (oo_list_push ilist g list_new v s ≡ returns r)
      × (r.1.0.bytes ≡ s.0.bytes + 128)
      × ((oo_list_release ilist r.0 r.1).0.bytes ≡ s.0.bytes)
      × ((oo_list_release ilist r.0 r.1).1.block r.0.addr ≡ none)
unfolding oo_list_push push_copied new_capacity grow each oo_list_block_bytes oo_list_release
    dropped dispose releasable oo_list_hdr_ok
release-push_new g v s heap far room bound =
    let charged =
      (alloc_charged 8 8 g s heap (λ e. omega (arith, e)) refl (omega arith) bound).1 room in
    let l : OoList = record { addr = g.addr; len = 1; capacity = 8 } in
    let b : OoListBlock ℕ = record {
      ref_count = 1;
      flags = 0;
      items = write (copied 0 (contents (s.1.block 0) g.items) g.items) 0 v;
    } in
    (
      (
        l,
        put g.addr (some b) (
            put g.addr (some (record { ref_count = 1; flags = 0; items = g.items }))
              (record { quota = s.0.quota; bytes = s.0.bytes + 128 }, s.1)),
      ),
      rw (charged) (rw (==_same g.addr) refl),
      refl,
      ground (arith, ==_iff g.addr g.addr, far),
      ground (arith, ==_iff g.addr g.addr, far),
    )

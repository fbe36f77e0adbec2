-- ===== src/Lists/Ops.antt =====
-- core/list/list.c, list_set.c, flist.c and llist.c: push, get, set and the test of equality.
use oodar.Base.{ℕ, zero, suc, ◌*◌, ltb, ◌==◌, if◌then◌else◌, ◌&&◌, ◌||◌}
use oodar.Base.{
  Bool, true, false, Option, none, some, Run, returns, exits, aborts, ◌>>=◌, ℤ, pos, negsuc,
}
use oodar.Lists.{Ledger, OoListBlock, OoList, Lists, Family, put, within, contents, oo_list_owned}
use oodar.Lists.Payload.{Given, oo_list_alloc_payload, oo_list_retain, oo_list_release, each}

-- `while (ncap < need) ncap *= 2`
unfoldable pub grow : ℕ → ℕ → ℕ → ℕ
grow zero ncap need = ncap
grow (suc fuel) ncap need =
    let rest = grow fuel (ncap * 2) need in if ltb ncap need then rest else ncap

-- `cap ? cap : 8`, doubled up to the length that the push needs.
unfoldable pub new_capacity : OoList → ℕ
new_capacity l = grow (suc l.len) (if l.capacity == 0 then 8 else l.capacity) (suc l.len)

-- `i < 0 || i >= len` is refused.
abbrev pub index : ℤ → ℕ → Option ℕ
index (pos k) n = if ltb k n then some k else none
index (negsuc k) n = none

-- The elements that are copied: none from NULL.
abbrev pub shared_len : OoList → ℕ
shared_len l = if l.addr == 0 then 0 else l.len

module _ {ℓ} {A : Type ℓ} where
  abbrev pub write : (ℕ → A) → ℕ → A → ℕ → A
  write items i v j = if j == i then v else items j

  -- `memcpy` of the first `n` elements.
  abbrev pub copied : ℕ → (ℕ → A) → (ℕ → A) → ℕ → A
  copied n from to j = if ltb j n then from j else to j

  abbrev pub with_items : (ℕ → A) → Option (OoListBlock A) → Option (OoListBlock A)
  with_items items none = none
  with_items items (some b) = some (record b { items = items })

  -- The elements of the new payload and its count of 1.
  abbrev pub published : (ℕ → A) → Option (OoListBlock A) → Option (OoListBlock A)
  published items none = none
  published items (some b) = some (record b { ref_count = 1; items = items })

  unfoldable pub same_items : (A → A → Bool) → ℕ → (ℕ → A) → (ℕ → A) → Bool
  same_items same zero f g = true
  same_items same (suc n) f g = same_items same n f g && same (f n) (g n)

module _ {ℓ} {A H : Type ℓ} where
  unfoldable pub push_in_place :
      Family A H → OoList → A → Ledger × Lists A H → OoList × (Ledger × Lists A H)
  push_in_place fam l v s =
      let n : OoList = record l { len = suc l.len } in
      let b = s.1.block l.addr in
      (
        n,
        oo_list_retain fam n (
            within (fam.keep v)
              (put l.addr (with_items (write (contents b (λ j. v)) l.len v) b) s)),
      )

  unfoldable pub push_copied :
      Family A H → Given A → OoList → A → Ledger × Lists A H → Run (OoList × (Ledger × Lists A H))
  push_copied fam g l v s = do
    r ← oo_list_alloc_payload fam.elem_size (new_capacity l) g s
    let from = contents (s.1.block l.addr) g.items
    let items = write (copied (shared_len l) from g.items) l.len v
    returns (
      record { addr = r.0; len = suc l.len; capacity = new_capacity l },
      within (λ h. fam.keep v (each fam.keep from (shared_len l) h))
          (put r.0 (published items (r.1.1.block r.0)) r.1),
    )

  unfoldable pub oo_list_push :
      Family A H → Given A → OoList → A → Ledger × Lists A H → Run (OoList × (Ledger × Lists A H))
  oo_list_push fam g l v s =
      if ltb l.len l.capacity && oo_list_owned s.1.block l.addr
      then returns (push_in_place fam l v s)
      else push_copied fam g l v s

  -- A read where no payload stands is undefined.
  unfoldable pub read_at :
      Family A H
      → OoList
      → ℕ
      → Ledger × Lists A H
      → Option (OoListBlock A)
      → Run (A × (Ledger × Lists A H))
  read_at fam l k s none = aborts
  read_at fam l k s (some b) =
      returns (b.items k, oo_list_release fam l (within (fam.keep (b.items k)) s))

  unfoldable pub get_at :
      Family A H → OoList → Ledger × Lists A H → Option ℕ → Run (A × (Ledger × Lists A H))
  get_at fam l s none = exits 1
  get_at fam l s (some k) = read_at fam l k s (s.1.block l.addr)

  -- The list is retained while it is read. What the release before an exit does is gone with the
  -- process.
  unfoldable pub oo_list_get :
      Family A H → OoList → ℤ → Ledger × Lists A H → Run (A × (Ledger × Lists A H))
  oo_list_get fam l i s = get_at fam l (oo_list_retain fam l s) (index i l.len)

  unfoldable pub set_in_place :
      Family A H → OoList → ℕ → A → Ledger × Lists A H → OoList × (Ledger × Lists A H)
  set_in_place fam l k v s =
      let b = s.1.block l.addr in
      let old = contents b (λ j. v) k in
      (
        l,
        oo_list_retain fam l (
            within (λ h. fam.loose old (fam.keep v h))
              (put l.addr (with_items (write (contents b (λ j. v)) k v) b) s)),
      )

  unfoldable pub each_but :
      (A → Ledger × H → Ledger × H) → ℕ → (ℕ → A) → ℕ → Ledger × H → Ledger × H
  each_but f k items zero h = h
  each_but f k items (suc n) h =
      let rest = each_but f k items n h in if n == k then rest else f (items n) rest

  unfoldable pub set_copied :
      Family A H
      → Given A
      → OoList
      → ℕ
      → A
      → Ledger × Lists A H
      → Run (OoList × (Ledger × Lists A H))
  set_copied fam g l k v s = do
    let ncap = if l.capacity == 0 then l.len else l.capacity
    r ← oo_list_alloc_payload fam.elem_size ncap g s
    let from = contents (s.1.block l.addr) g.items
    let items = write (copied (shared_len l) from g.items) k v
    returns (
      record { addr = r.0; len = l.len; capacity = ncap },
      within (λ h. fam.keep v (each_but fam.keep k from (shared_len l) h))
          (put r.0 (published items (r.1.1.block r.0)) r.1),
    )

  unfoldable pub set_at :
      Family A H
      → Given A
      → OoList
      → A
      → Ledger × Lists A H
      → Option ℕ
      → Run (OoList × (Ledger × Lists A H))
  set_at fam g l v s none = exits 1
  set_at fam g l v s (some k) =
      if oo_list_owned s.1.block l.addr
      then returns (set_in_place fam l k v s)
      else set_copied fam g l k v s

  unfoldable pub oo_list_set :
      Family A H
      → Given A
      → OoList
      → ℤ
      → A
      → Ledger × Lists A H
      → Run (OoList × (Ledger × Lists A H))
  oo_list_set fam g l i v s = set_at fam g l v s (index i l.len)

  -- `d` stands for the elements where no payload stands.
  unfoldable pub oo_list_eq : (A → A → Bool) → OoList → OoList → (ℕ → A) → Ledger × Lists A H → Bool
  oo_list_eq same a b d s =
      if a.len == b.len
      then a.addr == b.addr
        || same_items same a.len (contents (s.1.block a.addr) d) (contents (s.1.block b.addr) d)
      else false

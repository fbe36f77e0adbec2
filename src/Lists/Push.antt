-- ===== src/Lists/Push.antt =====
-- Push: the new handle shows the list with the element at its end, and no other list changes.
use oodar.Base.{ℕ, suc, ◌≡◌, ◌≢◌, subst, refl, arith, ==_iff, Bool-cases, inl, inr}
use oodar.Base.{false, ltb, some, [], ◌∷◌, ◌++◌, ◌&&◌}
use oodar.Base.{returns, >>=-returns, returns-injective, ◌==◌}
use oodar.Lists.{Ledger, OoListBlock, OoList, Lists, Family, put, within, contents, oo_list_owned}
use oodar.Lists.Quota.{Placed, alloc-Placed}
use oodar.Lists.Capacity.{new_capacity_ne_zero}
use oodar.Lists.Payload.{Given, oo_list_retain, each}
use oodar.Lists.Ops.{
  push_in_place, push_copied, oo_list_push, new_capacity, write, copied, shared_len, published,
}
use oodar.Lists.Holds.{
  upto, shown, listed, Valid, shown-retain, upto-write, upto-copied_onto, ==_same, owned-found,
  listed_same, and_right,
}

module _ {ℓ} {A H : Type ℓ} (fam : Family A H) where
  pub push_in_place_shows :
      (l : OoList) (v : A) (s : Ledger × Lists A H) (b : OoListBlock A)
      → s.1.block l.addr ≡ some b
      → listed (push_in_place fam l v s).1.1.block (push_in_place fam l v s).0
        ≡ listed s.1.block l ++ (v ∷ [])
  unfolding listed push_in_place shown upto
  push_in_place_shows l v s b e =
      rw (shown-retain, ==_same l.addr, e, upto-write l.len b.items v, ==_same l.len) refl

  pub push_in_place_keeps :
      (l : OoList) (v : A) (s : Ledger × Lists A H) (b : OoListBlock A)
      → s.1.block l.addr ≡ some b
      → listed (push_in_place fam l v s).1.1.block l ≡ listed s.1.block l
  unfolding listed push_in_place shown
  push_in_place_keeps l v s b e =
      rw (shown-retain, ==_same l.addr, e, upto-write l.len b.items v) refl

  module _ (g : Given A) (l : OoList) (v : A) (s : Ledger × Lists A H) where
    -- The new handle shows the longer list at the new address, and the payloads at other addresses are as before.
    abbrev pub Longer : OoList × (Ledger × Lists A H) → Type ℓ
    Longer t =
        (listed t.1.1.block t.0 ≡ listed s.1.block l ++ (v ∷ []))
        × (t.0.addr ≡ g.addr)
        × ((a : ℕ) → a ≢ g.addr → t.1.1.block a ≡ s.1.block a)

    push_copied_in :
        (p : ℕ × (Ledger × Lists A H)) (f : Ledger × H → Ledger × H)
        → Valid s.1.block l
        → Placed g s p
        → Longer (
          record { addr = p.0; len = suc l.len; capacity = new_capacity l },
          within f (
              put p.0
                (published
                  (write
                    (copied (shared_len l) (contents (s.1.block l.addr) g.items) g.items)
                    l.len
                    v)
                  (p.1.1.block p.0))
                p.1),
        )
    unfolding listed shown upto
    push_copied_in p f ok placed = (
      rw (placed.at, placed.block, ==_same g.addr)
          (rw
            (
              upto-write l.len (copied (shared_len l) (contents (s.1.block l.addr) g.items) g.items)
                  v,
              ==_same l.len,
              upto-copied_onto s.1.block l g.items ok,
            )
            refl),
      placed.at,
      λ a ne.
          let apart : (a == g.addr) ≡ false = ground (arith, ==_iff a g.addr) in
          rw (placed.at, placed.block, apart) refl,
    )

    pub push_copied_shows :
        (r : OoList × (Ledger × Lists A H))
        → Valid s.1.block l
        → push_copied fam g l v s ≡ returns r
        → Longer r
    unfolding push_copied
    push_copied_shows r ok h =
        let (p, alloc, rest) = >>=-returns _ _ h in
        subst Longer (returns-injective rest) (
          push_copied_in p
            (λ q. fam.keep v (each fam.keep (contents (s.1.block l.addr) g.items) (shared_len l) q))
            ok (alloc-Placed fam.elem_size (new_capacity l) g s p (new_capacity_ne_zero l) alloc))

  pub push_in_place_others :
      (l : OoList) (v : A) (s : Ledger × Lists A H) (a : ℕ)
      → a ≢ l.addr
      → (push_in_place fam l v s).1.1.block a ≡ s.1.block a
  unfolding push_in_place oo_list_retain
  push_in_place_others l v s a ne = ground (arith, ==_iff a l.addr)

  -- For NULL with no elements or a handle of a payload, and a new payload that does not stand in
  -- that one's place: where a push returns, the new handle shows the list with the element at its
  -- end, the old handle shows what it showed, and the payloads at other addresses are as before.
  pub oo_list_push_lem :
      (g : Given A) (l : OoList) (v : A) (s : Ledger × Lists A H)
      (r : OoList × (Ledger × Lists A H))
      → Valid s.1.block l
      → l.addr ≢ g.addr
      → oo_list_push fam g l v s ≡ returns r
      → (listed r.1.1.block r.0 ≡ listed s.1.block l ++ (v ∷ []))
        × (listed r.1.1.block l ≡ listed s.1.block l)
        × ((a : ℕ) → a ≢ l.addr → a ≢ g.addr → r.1.1.block a ≡ s.1.block a)
  unfolding oo_list_push
  oo_list_push_lem g l v s r ok apart h =
      elim (Bool-cases (ltb l.len l.capacity && oo_list_owned s.1.block l.addr)) [
        | inl e ↦
            let (b, found) = owned-found s.1.block l.addr (and_right _ _ e) in
            subst
              (λ t.
                (listed t.1.1.block t.0 ≡ listed s.1.block l ++ (v ∷ []))
                × (listed t.1.1.block l ≡ listed s.1.block l)
                × ((a : ℕ) → a ≢ l.addr → a ≢ g.addr → t.1.1.block a ≡ s.1.block a))
              (returns-injective (rw (e) at h))
              (
                push_in_place_shows l v s b found,
                push_in_place_keeps l v s b found,
                λ a ne _. push_in_place_others l v s a ne,
              )
        | inr e ↦
            let (shows, _, others) = push_copied_shows g l v s r ok (rw (e) at h) in
            (
              shows,
              listed_same s.1.block r.1.1.block l (others l.addr apart),
              λ a _ ne. others a ne,
            )
      ]

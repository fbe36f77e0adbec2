-- ===== src/Lists/Set.antt =====
-- Set: the handle that it returns shows the list with the element replaced, and a shared list is
-- copied first.
use oodar.Base.{ℕ, ◌<◌, ◌≡◌, ◌≢◌, subst, refl, sym, ap, ◌∙◌, arith, ==_iff, Bool-cases, inl, inr}
use oodar.Base.{true, false, some, set, if◌then◌else◌}
use oodar.Base.{returns, >>=-returns, returns-injective, ◌==◌, pos}
use oodar.Lists.{Ledger, OoListBlock, OoList, Lists, Family, put, within, contents, oo_list_owned}
use oodar.Lists.Quota.{Placed, alloc-Placed}
use oodar.Lists.Payload.{Given, oo_list_retain}
use oodar.Lists.Ops.{
  index, set_in_place, set_copied, set_at, oo_list_set, write, copied, shared_len, published,
  each_but,
}
use oodar.Lists.Holds.{
  shown, listed, Valid, shown-retain, upto-write_inside, upto-copied_onto, ==_same, owned-found,
  listed_same,
}

true_ne_false : true ≢ false
true_ne_false e = cc

module _ {ℓ} {A H : Type ℓ} (fam : Family A H) where
  set_in_place_shows :
      (l : OoList) (k : ℕ) (v : A) (s : Ledger × Lists A H) (b : OoListBlock A)
      → k < l.len
      → s.1.block l.addr ≡ some b
      → listed (set_in_place fam l k v s).1.1.block (set_in_place fam l k v s).0
        ≡ set (listed s.1.block l) k v
  unfolding listed set_in_place shown
  set_in_place_shows l k v s b lt e =
      rw (shown-retain, ==_same l.addr, e) (upto-write_inside l.len k b.items v lt)

  set_in_place_others :
      (l : OoList) (k : ℕ) (v : A) (s : Ledger × Lists A H) (a : ℕ)
      → a ≢ l.addr
      → (set_in_place fam l k v s).1.1.block a ≡ s.1.block a
  unfolding set_in_place oo_list_retain
  set_in_place_others l k v s a ne = ground (arith, ==_iff a l.addr)

  module _ (g : Given A) (l : OoList) (k : ℕ) (v : A) (s : Ledger × Lists A H) where
    -- The new handle shows the replaced list, and the payloads at other addresses are as before.
    abbrev Replaced : OoList × (Ledger × Lists A H) → Type ℓ
    Replaced t =
        (listed t.1.1.block t.0 ≡ set (listed s.1.block l) k v)
        × ((a : ℕ) → a ≢ g.addr → t.1.1.block a ≡ s.1.block a)

    set_copied_in :
        (p : ℕ × (Ledger × Lists A H)) (f : Ledger × H → Ledger × H) (n : ℕ)
        → k < l.len
        → Valid s.1.block l
        → Placed g s p
        → Replaced (
          record { addr = p.0; len = l.len; capacity = n },
          within f (
              put p.0
                (published
                  (write (copied (shared_len l) (contents (s.1.block l.addr) g.items) g.items) k v)
                  (p.1.1.block p.0))
                p.1),
        )
    unfolding listed shown
    set_copied_in p f n lt ok placed = (
      rw (placed.at, placed.block, ==_same g.addr)
          (rw
            (upto-write_inside l.len k
              (copied (shared_len l) (contents (s.1.block l.addr) g.items) g.items) v lt)
            (ap (λ xs. set xs k v) (upto-copied_onto s.1.block l g.items ok))),
      λ a ne.
          let apart : (a == g.addr) ≡ false = ground (arith, ==_iff a g.addr) in
          rw (placed.at, placed.block, apart) refl,
    )

    set_copied_shows :
        (r : OoList × (Ledger × Lists A H))
        → k < l.len
        → Valid s.1.block l
        → set_copied fam g l k v s ≡ returns r
        → Replaced r
    unfolding set_copied
    set_copied_shows r lt ok h =
        let (p, alloc, rest) = >>=-returns _ _ h in
        let n = if l.capacity == 0 then l.len else l.capacity in
        subst Replaced (returns-injective rest) (
          set_copied_in p
            (λ q.
              fam.keep v
                (each_but fam.keep k (contents (s.1.block l.addr) g.items) (shared_len l) q))
            n lt ok
            (alloc-Placed fam.elem_size n g s p (λ e. ground (arith, e, ==_iff l.capacity 0))
              alloc))

    -- For an index inside the list, NULL with no elements or a handle of a payload, and a new payload
    -- that does not stand in that one's place: where a set returns, the handle that it returns shows
    -- the list with the element replaced, a list whose payload is not owned alone still shows what it
    -- showed, and the payloads at other addresses are as before.
    pub oo_list_set_lem :
        (r : OoList × (Ledger × Lists A H))
        → k < l.len
        → Valid s.1.block l
        → l.addr ≢ g.addr
        → oo_list_set fam g l (pos k) v s ≡ returns r
        → (listed r.1.1.block r.0 ≡ set (listed s.1.block l) k v)
          × (oo_list_owned s.1.block l.addr ≡ false → listed r.1.1.block l ≡ listed s.1.block l)
          × ((a : ℕ) → a ≢ l.addr → a ≢ g.addr → r.1.1.block a ≡ s.1.block a)
    unfolding oo_list_set set_at
    oo_list_set_lem r lt ok apart h =
        let inside : index (pos k) l.len ≡ some k = ground (arith, lt) in
        let h1 = rw (inside) at h in
        elim (Bool-cases (oo_list_owned s.1.block l.addr)) [
          | inl e ↦
              let (b, found) = owned-found s.1.block l.addr e in
              subst
                (λ t.
                  (listed t.1.1.block t.0 ≡ set (listed s.1.block l) k v)
                  × (oo_list_owned s.1.block l.addr ≡ false
                      → listed t.1.1.block l ≡ listed s.1.block l)
                  × ((a : ℕ) → a ≢ l.addr → a ≢ g.addr → t.1.1.block a ≡ s.1.block a))
                (returns-injective (rw (e) at h1))
                (
                  set_in_place_shows l k v s b lt found,
                  λ shared. absurd (true_ne_false (sym e ∙ shared)),
                  λ a ne _. set_in_place_others l k v s a ne,
                )
          | inr e ↦
              let (shows, others) = set_copied_shows r lt ok (rw (e) at h1) in
              (
                shows,
                λ _. listed_same s.1.block r.1.1.block l (others l.addr apart),
                λ a _ ne. others a ne,
              )
        ]

-- ===== src/Lists/Slice/Laws.antt =====
-- The slice of a list is the part of its elements that the bounds name.
use oodar.Base.{
  ℕ, zero, suc, ◌-◌, ◌≡◌, ◌≢◌, ◌⊎◌, subst, refl, sym, ap, ◌∙◌, arith, ==_iff, Bool-cases, inl, inr,
}
use oodar.Base.{
  true, false, Option, none, some, List, [], ◌∷◌, ◌++◌, ◌&&◌, append_assoc, append-nil, take, drop,
  min, pos_part, ltb,
}
use oodar.Base.{returns, >>=-returns, returns-injective, ◌==◌, ℤ}
use oodar.Lists.{
  Ledger, OoListBlock, OoList, Lists, Family, list_new, contents, oo_list_owned, oo_list_hdr_ok,
}
use oodar.Lists.Payload.{Given, oo_list_retain, oo_list_release, releasable, dropped, dispose}
use oodar.Lists.Ops.{push_in_place, oo_list_push}
use oodar.Lists.Holds.{upto, shown, listed, Valid, live, null, and_right, owned-found, listed_same}
use oodar.Lists.Push.{push_in_place_shows, push_in_place_others, push_copied_shows}
use oodar.Lists.Slice.Segment.{segment, segment-bounds, listed-list_new}
use oodar.Lists.Slice.{slice_loop, oo_list_slice}

module _ {A H : Type 0} (fam : Family A H) where
  -- A release without the header check goes with a retain that counts every payload but a static one.
  abbrev pub Paired : Type 0
  Paired = fam.unchecked ≡ true → fam.static_only ≡ true

  release_others :
      (l : OoList) (s : Ledger × Lists A H) (a : ℕ)
      → a ≢ l.addr
      → (oo_list_release fam l s).1.block a ≡ s.1.block a
  unfolding oo_list_release releasable dropped dispose
  release_others l s a ne = ground (arith, ==_iff a l.addr)

  -- After a push in place the release of the old handle leaves the payload.
  in_place_released :
      (l : OoList) (v : A) (s : Ledger × Lists A H)
      → Paired
      → oo_list_owned s.1.block l.addr ≡ true
      → listed
          (oo_list_release fam l (push_in_place fam l v s).1).1.block
          (push_in_place fam l v s).0
        ≡ listed (push_in_place fam l v s).1.1.block (push_in_place fam l v s).0
  unfolding listed shown oo_list_release releasable dropped oo_list_hdr_ok oo_list_owned
      push_in_place oo_list_retain
  in_place_released l v s pair owned = ground (arith, pair, ==_iff l.addr l.addr)

  owned_addr : (block : ℕ → Option (OoListBlock A)) (a : ℕ) → oo_list_owned block a ≡ true → a ≢ 0
  unfolding oo_list_owned
  owned_addr block a h z = ground (arith, h, z, ==_iff a 0)

  shown_live :
      (n : ℕ) (o : Option (OoListBlock A)) (xs : List A) (v : A)
      → shown n o ≡ xs ++ (v ∷ [])
      → (b : OoListBlock A) × (o ≡ some b)
  unfolding shown
  shown_live n none [] v h = cc
  shown_live n none (x ∷ xs) v h = cc
  shown_live n (some b) xs v h = (b, refl)

  module _ (g : Given A) (o : OoList) (v : A) (s : Ledger × Lists A H) where
    -- A push and the release of the old handle: the new handle shows the longer list, it stands in
    -- the old or the new payload, and the others are as before.
    abbrev Stepped : OoList × (Ledger × Lists A H) → Type 0
    Stepped t =
        (listed (oo_list_release fam o t.1).1.block t.0 ≡ listed s.1.block o ++ (v ∷ []))
        × Valid (oo_list_release fam o t.1).1.block t.0
        × ((t.0.addr ≡ o.addr) ⊎ (t.0.addr ≡ g.addr))
        × ((a : ℕ) → a ≢ o.addr → a ≢ g.addr → (oo_list_release fam o t.1).1.block a ≡ s.1.block a)

    Stepped-listed :
        (t : OoList × (Ledger × Lists A H))
        → t.0.addr ≢ 0
        → listed (oo_list_release fam o t.1).1.block t.0 ≡ listed s.1.block o ++ (v ∷ [])
        → (t.0.addr ≡ o.addr) ⊎ (t.0.addr ≡ g.addr)
        → ((a : ℕ) → a ≢ o.addr → a ≢ g.addr → t.1.1.block a ≡ s.1.block a)
        → Stepped t
    unfolding listed
    Stepped-listed t nz shows stands others =
        let (b, found) = shown_live t.0.len _ _ v shows in
        (shows, live b nz found, stands, λ a ne nf. release_others o t.1 a ne ∙ others a ne nf)

    push-Stepped :
        (r : OoList × (Ledger × Lists A H))
        → Paired
        → Valid s.1.block o
        → o.addr ≢ g.addr
        → g.addr ≢ 0
        → oo_list_push fam g o v s ≡ returns r
        → Stepped r
    unfolding oo_list_push push_in_place
    push-Stepped r pair ok apart nz h =
        elim (Bool-cases (ltb o.len o.capacity && oo_list_owned s.1.block o.addr)) [
          | inl e ↦
              let owned = and_right _ _ e in
              let (b, found) = owned-found s.1.block o.addr owned in
              subst Stepped (returns-injective (rw (e) at h)) (
                Stepped-listed (push_in_place fam o v s) (owned_addr s.1.block o.addr owned)
                  (in_place_released o v s pair owned ∙ push_in_place_shows fam o v s b found)
                  (inl refl) (λ a ne _. push_in_place_others fam o v s a ne))
          | inr e ↦
              let (shows, at, others) = push_copied_shows fam g o v s r ok (rw (e) at h) in
              Stepped-listed r (λ z. nz (sym at ∙ z))
                (listed_same r.1.1.block (oo_list_release fam o r.1).1.block r.0
                    (release_others o r.1 r.0.addr (λ q. apart (sym q ∙ at)))
                  ∙ shows)
                (inr at) (λ a _ ne. others a ne)
        ]

  -- What the allocator gives to each push of the slice, whether or not the push asks for it, is not
  -- null, and no payload stands there at the time of the push. The address of a payload that an
  -- earlier push has outgrown may come back.
  unfoldable pub Fresh : (ℕ → Given A) → OoList → ℕ → ℕ → OoList → Ledger × Lists A H → Type 0
  Fresh given l i zero o s = Unit
  Fresh given l i (suc n) o s =
      ((given i).addr ≢ 0)
      × (s.1.block (given i).addr ≡ none)
      × ((p : OoList × (Ledger × Lists A H))
          → oo_list_push fam (given i) o (contents (s.1.block l.addr) (given i).items i) s
            ≡ returns p
          → Fresh given l (suc i) n p.0 (oo_list_release fam o p.1))

  no_block : {b : OoListBlock A} (o : Option (OoListBlock A)) → o ≡ some b → o ≡ none → ⊥
  no_block none e n = cc
  no_block (some b) e n = cc

  -- The handle stands elsewhere than what the allocator gives.
  Valid-apart :
      (block : ℕ → Option (OoListBlock A)) (o : OoList) (a : ℕ)
      → Valid block o
      → a ≢ 0
      → block a ≡ none
      → o.addr ≢ a
  Valid-apart block o a (null z _) nz free e = nz (sym e ∙ z)
  Valid-apart block o a (live b _ found) nz free e =
      no_block (block o.addr) found (ap block e ∙ free)

  module _ (given : ℕ → Given A) (l : OoList) (b : OoListBlock A) (pair : Paired) where
    slice_loop_lem :
        (n i : ℕ) (o : OoList) (s : Ledger × Lists A H) (r : OoList × (Ledger × Lists A H))
        → Fresh given l i n o s
        → s.1.block l.addr ≡ some b
        → Valid s.1.block o
        → o.addr ≢ l.addr
        → slice_loop fam given l i n o s ≡ returns r
        → (listed r.1.1.block r.0 ≡ listed s.1.block o ++ segment i n b.items)
          × (r.1.1.block l.addr ≡ some b)
    unfolding slice_loop segment Fresh
    slice_loop_lem zero i o s r fresh found ok ne h =
        subst
          (λ t. (listed t.1.1.block t.0 ≡ listed s.1.block o ++ []) × (t.1.1.block l.addr ≡ some b))
          (returns-injective h) (sym (append-nil (listed s.1.block o)), found)
    slice_loop_lem (suc n) i o s r (nz, free, later) found ok ne h =
        let (p, pushed, rest) = >>=-returns _ _ h in
        let h1 : oo_list_push fam (given i) o (b.items i) s ≡ returns p =
          subst (λ q. oo_list_push fam (given i) o (contents q (given i).items i) s ≡ returns p)
            found pushed in
        let other : (given i).addr ≢ l.addr =
          λ e. no_block (s.1.block l.addr) found (ap s.1.block (sym e) ∙ free) in
        let (shows, valid, stands, others) =
          push-Stepped (given i) o (b.items i) s p pair ok
            (Valid-apart s.1.block o (given i).addr ok nz free) nz h1 in
        let (longer, stays) =
          slice_loop_lem n (suc i) p.0 (oo_list_release fam o p.1) r (later p pushed)
            (others l.addr (λ q. ne (sym q)) (λ q. other (sym q)) ∙ found) valid
            (elim stands [ inl q ↦ λ z. ne (sym q ∙ z) | inr q ↦ λ z. other (sym q ∙ z) ]) rest in
        (
          longer
              ∙ (rw (shows)
                  (append_assoc (listed s.1.block o) (b.items i ∷ []) (segment (suc i) n b.items))),
          stays,
        )

    -- For a family with the header check or the lax retain, a list whose payload stands, and an
    -- allocator that gives each push an address that is not null and where no payload stands: where the
    -- slice returns, the new handle shows the elements of the list between the bounds, and the list is
    -- as before.
    pub oo_list_slice_lem :
        (lo hi : ℤ) (s : Ledger × Lists A H) (r : OoList × (Ledger × Lists A H))
        → Fresh given l (pos_part lo) (min (pos_part hi) l.len - pos_part lo) list_new s
        → l.addr ≢ 0
        → s.1.block l.addr ≡ some b
        → oo_list_slice fam given l lo hi s ≡ returns r
        → (listed r.1.1.block r.0
            ≡ take
                (min (pos_part hi) l.len - pos_part lo)
                (drop (pos_part lo) (listed s.1.block l)))
          × (listed r.1.1.block l ≡ listed s.1.block l)
    unfolding oo_list_slice listed shown
    oo_list_slice_lem lo hi s r fresh nz found h =
        let a = pos_part lo in
        let n = min (pos_part hi) l.len - pos_part lo in
        let there : (l.addr == 0) ≡ false = ground (arith, ==_iff l.addr 0) in
        let (shows, stays) =
          slice_loop_lem n a list_new s r fresh found (null refl refl) (λ z. nz (sym z))
            (rw (there) at h) in
        let listed_found : listed s.1.block l ≡ upto l.len b.items = ap (shown l.len) found in
        (
          shows
              ∙ (rw (listed-list_new s.1.block, listed_found)
                  (segment-bounds a l.len (pos_part hi) b.items)),
          listed_same s.1.block r.1.1.block l (stays ∙ sym found),
        )

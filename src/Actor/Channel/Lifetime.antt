-- ===== src/Actor/Channel/Lifetime.antt =====
-- Opening a channel and destroying it.
use oodar.Base.{ℕ, zero, suc, ◌+◌, ◌%◌, ◌<◌, ◌≡◌, ◌≢◌, refl, arith, ap, ◌∙◌, sym, ℤ, slot_of, ◌==◌}
use oodar.Base.{
  true, false, List, [], ◌∷◌, length, length-set, get_or, get_or-set_self, get_or-set_ne, some,
  none, if◌then◌else◌,
}
use oodar.Base.{Option-cases, ◌⊎◌, returns, subst, Bool-cases, inl, inr}
use oodar.Cap.Tokens.{CapKind, CapState}
use oodar.Cap.Gates.{oo_cap_require_kind}
use oodar.Str.Ref.{OoStr, StrHeap, oo_str_release}
use oodar.Actor.Channel.{
  OoChannel, Channels, ok, ok_slot, err, no_str, idle, channel, put, ch_alloc_slot, opened,
  oo_channel_new, oo_channel_destroy, drain, destroy_in,
}
use oodar.Actor.Ring.{ring_from}
use oodar.Actor.Channel.Refine.{IsRing, queued}
use oodar.Actor.Channel.Fifo.{IsLive}

-- Each message with a payload is released, in order.
unfoldable pub release_all : List OoStr → StrHeap → StrHeap
release_all [] h = h
release_all (m ∷ ms) h = release_all ms (if m.addr == 0 then h else oo_str_release h m)

drain_lem :
    (n head : ℕ) (msgs : List OoStr) (h : StrHeap)
    → drain n head msgs h ≡ release_all (ring_from no_str msgs head n) h
unfolding drain release_all
drain_lem zero head msgs h = refl
drain_lem (suc n) head msgs h =
    drain_lem n ((head + 1) % 8) msgs (
      if (get_or msgs head no_str).addr == 0 then h else oo_str_release h (get_or msgs head no_str))

abbrev AllLive : List OoChannel → ℕ → Type 0
AllLive l n = (j : ℕ) → j < n → (get_or l j idle).live ≡ true

AllLive-cons :
    (c : OoChannel) (l : List OoChannel) (n : ℕ)
    → c.live ≡ true
    → AllLive l n
    → AllLive (c ∷ l) (suc n)
AllLive-cons c l n up all zero lt = up
AllLive-cons c l n up all (suc j) lt = all j (omega arith)

skip_live :
    (c : OoChannel) (l : List OoChannel) (i : ℕ)
    → c.live ≡ true
    → ch_alloc_slot (c ∷ l) i ≡ ch_alloc_slot l (i + 1)
unfolding ch_alloc_slot
skip_live c l i up = rw up refl

take_free :
    (c : OoChannel) (l : List OoChannel) (i : ℕ) → c.live ≡ false → ch_alloc_slot (c ∷ l) i ≡ some i
unfolding ch_alloc_slot
take_free c l i down = rw down refl

-- A slot found free is the first one; the table is full when none is found.
alloc_found :
    (l : List OoChannel) (i k : ℕ)
    → ch_alloc_slot l i ≡ some k
    → (d : ℕ) × (i + d ≡ k) × (d < length l) × ((get_or l d idle).live ≡ false) × AllLive l d
unfolding ch_alloc_slot
alloc_found [] i k e = cc
alloc_found (c ∷ l) i k e = elim (Bool-cases c.live) [
  | inl up ↦
      let (d, at, room, free, all) = alloc_found l (i + 1) k (sym (skip_live c l i up) ∙ e) in
      (suc d, omega arith, omega arith, free, AllLive-cons c l d up all)
  | inr down ↦ (0, ground (arith, take_free c l i down), omega arith, down, λ j lt. elim lt [ ])
]

alloc_full : (l : List OoChannel) (i : ℕ) → ch_alloc_slot l i ≡ none → AllLive l (length l)
unfolding ch_alloc_slot
alloc_full [] i e = λ j lt. elim lt [ ]
alloc_full (c ∷ l) i e = elim (Bool-cases c.live) [
  | inl up ↦ AllLive-cons c l (length l) up (alloc_full l (i + 1) (sym (skip_live c l i up) ∙ e))
  | inr down ↦ cc (sym (take_free c l i down) ∙ e)
]

abbrev emptied : Channels → ℕ → OoChannel
emptied s i = record (channel s i) { head = 0; tail = 0; count = 0; live = true }

emptied-IsRing : (s : Channels) (i : ℕ) → length (channel s i).msgs ≡ 8 → IsRing (emptied s i)
emptied-IsRing s i eight = record {
  eight = eight;
  head_in = omega arith;
  count_in = omega arith;
  tail_at = refl;
}

-- Which slot a new channel takes, and what it leaves: with a thread token that opens the gate and 16
-- slots of 8 messages, `oo_channel_new` returns. It takes the first slot that is not live, which then holds the
-- empty queue, and no other slot and no payload changes; when every slot is live it refuses and
-- nothing changes.
pub oo_channel_new_lem :
    (caps : CapState) (token : ℕ) (s : Channels)
    → oo_cap_require_kind CapKind.thread caps token ≡ returns caps
    → length s.chs ≡ 16
    → ((j : ℕ) → j < 16 → length (channel s j).msgs ≡ 8)
    → ((i : ℕ) × (s' : Channels) × (oo_channel_new caps token s ≡ returns (ok_slot i, s'))
        × ((channel s i).live ≡ false)
        × AllLive s.chs i
        × IsLive s' i
        × (queued (channel s' i) ≡ [])
        × ((j : ℕ) → j ≢ i → channel s' j ≡ channel s j)
        × (s'.heap ≡ s.heap))
      ⊎ ((oo_channel_new caps token s ≡ returns (err "channel_new: no free slot", s))
          × AllLive s.chs 16)
unfolding oo_channel_new opened
oo_channel_new_lem caps token s opens sixteen eights = elim (Option-cases (ch_alloc_slot s.chs 0)) [
  | inl full ↦
      inr (rw (opens, full) refl, λ j lt. alloc_full s.chs 0 full j (omega (arith, sixteen)))
  | inr (k, found) ↦
      let (d, at, room, free, all) = alloc_found s.chs 0 k found in
      let same : d ≡ k = omega arith in
      let here : channel (put s k (emptied s k)) k ≡ emptied s k =
        get_or-set_self s.chs k (emptied s k) idle (omega arith) in
      inl (
        k,
        put s k (emptied s k),
        rw (opens, found) refl,
        ap (λ j. (channel s j).live) (sym same) ∙ free,
        subst (AllLive s.chs) same all,
        record {
          sixteen = length-set s.chs k (emptied s k) ∙ sixteen;
          index_in = omega arith;
          is_live = ap (λ c. c.live) here;
          ring = subst IsRing (sym here) (emptied-IsRing s k (eights k (omega arith)));
        },
        ap queued here,
        λ j ne. get_or-set_ne s.chs k j (emptied s k) idle (λ e. ne (sym e)),
        refl,
      )
]

-- Destroying a live channel with a thread token that opens the gate releases exactly the messages in
-- its queue, oldest first, and closes the slot; no other slot changes.
pub oo_channel_destroy_lem :
    (caps : CapState) (token i : ℕ) (id : ℤ) (s : Channels)
    → oo_cap_require_kind CapKind.thread caps token ≡ returns caps
    → slot_of 16 id ≡ some i
    → IsLive s i
    → (s' : Channels) × (oo_channel_destroy caps token id s ≡ returns (ok "destroyed", s'))
      × (s'.heap ≡ release_all (queued (channel s i)) s.heap)
      × ((channel s' i).live ≡ false)
      × ((j : ℕ) → j ≢ i → channel s' j ≡ channel s j)
unfolding oo_channel_destroy destroy_in
oo_channel_destroy_lem caps token i id s opens at v =
    let c = channel s i in
    let closed : OoChannel = record c { live = false; head = 0; tail = 0; count = 0 } in
    (
      record (put s i closed) { heap = drain c.count c.head c.msgs s.heap },
      rw (opens, at, v.is_live) refl,
      drain_lem c.count c.head c.msgs s.heap,
      ap (λ c'. c'.live)
          (get_or-set_self s.chs i closed idle (omega (arith, v.sixteen, v.index_in))),
      λ j ne. get_or-set_ne s.chs i j closed idle (λ e. ne (sym e)),
    )

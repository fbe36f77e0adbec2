-- ===== src/Mem/Arena/Payload/Pop.antt =====
-- Popping dead frames off the top of a slot.
use oodar.Base.{
  ℕ, zero, suc, ◌≤◌, ◌≡◌, ◌≢◌, refl, arith, subst, ap, ◌∙◌, sym, ◌==◌, if◌then◌else◌, ==_iff,
  Bool-cases, inl, inr, true, false, List, [], ◌∷◌, length, Option, some, if_of_true, if_of_false,
}
use oodar.Mem.Arena.{OoArenaBlockHdr, OoArena, no_top}
use oodar.Mem.Arena.Payload.{pop_dead}

-- The frames of a slot from the offset `top` on, each behind the one that links to it.
pub data Linked (hdr : ℕ → Option OoArenaBlockHdr) : ℕ → List OoArenaBlockHdr → Type 0 where
  bottom : Linked hdr no_top []
  frame :
      {top : ℕ} {rest : List OoArenaBlockHdr} (h : OoArenaBlockHdr)
      → top ≢ no_top
      → hdr top ≡ some h
      → Linked hdr h.prev rest
      → Linked hdr top (h ∷ rest)

-- The frames from the first one on that is alive, and the bump pointer once those before it are gone.
abbrev pub from_live : List OoArenaBlockHdr → List OoArenaBlockHdr
from_live [] = []
from_live (h ∷ rest) = let on = from_live rest in if h.dead then on else (h ∷ rest)

abbrev pub off_at_live : ℕ → List OoArenaBlockHdr → ℕ
off_at_live off [] = off
off_at_live off (h ∷ rest) = let on = off_at_live h.cur rest in if h.dead then on else off

-- What is left of a slot with these frames.
pub record Unwound (a b : OoArena) (frames : List OoArenaBlockHdr) : Type 0 where
  pub left : Linked b.hdr b.top_cur (from_live frames)
  pub off_back : b.off ≡ off_at_live a.off frames
  pub headers : b.hdr ≡ a.hdr

stays : (fuel : ℕ) (a : OoArena) → a.top_cur ≡ no_top → pop_dead fuel a ≡ a
unfolding pop_dead
stays zero a e = refl
stays (suc fuel) a e = if_of_true _ _ ((==_iff a.top_cur no_top).1 e)

step :
    (fuel : ℕ) (a : OoArena) (h : OoArenaBlockHdr)
    → a.top_cur ≢ no_top
    → a.hdr a.top_cur ≡ some h
    → pop_dead (suc fuel) a
      ≡ (if h.dead then pop_dead fuel (record a { off = h.cur; top_cur = h.prev }) else a)
unfolding pop_dead
step fuel a h ne e = elim (Bool-cases (a.top_cur == no_top)) [
  | inl top ↦ absurd (ne ((==_iff a.top_cur no_top).0 top))
  | inr some_left ↦ rw (some_left, e) refl
]

live_first :
    (a : OoArena) (h : OoArenaBlockHdr) (rest : List OoArenaBlockHdr)
    → h.dead ≡ false
    → Linked a.hdr a.top_cur (h ∷ rest)
    → Unwound a a (h ∷ rest)
live_first a h rest live linked = record {
  left = subst (λ hs. Linked a.hdr a.top_cur hs) (sym (if_of_false _ _ live)) linked;
  off_back = sym (if_of_false _ _ live);
  headers = refl;
}

dead_first :
    (a b : OoArena) (h : OoArenaBlockHdr) (rest : List OoArenaBlockHdr)
    → h.dead ≡ true
    → Unwound (record a { off = h.cur; top_cur = h.prev }) b rest
    → Unwound a b (h ∷ rest)
dead_first a b h rest dead w = record {
  left = subst (λ hs. Linked b.hdr b.top_cur hs) (sym (if_of_true _ _ dead)) w.left;
  off_back = w.off_back ∙ sym (if_of_true _ _ dead);
  headers = w.headers;
}

unwinds :
    (hdr : ℕ → Option OoArenaBlockHdr) (fuel : ℕ) (a : OoArena) {top : ℕ}
    {frames : List OoArenaBlockHdr}
    → a.hdr ≡ hdr
    → a.top_cur ≡ top
    → Linked hdr top frames
    → length frames ≤ fuel
    → Unwound a (pop_dead fuel a) frames
unwinds hdr fuel a same at bottom enough =
    rw (stays fuel a at) (record { left = rw at bottom; off_back = refl; headers = refl })
unwinds hdr zero a same at (frame h ne found below) enough = absurd (omega arith)
unwinds hdr (suc fuel) a same at (frame {top = top} {rest = rest} h ne found below) enough =
    let at_top : a.hdr a.top_cur ≡ some h = ap (λ t. a.hdr t) at ∙ ap (λ f. f top) same ∙ found in
    subst (λ b. Unwound a b (h ∷ rest)) (sym (step fuel a h (λ z. ne (sym at ∙ z)) at_top))
      (elim (Bool-cases h.dead) [
        | inl dead ↦
            subst (λ b. Unwound a b (h ∷ rest)) (sym (if_of_true _ _ dead))
              (dead_first a _ h rest dead (
                unwinds hdr fuel (record a { off = h.cur; top_cur = h.prev }) same refl below
                  (omega arith)))
        | inr live ↦
            subst (λ b. Unwound a b (h ∷ rest)) (sym (if_of_false _ _ live))
              (live_first a h rest live (
                subst (λ t. Linked a.hdr t (h ∷ rest)) (sym at)
                  (subst (λ f. Linked f top (h ∷ rest)) (sym same) (frame h ne found below))))
      ])

-- With at least as much fuel as the slot has frames, popping takes off exactly the dead frames above
-- the first live one: that one and all below it stay, dead or not, the bump pointer goes back to the
-- start of the last frame that was taken off, or stays where none was, and no header changes.
pub pop_dead-Unwound :
    (fuel : ℕ) (a : OoArena) (frames : List OoArenaBlockHdr)
    → Linked a.hdr a.top_cur frames
    → length frames ≤ fuel
    → Unwound a (pop_dead fuel a) frames
pop_dead-Unwound fuel a frames linked enough = unwinds a.hdr fuel a refl refl linked enough

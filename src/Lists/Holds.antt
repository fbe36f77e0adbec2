-- ===== src/Lists/Holds.antt =====
-- The elements that a handle shows, and what push and set do to them.
use oodar.Base.{
  ℕ, zero, suc, ◌<◌, ◌≡◌, ◌≢◌, subst, refl, sym, ap, arith, ==_iff, Bool-cases, inl, inr,
}
use oodar.Base.{
  Bool, ◌&&◌, true, false, ltb, Option, none, some, Option-cases, List, [], ◌∷◌, ◌++◌, set, length,
  length-append, set-append_left, set-append_length, get_elem?, get_elem?-append_left,
  get_elem?-append_length,
}
use oodar.Base.{◌==◌, get_elem?}
use oodar.Lists.{Ledger, OoListBlock, OoList, Lists, Family, contents, oo_list_owned}
use oodar.Lists.Payload.{oo_list_retain}
use oodar.Lists.Ops.{write, copied, shared_len}

pub ==_same : (a : ℕ) → (a == a) ≡ true
==_same a = ground arith

pub and_right : (a b : Bool) → (a && b) ≡ true → b ≡ true
and_right true b h = h
and_right false b h = cc

module _ {ℓ} {A : Type ℓ} where
  -- The first n elements, in order.
  unfoldable pub upto : ℕ → (ℕ → A) → List A
  upto zero f = []
  upto (suc n) f = upto n f ++ (f n ∷ [])

  unfoldable pub shown : ℕ → Option (OoListBlock A) → List A
  unfolding upto
  shown n none = []
  shown n (some b) = upto n b.items

  -- The elements of the list that a handle stands for.
  unfoldable pub listed : (ℕ → Option (OoListBlock A)) → OoList → List A
  unfolding shown
  listed block l = shown l.len (block l.addr)

  -- NULL and no elements, or a payload.
  pub data Valid (block : ℕ → Option (OoListBlock A)) (l : OoList) : Type ℓ where
    null : l.addr ≡ 0 → l.len ≡ 0 → Valid block l
    live : (b : OoListBlock A) → l.addr ≢ 0 → block l.addr ≡ some b → Valid block l

  pub upto-cong : (n : ℕ) (f g : ℕ → A) → ((j : ℕ) → j < n → f j ≡ g j) → upto n f ≡ upto n g
  unfolding upto
  upto-cong zero f g h = refl
  upto-cong (suc n) f g h =
      let e : upto n f ≡ upto n g = upto-cong n f g (λ j q. h j (omega arith)) in
      rw (e, h n (omega arith)) refl

  pub upto-write : (n : ℕ) (f : ℕ → A) (v : A) → upto n (write f n v) ≡ upto n f
  upto-write n f v = upto-cong n (write f n v) f (λ j q. ground (arith, ==_iff j n))

  pub upto-copied : (n : ℕ) (f g : ℕ → A) → upto n (copied n f g) ≡ upto n f
  upto-copied n f g = upto-cong n (copied n f g) f (λ j q. ground arith)

  pub length-upto : (n : ℕ) (f : ℕ → A) → length (upto n f) ≡ n
  unfolding upto
  length-upto zero f = refl
  length-upto (suc n) f = omega (arith, length-append (upto n f) (f n ∷ []), length-upto n f)

  pub upto-copied_onto :
      (block : ℕ → Option (OoListBlock A)) (l : OoList) (d : ℕ → A)
      → Valid block l
      → upto l.len (copied (shared_len l) (contents (block l.addr) d) d) ≡ listed block l
  unfolding listed shown upto
  upto-copied_onto block l d (null zero_addr no_items) = elim (Option-cases (block l.addr)) [
    | inl e ↦ rw (no_items, e) refl
    | inr (b, e) ↦ rw (no_items, e) refl
  ]
  upto-copied_onto block l d (live b nz found) =
      let all : shared_len l ≡ l.len = ground (arith, ==_iff l.addr 0) in
      rw (all, found) (upto-copied l.len b.items d)

  pub get_elem?-upto : (n k : ℕ) (f : ℕ → A) → k < n → get_elem? (upto n f) k ≡ some (f k)
  unfolding upto
  get_elem?-upto zero k f lt = elim lt [ ]
  get_elem?-upto (suc n) k f lt = elim (Bool-cases (ltb k n)) [
    | inl e ↦
        rw
          (get_elem?-append_left (upto n f) (f n ∷ []) k
            (subst (λ m. k < m) (sym (length-upto n f)) (ground (arith, e))))
          (get_elem?-upto n k f (ground (arith, e)))
    | inr e ↦
        let last : k ≡ n = ground (arith, e) in
        rw (last) (get_elem?-append_length (upto n f) (f n) n (sym (length-upto n f)))
  ]

  pub upto-write_inside :
      (n k : ℕ) (f : ℕ → A) (v : A) → k < n → upto n (write f k v) ≡ set (upto n f) k v
  unfolding upto
  upto-write_inside zero k f v lt = elim lt [ ]
  upto-write_inside (suc n) k f v lt = elim (Bool-cases (ltb k n)) [
    | inl e ↦
        let apart : (n == k) ≡ false = ground (arith, e, ==_iff n k) in
        rw (apart, upto-write_inside n k f v (ground (arith, e)))
          (sym (
            set-append_left (upto n f) (f n ∷ []) k v
              (subst (λ m. k < m) (sym (length-upto n f)) (ground (arith, e)))))
    | inr e ↦
        let last : k ≡ n = ground (arith, e) in
        rw (last, ==_same n, upto-write n f v)
          (sym (set-append_length (upto n f) (f n) v n (sym (length-upto n f))))
  ]

  pub owned-found :
      (block : ℕ → Option (OoListBlock A)) (a : ℕ)
      → oo_list_owned block a ≡ true
      → (b : OoListBlock A) × (block a ≡ some b)
  unfolding oo_list_owned
  owned-found block a h = elim (Option-cases (block a)) [
    | inl e ↦ absurd (ground (arith, e))
    | inr found ↦ found
  ]

  pub listed_same :
      (block block' : ℕ → Option (OoListBlock A)) (l : OoList)
      → block' l.addr ≡ block l.addr
      → listed block' l ≡ listed block l
  unfolding listed
  listed_same block block' l e = ap (shown l.len) e

module _ {ℓ} {A H : Type ℓ} (fam : Family A H) where
  pub shown-retain :
      (n a : ℕ) (l : OoList) (s : Ledger × Lists A H)
      → shown n ((oo_list_retain fam l s).1.block a) ≡ shown n (s.1.block a)
  unfolding shown oo_list_retain
  shown-retain n a l s = ground (arith, ==_iff a l.addr)

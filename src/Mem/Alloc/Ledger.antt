-- ===== src/Mem/Alloc/Ledger.antt =====
-- The ambient counter against the blocks in the chains.
use oodar.Base.{
  ℕ, zero, suc, ◌+◌, ◌^◌, ◌≤◌, ◌<◌, ◌≡◌, ◌≢◌, refl, arith, ap, sym, ◌∙◌, subst, ltb, ◌==◌, ==_iff,
}
use oodar.Base.{
  false, List, [], ◌∷◌, Option, none, some, get_or, set, length, length-set, set-set_back,
  get_or-set_self, Bool-cases, Option-cases, inl, inr,
}
use oodar.Base.{if◌then◌else◌, ◌||◌, ℤ, pos, negsuc, Run, returns, >>=-returns, returns-injective}
use oodar.Cap.Tokens.{CapKind, CapState}
use oodar.Cap.Gates.{oo_cap_require_kind}
use oodar.Mem.Alloc.{
  OoRawAllocHeader, RawHeap, total_for, bucket, chain, header_of, zeroed, alloc_block, oo_alloc,
  unlink, unlinked, oo_free,
}

abbrev pub total_of : List OoRawAllocHeader → ℕ
total_of [] = 0
total_of (h ∷ hs) = h.total_size + total_of hs

abbrev pub sum_all : List (List OoRawAllocHeader) → ℕ
sum_all [] = 0
sum_all (c ∷ cs) = total_of c + sum_all cs

-- The counter is what the lists were charged and the sizes of the blocks in the 1024 chains.
pub record Charged (lists : ℕ) (s : RawHeap) : Type 0 where
  pub chains : length s.table ≡ 1024
  pub balance : s.bytes ≡ lists + sum_all s.table

sum_all-set :
    (t : List (List OoRawAllocHeader)) (i : ℕ) (c : List OoRawAllocHeader)
    → i < length t
    → sum_all (set t i c) + total_of (get_or t i []) ≡ sum_all t + total_of c
sum_all-set [] i c lt = elim lt [ ]
sum_all-set (x ∷ t) zero c lt = omega arith
sum_all-set (x ∷ t) (suc i) c lt = omega (arith, sum_all-set t i c (omega arith))

unlink_total :
    (target n : ℕ) (hs rest : List OoRawAllocHeader)
    → unlink target hs ≡ some (n, rest)
    → total_of hs ≡ n + total_of rest
unfolding unlink
unlink_total target n [] rest e = cc
unlink_total target n (h ∷ hs) rest e = elim (Bool-cases (h.user_ptr == target)) [
  | inl same ↦ ground (arith, e, same)
  | inr other ↦ elim (Option-cases (unlink target hs)) [
    | inl missing ↦ ground (arith, e, other, missing)
    | inr ((m, left), found) ↦ ground (arith, e, other, found, unlink_total target m hs left found)
  ]
]

-- A write to the chain of an address moves the sum by what the chain gained or lost.
recharged :
    (lists n m : ℕ) (addr : ℕ) (c : List OoRawAllocHeader) (s s' : RawHeap)
    → Charged lists s
    → s'.table ≡ set s.table (bucket addr) c
    → s.bytes + n ≡ s'.bytes + m
    → total_of (chain s addr) + n ≡ total_of c + m
    → Charged lists s'
recharged lists n m addr c s s' v e b d = record {
  chains = ap length e ∙ length-set s.table (bucket addr) c ∙ v.chains;
  balance = omega (
    arith,
    v.balance,
    ap sum_all e,
    sum_all-set s.table (bucket addr) c (omega (arith, v.chains)),
  );
}

-- The heap after a block of `size` bytes was placed at `a`.
abbrev pub placed : ℕ → ℕ → RawHeap → RawHeap
placed a size s = record s {
  bytes = s.bytes + total_for size;
  table = set s.table (bucket (a + 48)) (header_of a size ∷ chain s (a + 48));
  mem = zeroed s.mem a (total_for size);
}

unchanged :
    (lists r : ℕ) (s : RawHeap) {s' : RawHeap}
    → Charged lists s
    → ◌≡◌ {A = Run (ℕ × RawHeap)} (returns (0, s)) (returns (r, s'))
    → Charged lists s' × (r ≢ 0 → s'.bytes ≤ s'.quota)
unchanged lists r s v e =
    let q = returns-injective e in
    (subst (Charged lists) (ap (λ p. p.1) q) v, λ nz. absurd (nz (sym (ap (λ p. p.0) q))))

alloc-Placed :
    (size a : ℕ) (s : RawHeap)
    → 0 < size
    → size ≤ 2 ^ 30
    → s.bytes + total_for size ≤ s.quota
    → (if size == 0 || ltb (2 ^ 30) size then returns (0, s) else alloc_block (some a) size s)
      ≡ returns (a + 48, placed a size s)
unfolding alloc_block
alloc-Placed size a s some_size small room = ground (arith, ==_iff size 0)

alloc_block_charges :
    (lists size r : ℕ) (raw : Option ℕ) (s s' : RawHeap)
    → Charged lists s
    → alloc_block raw size s ≡ returns (r, s')
    → Charged lists s' × (r ≢ 0 → s'.bytes ≤ s'.quota)
unfolding alloc_block
alloc_block_charges lists size r none s s' v e =
    elim (Bool-cases (ltb s.quota (s.bytes + total_for size))) [
      | inl over ↦ cc (e, over)
      | inr fits ↦
          let q = returns-injective (rw (fits) at e) in
          (subst (Charged lists) (ap (λ p. p.1) q) v, λ nz. absurd (nz (sym (ap (λ p. p.0) q))))
    ]
alloc_block_charges lists size r (some a) s s' v e =
    elim (Bool-cases (ltb s.quota (s.bytes + total_for size))) [
      | inl over ↦ cc (e, over)
      | inr fits ↦
          let q = returns-injective (rw (fits) at e) in
          subst (λ t. Charged lists t × (r ≢ 0 → t.bytes ≤ t.quota)) (ap (λ p. p.1) q)
            (
              recharged lists (total_for size) 0 (a + 48) (header_of a size ∷ chain s (a + 48)) s
                  (placed a size s) v refl (omega arith) (omega arith),
              λ nz. ground (arith, fits),
            )
    ]

-- With the counter balanced, `oo_alloc` leaves it balanced, and where it gives out a block the
-- counter is within the quota.
pub oo_alloc_charges :
    (caps : CapState) (token lists r : ℕ) (size : ℤ) (raw : Option ℕ) (s : RawHeap) {s' : RawHeap}
    → Charged lists s
    → oo_alloc caps token size raw s ≡ returns (r, s')
    → Charged lists s' × (r ≢ 0 → s'.bytes ≤ s'.quota)
unfolding oo_alloc
oo_alloc_charges caps token lists r (negsuc n) raw s v e =
    let (c, _, back) =
      >>=-returns (oo_cap_require_kind CapKind.alloc caps token) (λ c. returns (0, s)) e in
    unchanged lists r s v back
oo_alloc_charges caps token lists r (pos n) raw s {s'} v e =
    let (c, _, back) =
      >>=-returns (oo_cap_require_kind CapKind.alloc caps token)
        (λ c. if n == 0 || ltb (2 ^ 30) n then returns (0, s) else alloc_block raw n s) e in
    elim (Bool-cases (n == 0 || ltb (2 ^ 30) n)) [
      | inl refused ↦ unchanged lists r s v (rw (refused) at back)
      | inr good ↦ alloc_block_charges lists n r raw s s' v (rw (good) at back)
    ]

unlinked_charges :
    (lists target : ℕ) (s : RawHeap) (o : Option (ℕ × List OoRawAllocHeader))
    → Charged lists s
    → unlink target (chain s target) ≡ o
    → Charged lists (unlinked target o s) × ((unlinked target o s).bytes ≤ s.bytes)
unfolding unlinked
unlinked_charges lists target s none v e = (v, omega arith)
unlinked_charges lists target s (some (n, rest)) v e =
    let whole = unlink_total target n (chain s target) rest e in
    let moved = sum_all-set s.table (bucket target) rest (omega (arith, v.chains)) in
    (
      recharged lists 0 n target rest s (unlinked target (some (n, rest)) s) v refl
          (omega (arith, v.balance)) (omega arith),
      omega arith,
    )

-- With the counter balanced, `oo_free` leaves it balanced, and the counter does not grow.
pub oo_free_charges :
    (caps : CapState) (token lists target : ℕ) (s : RawHeap) {s' : RawHeap}
    → Charged lists s
    → oo_free caps token target s ≡ returns s'
    → Charged lists s' × (s'.bytes ≤ s.bytes)
unfolding oo_free
oo_free_charges caps token lists target s v e =
    let (c, _, back) =
      >>=-returns (oo_cap_require_kind CapKind.alloc caps token)
        (λ c.
          returns (if target == 0 then s else unlinked target (unlink target (chain s target)) s))
        e in
    subst (λ t. Charged lists t × (t.bytes ≤ s.bytes)) (returns-injective back)
      (elim (Bool-cases (target == 0)) [
        | inl null ↦ rw (null) (v, omega arith)
        | inr address ↦
            rw (address) (unlinked_charges lists target s (unlink target (chain s target)) v refl)
      ])

unlink_first :
    (a size : ℕ) (hs : List OoRawAllocHeader)
    → unlink (a + 48) (header_of a size ∷ hs) ≡ some (total_for size, hs)
unfolding unlink
unlink_first a size hs = ground (arith, ==_iff (a + 48) (a + 48))

unlink-placed :
    (size a : ℕ) (s : RawHeap)
    → length s.table ≡ 1024
    → unlink (a + 48) (chain (placed a size s) (a + 48)) ≡ some (total_for size, chain s (a + 48))
unlink-placed size a s chains =
    ap (unlink (a + 48)) (
      get_or-set_self s.table (bucket (a + 48)) (header_of a size ∷ chain s (a + 48)) []
        (omega (arith, chains)))
    ∙ unlink_first a size (chain s (a + 48))

not_null : (a : ℕ) → (a + 48 == 0) ≡ false
not_null a = ground (arith, ==_iff (a + 48) 0)

-- With a token that opens the gate, a size from 1 to 1 GiB that fits the quota and a block from the
-- system: the allocation returns the address behind the header, and
-- freeing it brings back the counter and every chain.
pub oo_free-oo_alloc :
    (caps : CapState) (token size a : ℕ) (s : RawHeap)
    → oo_cap_require_kind CapKind.alloc caps token ≡ returns caps
    → 0 < size
    → size ≤ 2 ^ 30
    → s.bytes + total_for size ≤ s.quota
    → length s.table ≡ 1024
    → (s1 : RawHeap) × (oo_alloc caps token (pos size) (some a) s ≡ returns (a + 48, s1))
      × (s2 : RawHeap) × (oo_free caps token (a + 48) s1 ≡ returns s2)
      × (s2.bytes ≡ s.bytes)
      × (s2.table ≡ s.table)
      × (s2.quota ≡ s.quota)
unfolding oo_alloc oo_free
oo_free-oo_alloc caps token size a s opens some_size small room chains = (
  placed a size s,
  (rw (opens) (alloc-Placed size a s some_size small room)),
  unlinked (a + 48) (some (total_for size, chain s (a + 48))) (placed a size s),
  rw (opens, unlink-placed size a s chains, not_null a) refl,
  omega arith,
  set-set_back s.table (bucket (a + 48)) (header_of a size ∷ chain s (a + 48)) [],
  refl,
)

-- ===== src/Cap/Bridge/Laws.antt =====
-- The rights table, and the search for a token.
use Prim.Native.Nat.{bit_and}
use oodar.Base.{ℕ, zero, suc, ◌+◌, ◌≤◌, ◌<◌, ◌≡◌, refl, arith, Bool, true, false, some, get_or, pos}
use oodar.Base.{List, [], ◌∷◌, length, if◌then◌else◌, Bool-cases, inl, inr, ◌==◌, ◌≢◌}
use oodar.Cap.Tokens.{CapKind, CapState, oo_cap_self_token}
use oodar.Cap.Tokens.Laws.{index_of, index_of-lt, self_token-index_of}
use oodar.Base.{map}
use oodar.Cap.Bridge.{rows, ocap_to_oodar_record_for, ocap_to_oodar_all_names}
use oodar.Cap.Bridge.{
  g_ocap_rights, find_from, find_substrate_index, granted_at, oo_cap_check_with_ocap,
}

-- The search finds an index in range when some index in range holds the token.
find_from_hit :
    (s : CapState) (cap left i j : ℕ)
    → i ≤ j
    → j < i + left
    → oo_cap_self_token s (pos j) ≡ cap
    → (r : ℕ) × (find_from s cap left i ≡ some r) × (r < i + left)
unfolding find_from
find_from_hit s cap zero i j lo hi e = absurd (omega arith)
find_from_hit s cap (suc left) i j lo hi e =
    elim (Bool-cases (oo_cap_self_token s (pos i) == cap)) [
      | inl hit ↦ (i, rw hit refl, omega arith)
      | inr miss ↦
          let rest = find_from_hit s cap left (i + 1) j (ground arith) (omega arith) e in
          (rest.0, rw miss (rest.1), omega (arith, rest.2))
    ]

-- Every mask of the list has the read bit.
readable : List ℕ → Bool
readable [] = true
readable (mask ∷ masks) = if bit_and mask 1 == 1 then readable masks else false

readable_at :
    (masks : List ℕ) (i : ℕ)
    → i < length masks
    → readable masks ≡ true
    → (bit_and (get_or masks i 0) 1 == 1) ≡ true
unfolding readable
readable_at [] i lt e = elim lt [ ]
readable_at (mask ∷ masks) zero lt e = ground arith
readable_at (mask ∷ masks) (suc i) lt e = readable_at masks i (omega arith) (ground arith)

rows_read : (length g_ocap_rights ≡ 26) × (readable g_ocap_rights ≡ true)
unfolding readable g_ocap_rights
rows_read = (refl, refl)

granted_in_range : (r : ℕ) → r < 26 → granted_at (some r) 1 ≡ true
unfolding granted_at
granted_in_range r h = readable_at g_ocap_rights r (omega (arith, rows_read.0)) rows_read.1

-- The rights table agrees with every token of the store: with the test hook off and the token not
-- 0, the right 1 is granted to it, and the state stays.
pub check_with_ocap_token :
    (s : CapState) (k : CapKind)
    → s.test_force_fail ≡ false
    → s.token k ≢ 0
    → oo_cap_check_with_ocap s (s.token k) 1 ≡ (true, s)
unfolding oo_cap_check_with_ocap find_substrate_index
check_with_ocap_token s k off nz =
    let hit =
      find_from_hit s (s.token k) 26 0 (index_of k) (omega arith) (omega (arith, index_of-lt k))
        (self_token-index_of s k) in
    ground (arith, hit.1, granted_in_range hit.0 (omega (arith, hit.2)))

-- Each name of the table finds the row that it is the name of.
names_find_rows : map ocap_to_oodar_record_for ocap_to_oodar_all_names ≡ rows
unfolding ocap_to_oodar_record_for ocap_to_oodar_all_names
names_find_rows = refl

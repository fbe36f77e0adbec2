-- ===== src/Str/Ref/Laws.antt =====
-- Retain and release against the count of references.
use oodar.Base.{ℕ, suc, ◌<◌, ◌≡◌, ◌≢◌, arith, ==_iff}
use oodar.Base.{true, none, some}
use oodar.Str.Ref.{OoStr, OoStrHeader, StrHeap, oo_str_hdr_ok, oo_str_retain, oo_str_release}

-- The payload is owned with `n` references.
pub record Owned (h : StrHeap) (s : OoStr) (n : ℕ) : Type 0 where
  pub checks : oo_str_hdr_ok h s ≡ true
  pub hd : OoStrHeader
  pub found : h s.addr ≡ some hd
  pub counts : hd.ref_count ≡ n

-- For a payload with fewer than a million references, a retain is undone by a release: every header
-- is as before.
pub release-retain :
    (h : StrHeap) (s : OoStr) (n a : ℕ)
    → Owned h s n
    → n < 1000000
    → oo_str_release (oo_str_retain h s) s a ≡ h a
unfolding oo_str_release oo_str_retain
release-retain h s n a o few = ground (arith, o.checks, o.found, o.counts, ==_iff a s.addr)

-- For a payload with a million references, a release after a retain changes nothing: the count that
-- the retain left is beyond the limit of the header check.
pub million_is_final :
    (h : StrHeap) (s : OoStr)
    → Owned h s 1000000
    → oo_str_release (oo_str_retain h s) s ≡ oo_str_retain h s
unfolding oo_str_release oo_str_retain
million_is_final h s o = ground (arith, o.checks, o.found, o.counts)

-- For a payload with a count of n + 1 that passes the header check: the release frees it where n is
-- 0 and leaves the count n otherwise, and it changes no other payload.
pub release_lem :
    (h : StrHeap) (s : OoStr) (n : ℕ) (o : Owned h s (suc n))
    → (n ≡ 0 → oo_str_release h s s.addr ≡ none)
      × (n ≢ 0 → oo_str_release h s s.addr ≡ some (record { ref_count = n; flags = o.hd.flags }))
      × ((a : ℕ) → a ≢ s.addr → oo_str_release h s a ≡ h a)
unfolding oo_str_release
release_lem h s n o = (
  λ last. ground (arith, o.checks, o.found, o.counts, ==_iff s.addr s.addr),
  λ more. ground (arith, o.checks, o.found, o.counts, ==_iff s.addr s.addr),
  λ a ne. ground (arith, o.checks, o.found, o.counts, ==_iff a s.addr),
)

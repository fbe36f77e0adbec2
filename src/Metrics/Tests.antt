-- ===== src/Metrics/Tests.antt =====
-- Runs of the counters, and the instances of their theorems.
use oodar.Base.{ℕ, ◌⊎◌, ◌≡◌, ◌≢◌, refl, true, false, List, [], ◌∷◌, none, pos}
use oodar.Metrics.{
  MetricsSlot, lookup, on_free, plus_one, incr_in, get_in, reset_in, name_is_safe, all_safe,
  safe_byte,
}
use oodar.Metrics.Names.{SafeNames, SafeNames-incr_in}
use oodar.Metrics.Count.{value_of, incr_in_lem, reset_in_lem}

abbrev free_slot : MetricsSlot
free_slot = record { name = []; value = 0; in_use = false }

-- "ab", with a value of 4, and two free slots
abbrev ab : List ℕ
ab = 97 ∷ 98 ∷ []

abbrev counters : List MetricsSlot
counters = record { name = ab; value = 4; in_use = true } ∷ free_slot ∷ free_slot ∷ []

incr_in_lem_test :
    (name_is_safe ab ≡ true
      → (((incr_in ab counters).0 ≡ true)
          × (value_of ab (incr_in ab counters).1 ≡ plus_one (value_of ab counters))
          × ((m : List ℕ) → m ≢ ab → value_of m (incr_in ab counters).1 ≡ value_of m counters))
        ⊎ ((lookup ab counters ≡ none)
            × (on_free ab plus_one counters ≡ none)
            × (incr_in ab counters ≡ (false, counters))))
    × (name_is_safe ab ≡ false → incr_in ab counters ≡ (false, counters))
incr_in_lem_test = incr_in_lem ab counters

reset_in_lem_test :
    (get_in ab (reset_in ab counters).1 ≡ pos 0)
    × ((m : List ℕ) → m ≢ ab → get_in m (reset_in ab counters).1 ≡ get_in m counters)
unfolding name_is_safe all_safe safe_byte
reset_in_lem_test = reset_in_lem ab counters refl

SafeNames-incr_in_test : SafeNames (incr_in ab counters).1 × SafeNames (reset_in ab counters).1
unfolding name_is_safe all_safe safe_byte
SafeNames-incr_in_test = SafeNames-incr_in ab counters ((λ e. refl), ((λ e. cc), ((λ e. cc), tt)))

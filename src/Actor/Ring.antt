-- ===== src/Actor/Ring.antt =====
-- The ring of 8 messages that a channel and the mailbox of an actor have.
use oodar.Base.{ℕ, zero, suc, ◌+◌, ◌%◌, ◌<◌, ◌≡◌, ◌≢◌, refl, arith, ap, ap₂, ◌∙◌}
use oodar.Base.{List, [], ◌∷◌, ◌++◌, length, get_or, set, get_or-set_ne}

module _ {ℓ} {A : Type ℓ} (d : A) where
  -- The `n` messages from index `h` on, going round at 8.
  abbrev pub ring_from : List A → ℕ → ℕ → List A
  ring_from msgs h zero = []
  ring_from msgs h (suc n) = get_or msgs h d ∷ ring_from msgs ((h + 1) % 8) n

  pub length-ring_from : (msgs : List A) (h n : ℕ) → length (ring_from msgs h n) ≡ n
  length-ring_from msgs h zero = refl
  length-ring_from msgs h (suc n) = ap suc (length-ring_from msgs ((h + 1) % 8) n)

  -- A write outside the messages in the ring does not show.
  pub ring_from-set :
      (msgs : List A) (h n i : ℕ) (v : A)
      → ((k : ℕ) → k < n → i ≢ (h + k) % 8)
      → h < 8
      → ring_from (set msgs i v) h n ≡ ring_from msgs h n
  ring_from-set msgs h zero i v away small = refl
  ring_from-set msgs h (suc n) i v away small =
      ap₂ ◌∷◌ (get_or-set_ne msgs i h v d (λ e. away 0 (omega arith) (omega arith))) (
        ring_from-set msgs ((h + 1) % 8) n i v (λ k lt e. away (suc k) (omega arith) (omega arith))
          (omega arith))

  -- One more message at the end.
  pub ring_from-last :
      (msgs : List A) (h n : ℕ)
      → h < 8
      → ring_from msgs h (suc n) ≡ ring_from msgs h n ++ (get_or msgs ((h + n) % 8) d ∷ [])
  ring_from-last msgs h zero small = ap (λ k. get_or msgs k d ∷ []) (omega arith)
  ring_from-last msgs h (suc n) small =
      ap (λ l. get_or msgs h d ∷ l)
        (ring_from-last msgs ((h + 1) % 8) n (omega arith)
          ∙ ap (λ k. ring_from msgs ((h + 1) % 8) n ++ (get_or msgs k d ∷ [])) (omega arith))

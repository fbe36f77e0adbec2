-- ===== src/Cap/Sample.antt =====
-- A token store for the tests.
use oodar.Base.{ℕ, ◌≡◌, ◌≢◌, refl, sym, ap, ◌∙◌, get_or, arith, false, ◌+◌, returns, inl}
use oodar.Cap.Tokens.{CapKind, CapState, cap_tokens, fs}
use oodar.Cap.Tokens.Laws.{index_of, kind_at-index_of}
use oodar.Cap.Gates.{oo_cap_require_kind}
use oodar.Cap.Gates.Laws.{IsDistinct, Opens-exactly}

-- A store whose tokens are 1 to 26.
abbrev pub counted : CapState
counted = record {
  token = λ k. index_of k + 1;
  process_handed = false;
  sand_net = false;
  sand_proc = false;
  test_force_fail = false;
}

pub counted-IsDistinct : IsDistinct counted
unfolding index_of
counted-IsDistinct = record {
  injective = λ j k e.
      sym (kind_at-index_of j)
      ∙ ap (λ (n : ℕ). get_or cap_tokens n fs) (shift (index_of j) (index_of k) e)
      ∙ kind_at-index_of k;
  nonzero = λ k. shift_ne (index_of k);
}
  where
    shift : (a b : ℕ) → a + 1 ≡ b + 1 → a ≡ b
    shift a b e = omega arith

    shift_ne : (a : ℕ) → a + 1 ≢ 0
    shift_ne a e = omega arith

-- Each of its tokens opens the gate of its kind.
pub counted_opens :
    (k : CapKind) → oo_cap_require_kind k counted (counted.token k) ≡ returns counted
counted_opens k = (Opens-exactly counted k k counted-IsDistinct refl).0 (inl refl)

-- ===== src/Sandbox/Landlock/Laws.antt =====
-- What a successful call of `oo_landlock_restrict` has put in force.
use oodar.Base.{
  ℕ, zero, suc, ◌+◌, ◌≡◌, refl, arith, ap, sym, ◌∙◌, ltb, Bool, true, false, not, List, [], ◌∷◌,
  ◌++◌, ℤ, pos, negsuc, if_elim, ◌||◌,
}
use Prim.Native.Nat.{bit_and}
use oodar.Sandbox.Text.{OoResS, codes, failed, succeeded}
use oodar.Sandbox.Paths.{ll_each_dir, count_only}
use oodar.Sandbox.Paths.Laws.{parts}
use oodar.Sandbox.Paths.Valid.{AllGood, listed, keep-ll_each_dir, sand_validate_paths_lem}
use oodar.Sandbox.Landlock.{
  LandlockKernel, PathRule, Landlock, add_rules, enforce, restrict_with, restrict_checked,
  restrict_in, is_zero, is_code, ll_err, oo_landlock_mark_applied, ll_is_update_cmd, ll_abi_version,
  update_bypass,
}
use oodar.Sandbox.Access.{ll_handled_fs, ll_read_bits, ll_write_bits}
use oodar.Sandbox.Landlock.Rules.{RulesFor, add_rules-Rules}

-- What a call may leave: nothing new and an error; an error and PR_SET_NO_NEW_PRIVS, where the kernel
-- refuses the ruleset at the end; nothing new for the update command; or one new ruleset, with one rule
-- for each path of the two lists, in order, and PR_SET_NO_NEW_PRIVS.
pub data Restricted (k : LandlockKernel) (reads writes : List ℕ) (l : Landlock)
    (r : OoResS × Landlock) : Type 0 where
  refused : (msg : List ℕ) → r ≡ (failed msg, l) → Restricted k reads writes l r
  unenforced :
      ll_is_update_cmd k ≡ false
      → k.no_new_privs ≡ true
      → k.restricts ≡ false
      → r ≡ (failed (codes "ERR\tlandlock\trestrict_self failed"), record l { no_new_privs = true })
      → Restricted k reads writes l r
  bypassed :
      ll_is_update_cmd k ≡ true → r ≡ (succeeded update_bypass, l) → Restricted k reads writes l r
  enforced :
      (read_rules write_rules : List PathRule)
      → ll_is_update_cmd k ≡ false
      → AllGood (parts reads)
      → AllGood (parts writes)
      → RulesFor k
          (ll_abi_version k)
          (bit_and (ll_read_bits (ll_abi_version k)) (ll_handled_fs (ll_abi_version k)))
          (parts reads)
          read_rules
      → RulesFor k
          (ll_abi_version k)
          (bit_and (ll_write_bits (ll_abi_version k)) (ll_handled_fs (ll_abi_version k)))
          (parts writes)
          write_rules
      → r ≡ (
        succeeded (codes "OK_LANDLOCK_ENFORCED"),
        record {
          rulesets = (read_rules ++ write_rules) ∷ l.rulesets;
          applied = true;
          no_new_privs = true;
        },
      )
      → Restricted k reads writes l r

pub affirmed : {b : Bool} → not b ≡ false → b ≡ true
affirmed {b = true} h = refl
affirmed {b = false} h = absurd (cc)

pub denied : {b : Bool} → not b ≡ true → b ≡ false
denied {b = true} h = absurd (cc)
denied {b = false} h = refl

is_zero-eq : {x : ℤ} → not (is_zero x) ≡ false → x ≡ pos 0
is_zero-eq {x = pos zero} h = refl
is_zero-eq {x = pos (suc n)} h = ground arith
is_zero-eq {x = negsuc n} h = absurd (cc)

neither : (a b : Bool) → (a || b) ≡ false → (a ≡ false) × (b ≡ false)
neither false false h = (refl, refl)
neither false true h = absurd (cc)
neither true b h = absurd (cc)

-- The counting walk: what its code and its count say.
counted :
    (dirs : List ℕ)
    → (ll_each_dir count_only dirs tt).0 ≡ pos 0
    → AllGood (parts dirs) × ((ll_each_dir count_only dirs tt).1 ≡ listed (parts dirs))
counted dirs h =
    let good =
      (sand_validate_paths_lem dirs).0.0 (ap (λ r. r.0) (sym (keep-ll_each_dir dirs)) ∙ h) in
    (good, ap (λ r. r.1) (keep-ll_each_dir dirs ∙ (sand_validate_paths_lem dirs).1 good))

module _ (k : LandlockKernel) (reads writes : List ℕ) (l : Landlock) where
  abbrev Ends : OoResS × Landlock → Type 0
  Ends = Restricted k reads writes l

  ll_err-Ends : (msg : List ℕ) → Ends (ll_err msg l)
  unfolding ll_err
  ll_err-Ends msg = refused msg refl

  enforce-Ends :
      (read_rules write_rules rules : List PathRule)
      → ll_is_update_cmd k ≡ false
      → AllGood (parts reads)
      → AllGood (parts writes)
      → RulesFor k
          (ll_abi_version k)
          (bit_and (ll_read_bits (ll_abi_version k)) (ll_handled_fs (ll_abi_version k)))
          (parts reads)
          read_rules
      → RulesFor k
          (ll_abi_version k)
          (bit_and (ll_write_bits (ll_abi_version k)) (ll_handled_fs (ll_abi_version k)))
          (parts writes)
          write_rules
      → rules ≡ read_rules ++ write_rules
      → Ends (enforce k rules l)
  unfolding enforce oo_landlock_mark_applied ll_err
  enforce-Ends rr wr rules plain gr gw fr fw e =
      if_elim Ends (not k.no_new_privs) (λ _. ll_err-Ends _)
        λ privs.
          if_elim Ends (not k.restricts) (λ z. unenforced plain (affirmed privs) (denied z) refl)
            λ _. enforced rr wr plain gr gw fr fw (rw e refl)

  restrict_with-Ends :
      (nread nwrite : ℕ)
      → ll_is_update_cmd k ≡ false
      → AllGood (parts reads)
      → AllGood (parts writes)
      → nread ≡ listed (parts reads)
      → nwrite ≡ listed (parts writes)
      → Ends (restrict_with k (ll_abi_version k) reads writes nread nwrite l)
  unfolding restrict_with
  restrict_with-Ends nread nwrite plain gr gw er ew =
      let abi = ll_abi_version k in
      let ra = bit_and (ll_read_bits abi) (ll_handled_fs abi) in
      let wa = bit_and (ll_write_bits abi) (ll_handled_fs abi) in
      let rr = add_rules k abi ra reads nread [] in
      let wr = add_rules k abi wa writes nwrite rr.1 in
      if_elim Ends (not (is_zero rr.0)) (λ _. ll_err-Ends _)
        λ r0.
          if_elim Ends (not (is_zero wr.0)) (λ _. ll_err-Ends _)
            λ w0.
              let on_read = add_rules-Rules k abi ra reads nread [] er 0 (is_zero-eq r0) in
              let on_write = add_rules-Rules k abi wa writes nwrite rr.1 ew 0 (is_zero-eq w0) in
              enforce-Ends on_read.added on_write.added wr.1 plain gr gw on_read.for_parts
                on_write.for_parts
                (on_write.joined ∙ ap (λ rs. rs ++ on_write.added) on_read.joined)

  pub restrict_in-Restricted : Restricted k reads writes l (restrict_in k reads writes l)
  unfolding restrict_in restrict_checked
  restrict_in-Restricted =
      let r = ll_each_dir count_only reads tt in
      let w = ll_each_dir count_only writes tt in
      if_elim Ends (ll_is_update_cmd k) (λ e. bypassed e refl)
        λ plain.
          if_elim Ends (is_code 2 r.0 || is_code 2 w.0) (λ _. ll_err-Ends _)
            λ _.
              if_elim Ends (is_code 1 r.0 || is_code 1 w.0) (λ _. ll_err-Ends _)
                λ _.
                  if_elim Ends (is_code 0 r.0 || is_code 0 w.0) (λ _. ll_err-Ends _)
                    λ _.
                      if_elim Ends (not (is_zero r.0) || not (is_zero w.0)) (λ _. ll_err-Ends _)
                        λ z.
                          if_elim Ends (ltb 64 (r.1 + w.1)) (λ _. ll_err-Ends _)
                            λ _.
                              if_elim Ends (ltb (ll_abi_version k) 1) (λ _. ll_err-Ends _)
                                λ _.
                                  if_elim Ends (not k.creates) (λ _. ll_err-Ends _)
                                    λ _.
                                      let (zr, zw) =
                                        neither (not (is_zero r.0)) (not (is_zero w.0)) z in
                                      let (gr, er) = counted reads (is_zero-eq zr) in
                                      let (gw, ew) = counted writes (is_zero-eq zw) in
                                      restrict_with-Ends r.1 w.1 plain gr gw er ew

-- ===== src/Seccomp/Machine.antt =====
-- What the kernel does with a filter, as far as the filters of this repository rely on it: the
-- documented meaning of the four kinds of instruction that they use.
use oodar.Base.{
  ℕ, zero, suc, ◌≡◌, refl, List, [], ◌∷◌, Option, none, some, Bool, if◌then◌else◌, ◌==◌, not, drop,
}
use Prim.Native.Nat.{bit_and}
use oodar.Seccomp.{Field, nr_word, arch_word, arg_word, SockFilter, ld, jeq, jset, ret}

-- `struct seccomp_data`, with the lower word of each argument.
pub record SeccompData : Type 0 where
  pub nr : ℕ
  pub arch : ℕ
  pub args : ℕ → ℕ

abbrev pub word : SeccompData → Field → ℕ
word d nr_word = d.nr
word d arch_word = d.arch
word d (arg_word i) = d.args i

-- Some bit of `k` is on in `a`.
abbrev pub overlaps : ℕ → ℕ → Bool
overlaps a k = not (bit_and a k == 0)

-- `run p a d` is the value that the program `p` returns for the call `d`, with `a` in the accumulator.
pub record Bpf : Type 0 where
  pub run : List SockFilter → ℕ → SeccompData → Option ℕ
  pub run-ret :
      (k : ℕ) (p : List SockFilter) (a : ℕ) (d : SeccompData) → run (ret k ∷ p) a d ≡ some k
  pub run-ld :
      (f : Field) (p : List SockFilter) (a : ℕ) (d : SeccompData)
      → run (ld f ∷ p) a d ≡ run p (word d f) d
  pub run-jeq :
      (k t f : ℕ) (p : List SockFilter) (a : ℕ) (d : SeccompData)
      → run (jeq k t f ∷ p) a d ≡ run (drop (if a == k then t else f) p) a d
  pub run-jset :
      (k t f : ℕ) (p : List SockFilter) (a : ℕ) (d : SeccompData)
      → run (jset k t f ∷ p) a d ≡ run (drop (if overlaps a k then t else f) p) a d

-- An interpreter: `skip` instructions are passed over before the next one is executed.
interpret : ℕ → List SockFilter → ℕ → SeccompData → Option ℕ
interpret skip [] a d = none
interpret (suc skip) (i ∷ p) a d = interpret skip p a d
interpret zero (ld f ∷ p) a d = interpret zero p (word d f) d
interpret zero (jeq k t f ∷ p) a d = interpret (if a == k then t else f) p a d
interpret zero (jset k t f ∷ p) a d = interpret (if overlaps a k then t else f) p a d
interpret zero (ret k ∷ p) a d = some k

interpret-drop :
    (n : ℕ) (p : List SockFilter) (a : ℕ) (d : SeccompData)
    → interpret n p a d ≡ interpret zero (drop n p) a d
unfolding interpret
interpret-drop zero p a d = refl
interpret-drop (suc n) [] a d = refl
interpret-drop (suc n) (i ∷ p) a d = interpret-drop n p a d

-- The interpreter does what is documented.
unfoldable pub interpreter : Bpf
unfolding interpret interpret-drop
interpreter = record {
  run = λ p a d. interpret zero p a d;
  run-ret = λ k p a d. refl;
  run-ld = λ f p a d. refl;
  run-jeq = λ k t f p a d. interpret-drop (if a == k then t else f) p a d;
  run-jset = λ k t f p a d. interpret-drop (if overlaps a k then t else f) p a d;
}

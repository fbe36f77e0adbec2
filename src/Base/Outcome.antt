-- ===== src/Base/Outcome.antt =====
-- What a call does: it returns, or it ends the process with `exit(code)` or `abort()`.
use Prim.Native.Nat.{ℕ}
use mathlib.Core.Path.{◌≡◌, refl, ap}

pub data Run {ℓ} (A : Type ℓ) : Type ℓ where
  returns : A → Run A
  exits : ℕ → Run A
  aborts : Run A

infixl 5 ◌>>=◌ ◌>>◌
-- What comes after a call that returned.
abbrev pub ◌>>=◌ {κ ℓ} : {B : Type κ} {A : Type ℓ} (call : Run A) → (A → Run B) → Run B
exits c >>= next = exits c
aborts >>= next = aborts
returns a >>= next = next a

abbrev pub ◌>>◌ {ℓ} : {B : Type ℓ} → Run (Unit {0}) → Run B → Run B
m >> k = m >>= λ _. k

pub >>=-returns {ℓ κ} :
    {A : Type ℓ} {B : Type κ} (m : Run A) (f : A → Run B) {b : B}
    → (m >>= f) ≡ returns b
    → (a : A) × (m ≡ returns a) × (f a ≡ returns b)
>>=-returns (returns a) f h = (a, refl, h)
>>=-returns (exits c) f h = cc
>>=-returns aborts f h = cc

from_returns {ℓ} : {A : Type ℓ} → A → Run A → A
from_returns d (returns a) = a
from_returns d (exits c) = d
from_returns d aborts = d

pub returns-injective {ℓ} : {A : Type ℓ} {a b : A} → returns a ≡ returns b → a ≡ b
unfolding from_returns
returns-injective {a = a} e = ap (from_returns a) e

-- ===== src/Sandbox/Text.antt =====
-- Results with a text: `OoResS`. A text is the list of its bytes.
use Prim.Native.Char.{code}
use Prim.Native.String.{String}
use oodar.Base.{ℕ, Bool, true, false, List, [], ◌∷◌}

abbrev pub codes : String → List ℕ
codes String.[] = []
codes (String.◌∷◌ c s) = code c ∷ codes s

pub record OoResS : Type 0 where
  pub ok : Bool
  pub val : List ℕ

abbrev pub failed : List ℕ → OoResS
failed msg = record { ok = false; val = msg }

abbrev pub succeeded : List ℕ → OoResS
succeeded msg = record { ok = true; val = msg }

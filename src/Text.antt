-- ===== src/Text.antt =====
-- Text literals as lists of code points.
use Prim.Native.String.{String}
use Prim.Native.Char.{code}
use crypto_campus.Prelude.{Text, [], ◌∷◌}

abbrev pub codes : String → Text
codes String.[] = []
codes (String.◌∷◌ c s) = code c ∷ codes s

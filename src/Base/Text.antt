-- ===== src/Base/Text.antt =====
-- ASCII texts as byte strings.
use Prim.Native.Char.{code}
use Prim.Native.String.{String}
use mathlib.Core.List.{[], ◌∷◌}
use bano.Base.Lists.{Bytes}

-- The bytes of a C string literal, without its final NUL.
abbrev pub codes : String → Bytes
codes String.[] = []
codes (String.◌∷◌ c s) = code c ∷ codes s

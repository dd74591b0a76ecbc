-- ===== src/Prelude/Text.antt =====
-- String literals of the source, as bytes.
use Prim.Native.Char.{code}
use Prim.Native.String.{String}
use mathlib.Core.List.{[], ◌∷◌}
use d_hotsuff.Prelude.ByteStrings.{Bytes}

-- The bytes of an ASCII text.
abbrev pub ascii : String → Bytes
ascii String.[] = []
ascii (String.◌∷◌ c rest) = code c ∷ ascii rest

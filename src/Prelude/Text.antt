-- ===== src/Prelude/Text.antt =====
-- Python's `<` on str: by code points, which is the order of the UTF-8 bytes.
use text.Mathlib.Text.{is_lt}
use Prim.Native.String.{String, compare}
use mathlib.Core.Bool.{Bool}

abbrev pub str_before : String → String → Bool
str_before s t = is_lt (compare s t)

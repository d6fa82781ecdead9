-- ===== src/Common/Text.antt =====
-- Text as a list of its code points, and ASCII bytes as text.
use Prim.Native.Nat.{ℕ, ◌-◌}
use Prim.Native.Char.{code}
use Prim.Native.String.{String, char_at}
use mathlib.Core.Bool.{◌&&◌}
use qed.Common.Tests.{ltb, leb, if◌then◌else◌}
use mathlib.Core.List.{List, [], ◌∷◌}

-- The code points of a text: its bytes, if it is ASCII.
abbrev pub codes : String → List ℕ
codes String.[] = []
codes (String.◌∷◌ c s) = code c ∷ codes s

-- The printable ASCII characters, from code 32.
abbrev printable : String
printable =
    " !\"#$%&'()*+,-./0123456789:;<=>?@ABCDEFGHIJKLMNOPQRSTUVWXYZ[\\]^_`abcdefghijklmnopqrstuvwxyz{|}~"

-- The text of ASCII bytes, with "?" for a byte that is not printable.
abbrev pub ascii : List ℕ → String
ascii [] = ""
ascii (c ∷ cs) =
    String.◌∷◌ (if leb 32 c && ltb c 127 then char_at printable (c - 32) else char_at "?" 0)
      (ascii cs)

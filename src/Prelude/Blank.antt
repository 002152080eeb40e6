-- ===== src/Prelude/Blank.antt =====
-- `value.trim() === ""`: a text of white space and line terminators only.
use Prim.Native.Nat.{ℕ}
use Prim.Native.Char.{code}
use Prim.Native.String.{String}
use mathlib.Core.Bool.{Bool, true, ◌&&◌, ◌||◌}
use verixa.Prelude.Tests.{leb, eqb}

abbrev between : ℕ → ℕ → ℕ → Bool
between a b c = leb a c && leb c b

-- The `WhiteSpace` and `LineTerminator` code points of ECMAScript.
abbrev pub is_white : ℕ → Bool
is_white c =
    between 9 13 c
    || eqb c 32
    || eqb c 160
    || eqb c 5760
    || between 8192 8202 c
    || between 8232 8233 c
    || eqb c 8239
    || eqb c 8287
    || eqb c 12288
    || eqb c 65279

unfoldable pub is_blank : String → Bool
is_blank String.[] = true
is_blank (String.◌∷◌ c s) = is_white (code c) && is_blank s

-- ===== src/Prelude/Text.antt =====
-- Texts as lists of code points, where the program walks bytes or characters, and the searches of
-- Rust's `str` and slices on them.
use Prim.Native.Nat.{ℕ}
use Prim.Native.Char.{code}
use Prim.Native.String.{String}
use mathlib.Core.Bool.{Bool, true, false, ◌&&◌, ◌||◌}
use mathlib.Core.List.{List, [], ◌∷◌}
use mathlib.Core.Path.{◌≡◌, refl}
use native.Mathlib.Omega.{arith}
use st0x_alpaca.Prelude.Tests.{◌==◌, leb}
use st0x_alpaca.Prelude.Lists.{all}

-- The code points of a text: its bytes, if it is ASCII.
abbrev pub codes : String → List ℕ
codes String.[] = []
codes (String.◌∷◌ c s) = code c ∷ codes s

-- `xs.starts_with(prefix)`, with the prefix first.
unfoldable pub is_prefix : List ℕ → List ℕ → Bool
is_prefix [] xs = true
is_prefix (p ∷ ps) [] = false
is_prefix (p ∷ ps) (x ∷ xs) = p == x && is_prefix ps xs

-- `xs.contains(needle)`, with the needle first.
unfoldable pub contains : List ℕ → List ℕ → Bool
unfolding is_prefix
contains needle [] = is_prefix needle []
contains needle (x ∷ xs) = is_prefix needle (x ∷ xs) || contains needle xs

-- `char::is_whitespace`: the code points with the Unicode property White_Space.
unfoldable pub is_whitespace : ℕ → Bool
is_whitespace c =
    (leb 9 c && leb c 13)
    || c == 32
    || c == 0x85
    || c == 0xA0
    || c == 0x1680
    || (leb 0x2000 c && leb c 0x200A)
    || c == 0x2028
    || c == 0x2029
    || c == 0x202F
    || c == 0x205F
    || c == 0x3000

-- `text.trim().is_empty()`.
unfoldable pub is_blank : List ℕ → Bool
unfolding is_whitespace
is_blank text = all is_whitespace text

-- `==` on texts.
abbrev pub same_bytes : List ℕ → List ℕ → Bool
same_bytes [] [] = true
same_bytes (x ∷ xs) (y ∷ ys) = x == y && same_bytes xs ys
same_bytes _ _ = false

pub same_bytes-eq : (xs ys : List ℕ) → same_bytes xs ys ≡ true → xs ≡ ys
same_bytes-eq [] [] h = refl
same_bytes-eq (x ∷ xs) (y ∷ ys) h = ground (arith, same_bytes-eq xs ys)
same_bytes-eq [] (y ∷ ys) h = ground arith
same_bytes-eq (x ∷ xs) [] h = ground arith

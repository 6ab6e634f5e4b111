-- ===== src/Stream/Utf8.antt =====
-- `std::str::from_utf8` and `str::trim` on bytes, as src/corporate_actions uses them.
use st0x_alpaca.Prelude.{
  ℕ, suc, zero, Bool, true, false, ◌&&◌, ◌||◌, List, [], ◌∷◌, reverse, Option, none, some, ◌==◌,
  leb, if◌then◌else◌, length,
}

-- Between two characters, or `more` continuation bytes to come, the first from `low` to `high`.
pub data State : Type 0 where
  between : State
  inside : ℕ → ℕ → ℕ → State

-- A first byte.
first : ℕ → Option State
first b =
    if leb b 0x7F
    then some between
    else if leb 0xC2 b && leb b 0xDF
    then some (inside 0x80 0xBF 0)
    else if b == 0xE0
    then some (inside 0xA0 0xBF 1)
    else if b == 0xED
    then some (inside 0x80 0x9F 1)
    else if leb 0xE1 b && leb b 0xEF
    then some (inside 0x80 0xBF 1)
    else if b == 0xF0
    then some (inside 0x90 0xBF 2)
    else if leb 0xF1 b && leb b 0xF3
    then some (inside 0x80 0xBF 2)
    else if b == 0xF4
    then some (inside 0x80 0x8F 2)
    else none

after : ℕ → State
after zero = between
after (suc more) = inside 0x80 0xBF more

advance : State → ℕ → Option State
unfolding first after
advance between b = first b
advance (inside low high more) b = if leb low b && leb b high then some (after more) else none

valid_from : State → List ℕ → Bool
unfolding advance
valid_from between [] = true
valid_from (inside low high more) [] = false
valid_from s (b ∷ bytes) = elim (advance s b) [ none ↦ false | some s' ↦ valid_from s' bytes ]

-- Whether `from_utf8` accepts the bytes.
unfoldable pub is_utf8 : List ℕ → Bool
unfolding valid_from
is_utf8 bytes = valid_from between bytes

-- White space at the front: the text without its first character, if that is white.
strip_front : List ℕ → Option (List ℕ)
strip_front [] = none
strip_front (a ∷ []) = if (leb 9 a && leb a 13) || a == 32 then some [] else none
strip_front (a ∷ b ∷ []) =
    if (leb 9 a && leb a 13) || a == 32
    then some (b ∷ [])
    else if a == 0xC2 && (b == 0x85 || b == 0xA0)
    then some []
    else none
strip_front (a ∷ b ∷ c ∷ rest) =
    if (leb 9 a && leb a 13) || a == 32
    then some (b ∷ c ∷ rest)
    else if a == 0xC2 && (b == 0x85 || b == 0xA0)
    then some (c ∷ rest)
    else if (a == 0xE1 && b == 0x9A && c == 0x80)
        || (a == 0xE2
            && b == 0x80
            && ((leb 0x80 c && leb c 0x8A) || c == 0xA8 || c == 0xA9 || c == 0xAF))
        || (a == 0xE2 && b == 0x81 && c == 0x9F)
        || (a == 0xE3 && b == 0x80 && c == 0x80)
    then some rest
    else none

-- The front white space removed, at most as often as the text has bytes.
trim_front : ℕ → List ℕ → List ℕ
unfolding strip_front
trim_front zero text = text
trim_front (suc n) text = elim (strip_front text) [ none ↦ text | some rest ↦ trim_front n rest ]

-- White space at the end, on the reversed bytes.
strip_back : List ℕ → Option (List ℕ)
strip_back [] = none
strip_back (a ∷ []) = if (leb 9 a && leb a 13) || a == 32 then some [] else none
strip_back (b ∷ a ∷ []) =
    if (leb 9 b && leb b 13) || b == 32
    then some (a ∷ [])
    else if a == 0xC2 && (b == 0x85 || b == 0xA0)
    then some []
    else none
strip_back (c ∷ b ∷ a ∷ rest) =
    if (leb 9 c && leb c 13) || c == 32
    then some (b ∷ a ∷ rest)
    else if b == 0xC2 && (c == 0x85 || c == 0xA0)
    then some (a ∷ rest)
    else if (a == 0xE1 && b == 0x9A && c == 0x80)
        || (a == 0xE2
            && b == 0x80
            && ((leb 0x80 c && leb c 0x8A) || c == 0xA8 || c == 0xA9 || c == 0xAF))
        || (a == 0xE2 && b == 0x81 && c == 0x9F)
        || (a == 0xE3 && b == 0x80 && c == 0x80)
    then some rest
    else none

trim_back : ℕ → List ℕ → List ℕ
unfolding strip_back
trim_back zero text = text
trim_back (suc n) text = elim (strip_back text) [ none ↦ text | some rest ↦ trim_back n rest ]

-- `text.trim()`.
unfoldable pub trim : List ℕ → List ℕ
unfolding trim_front trim_back
trim text =
    let front = trim_front (length text) text in reverse (trim_back (length front) (reverse front))

-- ===== src/Transport/RetryAfter.antt =====
-- src/rate_limit.rs: `parse_retry_after`. A text is a list of code points and a duration is in
-- nanoseconds. The reading of a date, as the instant in the same unit, is the date crate's.
use mathlib.Core.List.{reverse-cons, reverse-append, reverse-reverse}
use st0x_alpaca.Prelude.{
  ℕ, ◌+◌, ◌-◌, ◌*◌, ◌^◌, ◌<◌, ◌≤◌, ◌≡◌, ◌==◌, ◌&&◌, Bool, true, false, List, [], ◌∷◌, ◌++◌, reverse,
  Option, none, some, leb, ltb, if◌then◌else◌, is_whitespace, all, arith, refl,
}

unfoldable drop_spaces : List ℕ → List ℕ
unfolding is_whitespace
drop_spaces [] = []
drop_spaces (c ∷ cs) = let rest = drop_spaces cs in if is_whitespace c then rest else c ∷ cs

-- `trim`.
unfoldable pub trim : List ℕ → List ℕ
unfolding drop_spaces
trim text = reverse (drop_spaces (reverse (drop_spaces text)))

unfoldable pub is_digit : ℕ → Bool
is_digit c = leb 48 c && leb c 57

-- `u64::from_str` past the sign: each digit by a checked product and a checked sum.
unfoldable pub accumulate : ℕ → List ℕ → Option ℕ
unfolding is_digit
accumulate value [] = some value
accumulate value (c ∷ cs) =
    let rest = accumulate (value * 10 + (c - 48)) cs in
    if is_digit c && ltb (value * 10) (2 ^ 64) && ltb (value * 10 + (c - 48)) (2 ^ 64)
    then rest
    else none

-- A sign alone is no number, and nor is an empty text.
unfoldable pub from_str : List ℕ → Option ℕ
unfolding accumulate
from_str [] = none
from_str (c ∷ []) = if c == 43 then none else accumulate 0 (c ∷ [])
from_str (c ∷ d ∷ cs) = if c == 43 then accumulate 0 (d ∷ cs) else accumulate 0 (c ∷ d ∷ cs)

-- `duration_since`: none for an earlier instant.
unfoldable pub duration_since : ℕ → ℕ → Option ℕ
duration_since time now = if ltb time now then none else some (time - now)

unfoldable pub parse_retry_after : (List ℕ → Option ℕ) → List ℕ → ℕ → Option ℕ
unfolding trim from_str duration_since
parse_retry_after parse_from_rfc2822 header_value now = elim (from_str (trim header_value)) [
  | some delay_seconds ↦ some (delay_seconds * 1_000_000_000)
  | none ↦ elim (parse_from_rfc2822 (trim header_value)) [
    | none ↦ none
    | some time ↦ duration_since time now
  ]
]

-- The number that a list of digits writes.
abbrev pub value_of : ℕ → List ℕ → ℕ
value_of value [] = value
value_of value (c ∷ cs) = value_of (value * 10 + (c - 48)) cs

value_of-le : (value : ℕ) (cs : List ℕ) → value ≤ value_of value cs
value_of-le value [] = omega arith
value_of-le value (c ∷ cs) = omega (arith, value_of-le (value * 10 + (c - 48)) cs)

-- The checked steps give exactly the number that the digits write, where it is below 2 ^ 64, and nothing
-- where it is not.
accumulate_lem :
    (value : ℕ) (cs : List ℕ)
    → value < 2 ^ 64
    → all is_digit cs ≡ true
    → accumulate value cs
      ≡ (if ltb (value_of value cs) (2 ^ 64) then some (value_of value cs) else none)
unfolding accumulate
accumulate_lem value [] b d = ground arith
accumulate_lem value (c ∷ cs) b d =
    ground
      (arith, accumulate_lem (value * 10 + (c - 48)) cs, value_of-le (value * 10 + (c - 48)) cs)

from_str-digits :
    (c : ℕ) (cs : List ℕ)
    → all is_digit (c ∷ cs) ≡ true
    → value_of 0 (c ∷ cs) < 2 ^ 64
    → from_str (c ∷ cs) ≡ some (value_of 0 (c ∷ cs))
unfolding from_str is_digit
from_str-digits c [] d l = ground (arith, accumulate_lem 0 (c ∷ []))
from_str-digits c (e ∷ cs) d l = ground (arith, accumulate_lem 0 (c ∷ e ∷ cs))

module _ (p : ℕ → Bool) where
  all-append : (xs ys : List ℕ) → all p (xs ++ ys) ≡ (all p xs && all p ys)
  all-append [] ys = refl
  all-append (x ∷ xs) ys = ground (arith, all-append xs ys)

  all-reverse : (xs : List ℕ) → all p xs ≡ true → all p (reverse xs) ≡ true
  all-reverse [] h = refl
  all-reverse (x ∷ xs) h =
      ground (arith, reverse-cons x xs, all-reverse xs, all-append (reverse xs) (x ∷ []))

digit-space : (c : ℕ) → is_digit c ≡ true → is_whitespace c ≡ false
unfolding is_digit is_whitespace
digit-space c d = ground arith

-- The first character decides.
drop_spaces-cons :
    (c : ℕ) (cs : List ℕ)
    → drop_spaces (c ∷ cs) ≡ (if is_whitespace c then drop_spaces cs else c ∷ cs)
unfolding drop_spaces
drop_spaces-cons c cs = refl

drop_spaces-append :
    (spaces cs : List ℕ)
    → all is_whitespace spaces ≡ true
    → drop_spaces (spaces ++ cs) ≡ drop_spaces cs
drop_spaces-append [] cs h = refl
drop_spaces-append (c ∷ spaces) cs h =
    ground (arith, drop_spaces-append spaces cs, drop_spaces-cons c (spaces ++ cs))

drop_spaces-digits : (c : ℕ) (cs : List ℕ) → is_digit c ≡ true → drop_spaces (c ∷ cs) ≡ c ∷ cs
drop_spaces-digits c cs d = ground (arith, drop_spaces-cons c cs, digit-space c)

drop_spaces-all : (cs : List ℕ) → all is_digit cs ≡ true → drop_spaces cs ≡ cs
unfolding drop_spaces
drop_spaces-all [] h = refl
drop_spaces-all (c ∷ cs) h = drop_spaces-digits c cs (ground arith)

trim-digits :
    (before after cs : List ℕ) (c : ℕ)
    → all is_whitespace before ≡ true
    → all is_whitespace after ≡ true
    → all is_digit (c ∷ cs) ≡ true
    → trim (before ++ ((c ∷ cs) ++ after)) ≡ c ∷ cs
unfolding trim
trim-digits before after cs c b a d =
    let text = c ∷ cs in
    let front = drop_spaces-append before (text ++ after) b in
    let first = drop_spaces-digits c (cs ++ after) (ground arith) in
    let back =
      drop_spaces-append (reverse after) (reverse text) (all-reverse is_whitespace after a) in
    let last = drop_spaces-all (reverse text) (all-reverse is_digit text d) in
    let turned = reverse-append text after in let twice = reverse-reverse text in cc

-- A header that is a number below 2 ^ 64, with white space around it or none, is that many seconds: it is
-- read digit by digit with checked steps, which overflow at no number that fits.
pub parse_retry_after-seconds :
    (parse_from_rfc2822 : List ℕ → Option ℕ) (before after cs : List ℕ) (c now : ℕ)
    → all is_whitespace before ≡ true
    → all is_whitespace after ≡ true
    → all is_digit (c ∷ cs) ≡ true
    → value_of 0 (c ∷ cs) < 2 ^ 64
    → parse_retry_after parse_from_rfc2822 (before ++ ((c ∷ cs) ++ after)) now
      ≡ some (value_of 0 (c ∷ cs) * 1_000_000_000)
unfolding parse_retry_after
parse_retry_after-seconds p before after cs c now b a d l =
    let trimmed = trim-digits before after cs c b a d in let read = from_str-digits c cs d l in cc

-- ===== src/Stream/Lines.antt =====
-- src/corporate_actions/sse.rs: line endings, lines, fields, and the boundary of a frame.
pub mod Laws
use st0x_alpaca.Prelude.{
  ℕ, suc, ◌+◌, Bool, true, false, ◌&&◌, ◌||◌, List, [], ◌∷◌, ◌++◌, Option, none, some, ◌==◌, leb,
  if◌then◌else◌, drop, length, any, is_prefix,
}

abbrev pub cr : ℕ
cr = 13

abbrev pub lf : ℕ
lf = 10

abbrev pub colon : ℕ
colon = 58

abbrev pub space : ℕ
space = 32

unfoldable pub line_ending_len : List ℕ → Option ℕ
line_ending_len [] = none
line_ending_len (a ∷ []) = if a == cr || a == lf then some 1 else none
line_ending_len (a ∷ b ∷ rest) =
    if a == cr && b == lf then some 2 else if a == cr || a == lf then some 1 else none

-- Two line endings in a row at the front, and how long they are together.
unfoldable pub separator_len : List ℕ → Option ℕ
unfolding line_ending_len
separator_len input = elim (line_ending_len input) [
  | none ↦ none
  | some first_len ↦ elim (line_ending_len (drop first_len input)) [
    | none ↦ none
    | some second_len ↦ some (first_len + second_len)
  ]
]

-- `(frame_end..buffer.len()).find_map(...)` on the bytes from `frame_end` on.
unfoldable pub boundary_from : ℕ → List ℕ → Option (ℕ × ℕ)
unfolding separator_len
boundary_from frame_end [] = none
boundary_from frame_end (b ∷ rest) = elim (separator_len (b ∷ rest)) [
  | some len ↦ some (frame_end, len)
  | none ↦ boundary_from (suc frame_end) rest
]

unfoldable pub frame_boundary : List ℕ → Option (ℕ × ℕ)
unfolding boundary_from
frame_boundary buffer = boundary_from 0 buffer

abbrev or_empty : Option (List ℕ) → List ℕ
or_empty none = []
or_empty (some line) = line

-- The lines of the input, the first of which goes on from `line`, if that has begun. An LF behind a
-- CR belongs to the CR's line ending.
unfoldable pub lines_from : Option (List ℕ) → List ℕ → List (List ℕ)
lines_from none [] = []
lines_from (some line) [] = line ∷ []
lines_from line (a ∷ []) =
    if a == cr || a == lf then or_empty line ∷ [] else (or_empty line ++ a ∷ []) ∷ []
lines_from line (a ∷ b ∷ rest) = elim (a == cr && b == lf) [
  | true ↦ or_empty line ∷ lines_from none rest
  | false ↦ elim (a == cr || a == lf) [
    | true ↦ or_empty line ∷ lines_from none (b ∷ rest)
    | false ↦ lines_from (some (or_empty line ++ a ∷ [])) (b ∷ rest)
  ]
]

unfoldable pub sse_lines : List ℕ → List (List ℕ)
unfolding lines_from
sse_lines frame = lines_from none frame

-- The bytes before and after the first colon, if there is one.
split_colon : List ℕ → Option (List ℕ × List ℕ)
split_colon [] = none
split_colon (b ∷ rest) = elim (b == colon) [
  | true ↦ some ([], rest)
  | false ↦ elim (split_colon rest) [ none ↦ none | some (field, value) ↦ some (b ∷ field, value) ]
]

unfoldable pub sse_field : List ℕ → List ℕ × List ℕ
unfolding split_colon
sse_field line = elim (split_colon line) [ none ↦ (line, []) | some parts ↦ parts ]

-- `value.strip_prefix(b" ").unwrap_or(value)`.
unfoldable pub strip_space : List ℕ → List ℕ
strip_space [] = []
strip_space (b ∷ rest) = if b == space then rest else b ∷ rest

abbrev separators : List (List ℕ)
separators =
    (lf ∷ lf ∷ [])
    ∷ (lf ∷ cr ∷ [])
    ∷ (lf ∷ cr ∷ lf ∷ [])
    ∷ (cr ∷ cr ∷ [])
    ∷ (cr ∷ lf ∷ lf ∷ [])
    ∷ (cr ∷ lf ∷ cr ∷ [])
    ∷ (cr ∷ lf ∷ cr ∷ lf ∷ [])
    ∷ []

-- `MAX_SSE_FRAME_BYTES` is an argument here and in the decoder.
unfoldable pub can_still_terminate_within_limit : ℕ → List ℕ → Bool
unfolding is_prefix
can_still_terminate_within_limit max_frame buffer =
    if leb (length buffer) max_frame
    then true
    else any (λ separator. is_prefix (drop max_frame buffer) separator) separators

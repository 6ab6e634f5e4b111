-- ===== src/Stream/Lines/Laws.antt =====
-- The boundary of a frame in src/corporate_actions/sse.rs lies in the buffer.
use st0x_alpaca.Prelude.{
  ℕ, suc, ◌+◌, ◌≡◌, ◌≤◌, List, [], ◌∷◌, some, arith, length, drop, length-drop, Option-cases, inl,
  inr, true, is_prefix, All, any,
}
use st0x_alpaca.Stream.Lines.{
  line_ending_len, separator_len, boundary_from, frame_boundary, can_still_terminate_within_limit,
  separators,
}

line_ending_len-bounds :
    (input : List ℕ) {n : ℕ} → line_ending_len input ≡ some n → (1 ≤ n) × (n ≤ length input)
unfolding line_ending_len
line_ending_len-bounds [] h = ground arith
line_ending_len-bounds (a ∷ []) h = ground arith
line_ending_len-bounds (a ∷ b ∷ rest) h = ground arith

separator_len-bounds :
    (input : List ℕ) {n : ℕ} → separator_len input ≡ some n → (2 ≤ n) × (n ≤ length input)
unfolding separator_len
separator_len-bounds input {n} h = elim (Option-cases (line_ending_len input)) [
  | inl nothing ↦ ground arith
  | inr (first, e) ↦ elim (Option-cases (line_ending_len (drop first input))) [
    | inl nothing ↦ ground arith
    | inr (second, e') ↦ ground (
      arith,
      line_ending_len-bounds input e,
      line_ending_len-bounds (drop first input) e',
      length-drop first input,
    )
  ]
]

boundary_from-bounds :
    (start : ℕ) (input : List ℕ) {frame_end n : ℕ}
    → boundary_from start input ≡ some (frame_end, n)
    → (2 ≤ n) × (frame_end + n ≤ start + length input)
unfolding boundary_from
boundary_from-bounds start [] h = ground arith
boundary_from-bounds start (b ∷ rest) {frame_end} {n} h =
    elim (Option-cases (separator_len (b ∷ rest))) [
      | inl nothing ↦
          ground (arith, boundary_from-bounds (suc start) rest {frame_end = frame_end} {n = n})
      | inr (len, e) ↦ ground (arith, separator_len-bounds (b ∷ rest) e)
    ]

pub frame_boundary-bounds :
    (buffer : List ℕ) {frame_end n : ℕ}
    → frame_boundary buffer ≡ some (frame_end, n)
    → (2 ≤ n) × (frame_end + n ≤ length buffer)
unfolding frame_boundary
frame_boundary-bounds buffer h = omega (arith, boundary_from-bounds 0 buffer h)

is_prefix-length : (a b : List ℕ) → is_prefix a b ≡ true → length a ≤ length b
unfolding is_prefix
is_prefix-length [] b h = omega arith
is_prefix-length (x ∷ a) [] h = ground arith
is_prefix-length (x ∷ a) (y ∷ b) h = ground (arith, is_prefix-length a b)

any_prefix-length :
    (tail : List ℕ) (bounds : List (List ℕ))
    → All (λ (s : List ℕ). length s ≤ 4) bounds
    → any (λ separator. is_prefix tail separator) bounds ≡ true
    → length tail ≤ 4
any_prefix-length tail [] m h = ground arith
any_prefix-length tail (s ∷ bounds) (m, ms) h =
    ground (arith, is_prefix-length tail s, any_prefix-length tail bounds ms)

-- A buffer that can still end within the limit is at most a separator longer than it.
pub can_still_terminate_within_limit-length :
    (max_frame : ℕ) (buffer : List ℕ)
    → can_still_terminate_within_limit max_frame buffer ≡ true
    → length buffer ≤ max_frame + 4
unfolding can_still_terminate_within_limit
can_still_terminate_within_limit-length max_frame buffer h = ground (
  arith,
  length-drop max_frame buffer,
  any_prefix-length (drop max_frame buffer) separators (
    omega arith,
    (omega arith, (omega arith, (omega arith, (omega arith, (omega arith, (omega arith, tt)))))),
  ),
)

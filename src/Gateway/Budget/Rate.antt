-- ===== src/Gateway/Budget/Rate.antt =====
-- How much a limit of calls per minute lets through: crates/gateway/src/budget.rs over whole runs.
use st0x_alpaca.Prelude.{
  ℕ, ◌+◌, ◌-◌, ◌*◌, ◌≤◌, ◌<◌, ◌≡◌, refl, ◌∙◌, ◌⊎◌, inl, inr, List, [], ◌∷◌, Option, none, some,
  arith, ok, err, All, Bool-cases, leb,
}
use st0x_alpaca.Gateway.Budget.{HumanBudget, new, take_at, window_length, current, u32_max}
use st0x_alpaca.Gateway.Budget.Laws.{UsedWithin, IsValid, take_at-IsValid, current-within}

-- The units that one call is admitted.
gain : HumanBudget → ℕ → ℕ → ℕ
gain b units now = elim (take_at b units now).1 [ ok _ ↦ units | err _ ↦ 0 ]

-- The units that a run of timed calls, `(units, now)` each, is admitted.
pub admitted : HumanBudget → List (ℕ × ℕ) → ℕ
admitted b [] = 0
admitted b ((units, now) ∷ calls) = gain b units now + admitted (take_at b units now).0 calls

-- A call changes nothing, or charges what it is admitted to the window that is current.
abbrev Charged : HumanBudget → ℕ → ℕ → Type 0
Charged b units now =
    ((current b.window now).1 + gain b units now ≤ b.per_minute)
    × ((take_at b units now).0.per_minute ≡ b.per_minute)
    × ((take_at b units now).0.window
        ≡ some ((current b.window now).0, (current b.window now).1 + gain b units now))

take_at-Charged :
    (b : HumanBudget) (units now : ℕ)
    → IsValid b
    → (((take_at b units now).0 ≡ b) × (gain b units now ≡ 0)) ⊎ Charged b units now
unfolding take_at gain
take_at-Charged b units now v = ground (arith, current-within b.per_minute now b.window v.within)

abbrev AllBelow : ℕ → List (ℕ × ℕ) → Type 0
AllBelow end calls = All (λ (c : ℕ × ℕ). c.1 < end) calls

current_open : (s u now : ℕ) → now < s + window_length → current (some (s, u)) now ≡ (s, u)
unfolding current
current_open s u now h = ground arith

-- While no window opens, a run is admitted at most what the window has left.
admitted_open :
    (b : HumanBudget) (s u : ℕ) (calls : List (ℕ × ℕ))
    → IsValid b
    → b.window ≡ some (s, u)
    → AllBelow (s + window_length) calls
    → admitted b calls + u ≤ b.per_minute
unfolding admitted
admitted_open b s u [] v e h = ground arith
admitted_open b s u ((units, now) ∷ calls) v e h = ground (
  arith,
  take_at-Charged b units now v,
  take_at-IsValid b units now v,
  current_open s u now,
  admitted_open (take_at b units now).0 s u calls,
  admitted_open (take_at b units now).0 s (u + gain b units now) calls,
)

abbrev used_of : Option (ℕ × ℕ) → ℕ
used_of none = 0
used_of (some (s, u)) = u

-- Every call of the run is made in the minute that starts at `from`.
abbrev pub InMinute : ℕ → List (ℕ × ℕ) → Type 0
InMinute from calls = All (λ (c : ℕ × ℕ). (from ≤ c.1) × (c.1 < from + window_length)) calls

InMinute-AllBelow :
    (from now : ℕ) (calls : List (ℕ × ℕ))
    → from ≤ now
    → InMinute from calls
    → AllBelow (now + window_length) calls
InMinute-AllBelow from now [] h m = tt
InMinute-AllBelow from now (c ∷ calls) h (m, ms) =
    (omega arith, InMinute-AllBelow from now calls h ms)

current_cases :
    (w : Option (ℕ × ℕ)) (now : ℕ)
    → (current w now ≡ (now, 0))
      ⊎ ((s : ℕ) × (u : ℕ) × (w ≡ some (s, u)) × (current w now ≡ (s, u)))
unfolding current
current_cases none now = inl refl
current_cases (some (s, u)) now = elim (Bool-cases (leb window_length (now - s))) [
  | inl over ↦ inl (rw over)
  | inr still ↦ inr (s, u, refl, rw still)
]

used_bounded : (limit : ℕ) (w : Option (ℕ × ℕ)) → UsedWithin limit w → used_of w ≤ 2 * limit
used_bounded limit none h = omega arith
used_bounded limit (some (s, u)) h = omega arith

admitted_used :
    (from : ℕ) (b : HumanBudget) (calls : List (ℕ × ℕ))
    → IsValid b
    → InMinute from calls
    → admitted b calls + used_of b.window ≤ 2 * b.per_minute
unfolding admitted
admitted_used from b [] v m = omega (arith, used_bounded b.per_minute b.window v.within)
admitted_used from b ((units, now) ∷ calls) v (m, ms) = elim (take_at-Charged b units now v) [
  | inl (same, nothing) ↦ rw (nothing, same) (omega (arith, admitted_used from b calls v ms))
  | inr charged ↦ elim (current_cases b.window now) [
    | inl fresh ↦ ground (
      arith,
      charged,
      used_bounded b.per_minute b.window v.within,
      admitted_open next now (gain b units now) calls after,
      InMinute-AllBelow from now calls m.0 ms,
    )
    | inr (s, u, e, same) ↦ ground (arith, charged, admitted_used from next calls after ms)
  ]
]
  where
    next : HumanBudget
    next = (take_at b units now).0

    after : IsValid next
    after = take_at-IsValid b units now v

admitted_valid :
    (from : ℕ) (b : HumanBudget) (calls : List (ℕ × ℕ))
    → IsValid b
    → InMinute from calls
    → admitted b calls ≤ 2 * b.per_minute
admitted_valid from b calls v m = omega (arith, admitted_used from b calls v m)

-- The budget after a run of timed calls.
pub after : HumanBudget → List (ℕ × ℕ) → HumanBudget
after b [] = b
after b ((units, now) ∷ calls) = after (take_at b units now).0 calls

take_at-per_minute :
    (b : HumanBudget) (units now : ℕ) → (take_at b units now).0.per_minute ≡ b.per_minute
unfolding take_at
take_at-per_minute b units now = ground arith

after-IsValid :
    (b : HumanBudget) (calls : List (ℕ × ℕ))
    → IsValid b
    → IsValid (after b calls) × ((after b calls).per_minute ≡ b.per_minute)
unfolding after
after-IsValid b [] v = (v, refl)
after-IsValid b ((units, now) ∷ calls) v =
    let rest = after-IsValid (take_at b units now).0 calls (take_at-IsValid b units now v) in
    (rest.0, rest.1 ∙ take_at-per_minute b units now)

-- Where the limit per minute is below the largest u32: whatever calls a new budget has met, at whatever
-- times, any run of calls made within one minute is admitted at most twice the limit.
pub admitted-InMinute :
    (limit from : ℕ) (earlier calls : List (ℕ × ℕ))
    → limit < u32_max
    → InMinute from calls
    → admitted (after (new limit) earlier) calls ≤ 2 * limit
unfolding new
admitted-InMinute limit from earlier calls fits m =
    let (valid, same) =
      after-IsValid (new limit) earlier (record { limit_fits = fits; within = tt }) in
    omega (arith, admitted_valid from (after (new limit) earlier) calls valid m, same)

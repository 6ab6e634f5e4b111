-- ===== src/Gateway/Budget/Laws.antt =====
-- The rate that the window of crates/gateway/src/budget.rs admits, and when a refused call may
-- come back.
use st0x_alpaca.Prelude.{ℕ, ◌+◌, ◌≤◌, ◌<◌, ◌≡◌, false, Option, none, some, arith, ok, err}
use st0x_alpaca.Gateway.Budget.{HumanBudget, take_at, window_length, u32_max, current}

-- A u32 limit that the window in use never passes.
abbrev pub UsedWithin : ℕ → Option (ℕ × ℕ) → Type 0
UsedWithin limit none = Unit {0}
UsedWithin limit (some (started, used)) = used ≤ limit

-- The limit leaves room for the check that saturates, and the window in use is within the limit.
pub record IsValid (b : HumanBudget) : Type 0 where
  pub limit_fits : b.per_minute < u32_max
  pub within : UsedWithin b.per_minute b.window

pub current-within :
    (limit now : ℕ) (w : Option (ℕ × ℕ)) → UsedWithin limit w → (current w now).1 ≤ limit
unfolding current
current-within limit now none h = omega arith
current-within limit now (some (started, used)) h = ground arith

pub take_at-IsValid :
    (b : HumanBudget) (units now : ℕ) → IsValid b → IsValid (take_at b units now).0
unfolding take_at
take_at-IsValid b units now v = ground (arith, current-within b.per_minute now b.window v.within)

-- The window in use was not opened after the instant.
abbrev pub StartedBy : ℕ → Option (ℕ × ℕ) → Type 0
StartedBy now none = Unit {0}
StartedBy now (some (started, used)) = started ≤ now

current_at :
    (now : ℕ) (w : Option (ℕ × ℕ))
    → StartedBy now w
    → ((current w now).0 ≤ now) × (now < (current w now).0 + window_length)
unfolding current
current_at now none h = omega arith
current_at now (some (started, used)) h = ground arith

-- Once the window that a call found has run out, the next call finds an empty one.
current_later :
    (started used later : ℕ)
    → started + window_length ≤ later
    → current (some (started, used)) later ≡ (later, 0)
unfolding current
current_later started used later h = ground arith

-- A call within the limit that is refused, at an instant not before the window's start, is told a
-- wait that is positive and at most one minute; the same call made after that wait is admitted.
pub refused_wait :
    (b : HumanBudget) (units now wait later : ℕ)
    → b.poisoned ≡ false
    → units ≤ b.per_minute
    → b.per_minute < u32_max
    → StartedBy now b.window
    → (take_at b units now).1 ≡ err wait
    → now + wait ≤ later
    → (0 < wait)
      × (wait ≤ window_length)
      × ((take_at (take_at b units now).0 units later).1 ≡ ok tt)
unfolding take_at
refused_wait b units now wait later h fits lim s e p = (
  ground (arith, current_at now b.window s),
  ground (arith, current_at now b.window s),
  ground (
    arith,
    current_at now b.window s,
    current_later (current b.window now).0 (current b.window now).1 later,
  ),
)

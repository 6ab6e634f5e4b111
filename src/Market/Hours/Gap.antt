-- ===== src/Market/Hours/Gap.antt =====
-- The status of src/broker/market_hours.rs: the times that it gives, and what it says of the closure.
use st0x_alpaca.Prelude.{
  ℕ, ◌+◌, ◌<◌, ◌≡◌, ◌≢◌, ◌==◌, min, refl, true, false, List, [], ◌∷◌, Option, none, some, any, ltb,
  arith, Result, ok, err, ◌>>=◌, subst,
}
use st0x_alpaca.Errors.Http.{Http}
use st0x_alpaca.Errors.Broker.{AlpacaBrokerApiError}
use st0x_alpaca.Market.Hours.{
  MarketSession, PostCloseGap, ordinary_overnight, multi_day_closure, unknown, MarketSessionStatus,
  CalendarDay, Clock, session_and_close_at, next_session_lookahead_days, market_session_at,
  classified, timed, untimed, local_market_time_to_utc, session_without, session_of,
}
use st0x_alpaca.Market.Hours.Status.{
  later_dates, least, min_date, gap_before, gap_of, classify_post_close_gap,
  market_session_status_at, gap_until, status_of,
}
use st0x_alpaca.Market.Hours.Laws.{holds}

least-min : (a b : ℕ) (dates : List ℕ) → least (min a b) dates ≡ min a (least b dates)
unfolding least
least-min a b [] = refl
least-min a b (date ∷ dates) =
    ground (arith, least-min (min a b) date dates, least-min b date dates, least-min a date dates)

abbrev or_min : ℕ → Option ℕ → ℕ
or_min date none = date
or_min date (some other) = min date other

min_date-cons :
    (date : ℕ) (dates : List ℕ) → min_date (date ∷ dates) ≡ some (or_min date (min_date dates))
unfolding min_date least
min_date-cons date [] = refl
min_date-cons date (other ∷ dates) = ground (arith, least-min date other dates)

-- The first date past the current one, and whether the next day is one.
abbrev IsFirstPast : ℕ → List CalendarDay → Option ℕ → Type 0
IsFirstPast current days none =
    (any (λ day. ltb current day.date) days ≡ false) × (holds (current + 1) days ≡ false)
IsFirstPast current days (some date) =
    (any (λ day. ltb current day.date) days ≡ true)
    × (current < date)
    × (holds (current + 1) days ≡ (date == current + 1))

later_dates-IsFirstPast :
    (current : ℕ) (days : List CalendarDay)
    → IsFirstPast current days (min_date (later_dates current days))
unfolding later_dates min_date
later_dates-IsFirstPast current [] = ground arith
later_dates-IsFirstPast current (day ∷ days) =
    ground (
      arith,
      later_dates-IsFirstPast current days,
      min_date-cons day.date (later_dates current days),
    )

module _ (H : Http) where
  -- What the closure after a day is, by the calendar's answer for the days that follow.
  abbrev pub IsClosure :
      ℕ → PostCloseGap → Result (List CalendarDay) (AlpacaBrokerApiError H) → Type 0
  IsClosure today ordinary_overnight (ok days) = holds (today + 1) days ≡ true
  IsClosure today multi_day_closure (ok days) =
      (holds (today + 1) days ≡ false) × (any (λ day. ltb today day.date) days ≡ true)
  IsClosure today unknown (ok days) = any (λ day. ltb today day.date) days ≡ false
  IsClosure today gap (err _) = gap ≡ unknown
  IsClosure today _ _ = ⊥

  gap_of-IsClosure :
      (today : ℕ) (r : Result (List CalendarDay) (AlpacaBrokerApiError H))
      → IsClosure today (gap_of H today (today + 1) r) r
  unfolding gap_of gap_before
  gap_of-IsClosure today (ok days) = ground (arith, later_dates-IsFirstPast today days)
  gap_of-IsClosure today (err _) = refl

  module _ (Z : Clock)
      (get_calendar : ℕ → ℕ → Result (List CalendarDay) (AlpacaBrokerApiError H)) where
    -- The closure after a day is ordinary exactly when the calendar has the next day, longer exactly when it
    -- has later days but not that one, and unknown exactly when it has none or fails: the least of the
    -- later days decides, in whatever order the calendar lists them. Both dates of the request are given.
    pub classify_post_close_gap-IsClosure :
        (today end : ℕ)
        → Z.checked_add_days today 1 ≡ some (today + 1)
        → Z.checked_add_days today next_session_lookahead_days ≡ some end
        → IsClosure today
            (classify_post_close_gap H Z get_calendar today)
            (get_calendar (today + 1) end)
    unfolding classify_post_close_gap gap_until
    classify_post_close_gap-IsClosure today end h h' =
        subst (λ gap. IsClosure today gap (get_calendar (today + 1) end))
          {x = gap_of H today (today + 1) (get_calendar (today + 1) end)} (ground arith)
          (gap_of-IsClosure today (get_calendar (today + 1) end))

    -- The times and the closure that go with a session.
    abbrev pub IsTimed : ℕ → MarketSession → MarketSessionStatus → Type 0
    IsTimed today MarketSession.extended status =
        (status.session_opens_at ≢ none)
        × (status.extended_session_closes_at ≢ none)
        × (status.regular_session_closes_at ≡ none)
        × (status.post_close_gap ≡ classify_post_close_gap H Z get_calendar today)
    IsTimed today MarketSession.regular status =
        (status.session_opens_at ≡ none)
        × (status.extended_session_closes_at ≡ none)
        × (status.regular_session_closes_at ≢ none)
        × (status.post_close_gap ≡ unknown)
    IsTimed today _ status =
        (status.session_opens_at ≡ none)
        × (status.extended_session_closes_at ≡ none)
        × (status.regular_session_closes_at ≡ none)
        × (status.post_close_gap ≡ unknown)

    abbrev pub IsTimedAnswer : ℕ → Result MarketSessionStatus (AlpacaBrokerApiError H) → Type 0
    IsTimedAnswer today (ok status) = IsTimed today status.session status
    IsTimedAnswer today (err _) = Unit

    -- The opening and the close of the extended session are given exactly in that session, which alone has
    -- its closure classified, and the close of the regular session exactly in the regular one.
    pub market_session_status_at-IsTimedAnswer :
        (now : ℕ) → IsTimedAnswer (Z.date_of now) (market_session_status_at H Z get_calendar now)
    unfolding market_session_status_at status_of session_and_close_at classified timed untimed
        local_market_time_to_utc session_without session_of
    market_session_status_at-IsTimedAnswer now = ground arith

    -- A status has the session that the plain reading gives, and fails as it does.
    pub market_session_status_at-session :
        (now : ℕ)
        → (market_session_status_at H Z get_calendar now >>= (λ status. ok status.session))
          ≡ market_session_at H Z get_calendar now
    unfolding market_session_status_at market_session_at status_of
    market_session_status_at-session now = ground arith

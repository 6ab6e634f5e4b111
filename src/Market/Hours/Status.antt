-- ===== src/Market/Hours/Status.antt =====
-- src/broker/market_hours.rs: the status of a session, with the closure that follows an extended one.
use st0x_alpaca.Prelude.{
  ℕ, min, ◌==◌, List, [], ◌∷◌, Option, none, some, ltb, if◌then◌else◌, Result, ok, err, ◌>>=◌,
}
use st0x_alpaca.Errors.Http.{Http}
use st0x_alpaca.Errors.Broker.{AlpacaBrokerApiError}
use st0x_alpaca.Market.Hours.{
  MarketSession, PostCloseGap, ordinary_overnight, multi_day_closure, unknown, unavailable,
  MarketSessionStatus, CalendarDay, Clock, SessionAndClose, is_extended, session_and_close_at,
  next_session_lookahead_days,
}

unfoldable pub without_close_metadata : MarketSession → MarketSessionStatus
without_close_metadata session = record {
  session = session;
  session_opens_at = none;
  regular_session_closes_at = none;
  extended_session_closes_at = none;
  post_close_gap = unavailable;
}

-- The dates past the current one.
unfoldable pub later_dates : ℕ → List CalendarDay → List ℕ
later_dates current [] = []
later_dates current (day ∷ days) =
    if ltb current day.date then day.date ∷ later_dates current days else later_dates current days

unfoldable pub least : ℕ → List ℕ → ℕ
least date [] = date
least date (other ∷ dates) = least (min date other) dates

unfoldable pub min_date : List ℕ → Option ℕ
unfolding least
min_date [] = none
min_date (date ∷ dates) = some (least date dates)

unfoldable pub gap_before : ℕ → Option ℕ → PostCloseGap
gap_before start none = unknown
gap_before start (some next_trading_day) =
    if next_trading_day == start then ordinary_overnight else multi_day_closure

module _ (H : Http) where
  unfoldable pub gap_of : ℕ → ℕ → Result (List CalendarDay) (AlpacaBrokerApiError H) → PostCloseGap
  unfolding gap_before min_date later_dates
  gap_of current start (err _) = unknown
  gap_of current start (ok calendar) = gap_before start (min_date (later_dates current calendar))

  module _ (Z : Clock)
      (get_calendar : ℕ → ℕ → Result (List CalendarDay) (AlpacaBrokerApiError H)) where
    unfoldable pub gap_until : ℕ → ℕ → Option ℕ → PostCloseGap
    unfolding gap_of
    gap_until current start none = unknown
    gap_until current start (some end) = gap_of current start (get_calendar start end)

    unfoldable pub classify_post_close_gap : ℕ → PostCloseGap
    unfolding gap_until
    classify_post_close_gap current = elim (Z.checked_add_days current 1) [
      | none ↦ unknown
      | some start ↦
          gap_until current start (Z.checked_add_days current next_session_lookahead_days)
    ]

    unfoldable pub status_of : SessionAndClose → MarketSessionStatus
    unfolding classify_post_close_gap
    status_of s = record {
      session = s.session;
      session_opens_at = s.session_opens_at;
      regular_session_closes_at = s.regular_session_closes_at;
      extended_session_closes_at = s.extended_session_closes_at;
      post_close_gap = if is_extended s.session then classify_post_close_gap s.today else unknown;
    }

    unfoldable pub market_session_status_at :
        ℕ → Result MarketSessionStatus (AlpacaBrokerApiError H)
    unfolding status_of session_and_close_at
    market_session_status_at now =
        session_and_close_at H Z get_calendar now >>= (λ s. ok (status_of s))

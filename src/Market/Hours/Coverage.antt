-- ===== src/Market/Hours/Coverage.antt =====
-- src/broker/market_hours.rs on days with the documented bounds: the sessions cover the whole of a
-- trading day, which runs from 20:00 of the day before to 20:00.
use st0x_alpaca.Prelude.{
  ℕ, ◌+◌, ◌*◌, ◌≤◌, ◌≡◌, ◌&&◌, ◌==◌, Bool, false, List, [], ◌∷◌, Option, none, some, any, All, ltb,
  leb, if◌then◌else◌, arith, Result, ok, ◌>>=◌, Bool-cases, inl, inr,
}
use st0x_alpaca.Errors.Http.{Http}
use st0x_alpaca.Errors.Broker.{AlpacaBrokerApiError}
use st0x_alpaca.Market.Hours.{
  MarketSession, CalendarDay, Clock, hour_length, session_of, session_without, session_and_close_at,
  market_session_at, local_market_time_to_utc, classified, timed, untimed,
}
use st0x_alpaca.Market.Hours.Laws.{last_of, holds, visit_all-last_of}

-- The extended window that the market-hours module documents, with the regular hours inside it.
abbrev pub IsDocumented : CalendarDay → Type 0
IsDocumented day =
    (day.session_open ≡ 4 * hour_length)
    × (day.session_close ≡ 20 * hour_length)
    × (day.session_open ≤ day.«open»)
    × (day.close ≤ day.session_close)

-- The session by the clock: the trading day at hand is tomorrow from 20:00, and today before.
abbrev pub at_clock : ℕ → Option CalendarDay → Bool → MarketSession
at_clock time entry tomorrow_trades =
    if leb (20 * hour_length) time
    then if tomorrow_trades then MarketSession.overnight else MarketSession.closed
    else (elim entry [
      | none ↦ MarketSession.closed
      | some day ↦
          if ltb time (4 * hour_length)
          then MarketSession.overnight
          else if leb day.«open» time && ltb time day.close
          then MarketSession.regular
          else MarketSession.extended
    ])

abbrev pub by_clock : ℕ → ℕ → List CalendarDay → MarketSession
by_clock today time days = at_clock time (last_of today days none) (holds (today + 1) days)

abbrev IsDocumentedIn : Option CalendarDay → Type 0
IsDocumentedIn none = Unit
IsDocumentedIn (some day) = IsDocumented day

last_of-IsDocumented :
    (date : ℕ) (days : List CalendarDay) (entry : Option CalendarDay)
    → All IsDocumented days
    → IsDocumentedIn entry
    → IsDocumentedIn (last_of date days entry)
last_of-IsDocumented date [] entry d e = e
last_of-IsDocumented date (day ∷ days) entry (d, ds) e = elim (Bool-cases (day.date == date)) [
  | inl h ↦ ground (arith, last_of-IsDocumented date days (some day) ds d)
  | inr h ↦ ground (arith, last_of-IsDocumented date days entry ds e)
]

module _ (H : Http) (Z : Clock)
    (get_calendar : ℕ → ℕ → Result (List CalendarDay) (AlpacaBrokerApiError H)) where
  classified-at_clock :
      (today time : ℕ) (entry : Option CalendarDay) (trades : Bool) (instant : ℕ → ℕ)
      → IsDocumentedIn entry
      → ((time : ℕ) → Z.to_utc today time ≡ some (instant time))
      → (classified H Z get_calendar today time (entry, trades) >>= (λ s. ok s.session))
        ≡ ok (at_clock time entry trades)
  unfolding classified timed local_market_time_to_utc session_of session_without untimed
  classified-at_clock today time none trades instant d u = ground arith
  classified-at_clock today time (some day) trades instant d u =
      ground (arith, u day.session_close, u day.session_open, u day.close)

  -- Where the calendar is answered with no day past, each of its days with the extended window 4:00 to
  -- 20:00 around its regular hours, and today's local times have instants, the session is that of the
  -- trading day at hand, which is tomorrow from 20:00 and today before: closed if the calendar has no
  -- such day, and else overnight before 4:00 and from 20:00, regular in the regular hours, and extended
  -- in all the rest of the day.
  pub market_session_at-by_clock :
      (now : ℕ) (days : List CalendarDay) (instant : ℕ → ℕ)
      → Z.checked_add_days (Z.date_of now) 1 ≡ some (Z.date_of now + 1)
      → get_calendar (Z.date_of now) (Z.date_of now + 1) ≡ ok days
      → any (λ day. ltb day.date (Z.date_of now)) days ≡ false
      → All IsDocumented days
      → ((time : ℕ) → Z.to_utc (Z.date_of now) time ≡ some (instant time))
      → market_session_at H Z get_calendar now ≡ ok (by_clock (Z.date_of now) (Z.time_of now) days)
  unfolding market_session_at session_and_close_at
  market_session_at-by_clock now days instant h g early d u =
      let today = Z.date_of now in
      let entry = last_of today days none in
      ground (
        arith,
        visit_all-last_of H today days none false early,
        classified-at_clock today (Z.time_of now) entry (holds (today + 1) days) instant
            (last_of-IsDocumented today days none d tt) u,
      )

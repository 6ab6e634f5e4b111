-- ===== src/Market/Hours/Laws.antt =====
-- What an answered session of src/broker/market_hours.rs means, in terms of the calendar's answer.
use st0x_alpaca.Prelude.{
  ℕ, ◌+◌, ◌*◌, ◌≤◌, ◌<◌, ◌≡◌, ◌≢◌, ◌⊎◌, ◌||◌, ◌==◌, Bool, true, false, List, [], ◌∷◌, Option, none,
  some, any, ltb, arith, Result, ok, err, ◌>>=◌, Result-cases, Option-cases, inl, inr, subst, sym,
}
use st0x_alpaca.Errors.Http.{Http}
use st0x_alpaca.Errors.Broker.{AlpacaBrokerApiError, calendar_date_mismatch}
use st0x_alpaca.Market.Hours.{
  MarketSession, untimed, CalendarDay, Clock, hour_length, SessionAndClose, session_of,
  session_without, visit, visit_all, session_and_close_at, market_session_at,
  local_market_time_to_utc, classified, timed,
}

-- The last entry for a date, or `entry`.
abbrev pub last_of : ℕ → List CalendarDay → Option CalendarDay → Option CalendarDay
last_of date [] entry = entry
last_of date (day ∷ days) entry =
    last_of date days (elim (day.date == date) [ true ↦ some day | false ↦ entry ])

abbrev pub holds : ℕ → List CalendarDay → Bool
holds date days = any (λ day. day.date == date) days

module _ (H : Http) where
  visit_all-ok :
      (today : ℕ) (days : List CalendarDay) (entry : Option CalendarDay) (trades : Bool)
      (seen : Option CalendarDay × Bool)
      → visit_all H today (today + 1) days entry trades ≡ ok seen
      → (seen.0 ≡ last_of today days entry)
        × (seen.1 ≡ (trades || holds (today + 1) days))
        × (any (λ day. ltb day.date today) days ≡ false)
  unfolding visit_all visit
  visit_all-ok today [] entry trades seen e = ground arith
  visit_all-ok today (day ∷ days) entry trades seen e = ground (
    arith,
    visit_all-ok today days (some day) trades seen,
    visit_all-ok today days entry trades seen,
    visit_all-ok today days entry true seen,
  )

  visit_all-err :
      (today : ℕ) (days : List CalendarDay) (entry : Option CalendarDay) (trades : Bool)
      → any (λ day. ltb day.date today) days ≡ true
      → visit_all H today (today + 1) days entry trades ≡ err calendar_date_mismatch
  unfolding visit_all visit
  visit_all-err today [] entry trades e = ground arith
  visit_all-err today (day ∷ days) entry trades e = ground (
    arith,
    visit_all-err today days (some day) trades,
    visit_all-err today days entry trades,
    visit_all-err today days entry true,
  )

  pub visit_all-last_of :
      (today : ℕ) (days : List CalendarDay) (entry : Option CalendarDay) (trades : Bool)
      → any (λ day. ltb day.date today) days ≡ false
      → visit_all H today (today + 1) days entry trades
        ≡ ok (last_of today days entry, trades || holds (today + 1) days)
  unfolding visit_all visit
  visit_all-last_of today [] entry trades e = ground arith
  visit_all-last_of today (day ∷ days) entry trades e = ground (
    arith,
    visit_all-last_of today days (some day) trades,
    visit_all-last_of today days entry trades,
    visit_all-last_of today days entry true,
  )

-- The time is in a window of the entry, if there is one.
abbrev pub InRegular : ℕ → Option CalendarDay → Type 0
InRegular time none = ⊥
InRegular time (some day) = (day.«open» ≤ time) × (time < day.close)

abbrev pub InSession : ℕ → Option CalendarDay → Type 0
InSession time none = ⊥
InSession time (some day) = (day.session_open ≤ time) × (time < day.session_close)

-- The calendar's days back the session at a time of today.
abbrev pub IsBacked : ℕ → ℕ → MarketSession → List CalendarDay → Type 0
IsBacked today time MarketSession.regular days = InRegular time (last_of today days none)
IsBacked today time MarketSession.extended days =
    InSession time (last_of today days none) × ¬ InRegular time (last_of today days none)
IsBacked today time MarketSession.overnight days =
    ((20 * hour_length ≤ time) × (holds (today + 1) days ≡ true))
    ⊎ ((time < 4 * hour_length) × (last_of today days none ≢ none))
IsBacked today time MarketSession.closed days = Unit

module _ (H : Http) where
  abbrev pub IsBackedIn :
      ℕ → ℕ → MarketSession → Result (List CalendarDay) (AlpacaBrokerApiError H) → Type 0
  IsBackedIn today time session (ok days) =
      IsBacked today time session days × (any (λ day. ltb day.date today) days ≡ false)
  IsBackedIn today time session (err _) = ⊥

module _ (H : Http) (Z : Clock)
    (get_calendar : ℕ → ℕ → Result (List CalendarDay) (AlpacaBrokerApiError H)) where
  session_of-IsBacked :
      (today time : ℕ) (days : List CalendarDay) (seen : Option CalendarDay × Bool)
      (s : SessionAndClose)
      → seen.0 ≡ last_of today days none
      → seen.1 ≡ holds (today + 1) days
      → classified H Z get_calendar today time seen ≡ ok s
      → IsBacked today time s.session days
  unfolding classified timed session_of session_without local_market_time_to_utc
  session_of-IsBacked today time days (none, trades) s e t c = ground arith
  session_of-IsBacked today time days (some day, trades) s e t c = ground arith

  abbrev answer :
      ℕ
      → ℕ
      → Result (List CalendarDay) (AlpacaBrokerApiError H)
      → Result SessionAndClose (AlpacaBrokerApiError H)
  answer today time calendar =
      calendar
      >>= (λ days. visit_all H today (today + 1) days none false)
      >>= classified H Z get_calendar today time

  answer-IsBackedIn :
      (today time : ℕ) (calendar : Result (List CalendarDay) (AlpacaBrokerApiError H))
      (s : SessionAndClose)
      → answer today time calendar ≡ ok s
      → IsBackedIn H today time s.session calendar
  answer-IsBackedIn today time (ok days) s e =
      elim (Result-cases (visit_all H today (today + 1) days none false)) [
        | inl (seen, v) ↦
            let same = visit_all-ok H today days none false seen v in
            let c : classified H Z get_calendar today time seen ≡ ok s = cc in
            (session_of-IsBacked today time days seen s same.0 same.1 c, same.2)
        | inr (failure, v) ↦ cc
      ]
  answer-IsBackedIn today time (err failure) s e = cc

  session_and_close_at-answer :
      (now : ℕ) (s : SessionAndClose)
      → session_and_close_at H Z get_calendar now ≡ ok s
      → s.session ≢ MarketSession.closed
      → let today = Z.date_of now in
        answer today (Z.time_of now) (get_calendar today (today + 1)) ≡ ok s
  unfolding session_and_close_at untimed
  session_and_close_at-answer now s e opened =
      let today = Z.date_of now in
      elim (Option-cases (Z.checked_add_days today 1)) [
        | inl h ↦ ground arith
        | inr (tomorrow, h) ↦ ground (arith, Z.checked_add_days_lem today 1 tomorrow h)
      ]

  -- The session is never made up. One that is not closed is backed by the calendar's answer for today
  -- and tomorrow, none of whose days is past: in regular and extended hours by an entry for today whose
  -- window holds the time, the extended window only outside the regular one; overnight by an entry for
  -- tomorrow from 20:00, or for today before 4:00.
  pub market_session_at-IsBackedIn :
      (now : ℕ) (session : MarketSession)
      → market_session_at H Z get_calendar now ≡ ok session
      → session ≢ MarketSession.closed
      → IsBackedIn H
          (Z.date_of now)
          (Z.time_of now)
          session
          (get_calendar (Z.date_of now) (Z.date_of now + 1))
  unfolding market_session_at
  market_session_at-IsBackedIn now session e opened =
      elim (Result-cases (session_and_close_at H Z get_calendar now)) [
        | inl (s, a) ↦
            let same : s.session ≡ session = ground arith in
            let opened' = subst (λ x. x ≢ MarketSession.closed) (sym same) opened in
            subst
              (λ session'.
                IsBackedIn H (Z.date_of now) (Z.time_of now) session'
                  (get_calendar (Z.date_of now) (Z.date_of now + 1)))
              same
              (answer-IsBackedIn (Z.date_of now) (Z.time_of now) _ s
                (session_and_close_at-answer now s a opened'))
        | inr (failure, a) ↦ ground arith
      ]

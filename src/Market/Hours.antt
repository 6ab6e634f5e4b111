-- ===== src/Market/Hours.antt =====
-- src/broker/session.rs and src/broker/market_hours.rs: the market's session at an instant, from the
-- days of Alpaca's calendar, and the closure that follows an extended session.
--
-- A date is a day number, an instant a number, and a time of day its second times 2 * 10 ^ 9 plus the
-- nanoseconds within the second, those of a leap second included, so that times are ordered as chrono
-- orders them. The time zone, the arithmetic of dates, and the calendar request are an interface.
pub mod Status
pub mod Laws
pub mod Coverage
pub mod Gap
mod Tests
use st0x_alpaca.Prelude.{
  ℕ, ◌+◌, ◌*◌, ◌/◌, ◌==◌, ◌&&◌, ◌≡◌, Bool, true, false, List, [], ◌∷◌, Option, none, some, ltb, leb,
  if◌then◌else◌, Result, ok, err, ◌>>=◌,
}
use st0x_alpaca.Errors.Http.{Http}
use st0x_alpaca.Errors.Broker.{
  AlpacaBrokerApiError, calendar_date_mismatch, calendar_local_time_unresolvable,
}

pub data MarketSession : Type 0 where
  regular extended overnight closed : MarketSession

pub data PostCloseGap : Type 0 where
  ordinary_overnight multi_day_closure unknown unavailable : PostCloseGap

pub record MarketSessionStatus : Type 0 where
  pub session : MarketSession
  pub session_opens_at : Option ℕ
  pub regular_session_closes_at : Option ℕ
  pub extended_session_closes_at : Option ℕ
  pub post_close_gap : PostCloseGap

pub record CalendarDay : Type 0 where
  pub date : ℕ
  pub «open» : ℕ
  pub close : ℕ
  pub session_open : ℕ
  pub session_close : ℕ

-- `to_utc` is the single instant of a local time, if there is one. The law is chrono's: a date that
-- `checked_add_days` gives is that many days later.
pub record Clock : Type 0 where
  pub date_of : ℕ → ℕ
  pub time_of : ℕ → ℕ
  pub to_utc : ℕ → ℕ → Option ℕ
  pub checked_add_days : ℕ → ℕ → Option ℕ
  pub checked_add_days_lem : (d n e : ℕ) → checked_add_days d n ≡ some e → e ≡ d + n

abbrev pub hour_length : ℕ
hour_length = 3600 * 2_000_000_000

abbrev pub hour : ℕ → ℕ
hour time = time / hour_length

abbrev pub next_session_lookahead_days : ℕ
next_session_lookahead_days = 14

pub record SessionAndClose : Type 0 where
  pub session : MarketSession
  pub session_opens_at : Option ℕ
  pub regular_session_closes_at : Option ℕ
  pub extended_session_closes_at : Option ℕ
  pub today : ℕ

-- A session for which no times are given.
unfoldable pub untimed : MarketSession → ℕ → SessionAndClose
untimed session today = record {
  session = session;
  session_opens_at = none;
  regular_session_closes_at = none;
  extended_session_closes_at = none;
  today = today;
}

abbrev pub is_regular : MarketSession → Bool
is_regular MarketSession.regular = true
is_regular _ = false

abbrev pub is_extended : MarketSession → Bool
is_extended MarketSession.extended = true
is_extended _ = false

abbrev then_some : Bool → ℕ → Option ℕ
then_some true at = some at
then_some false at = none

-- Where today is no trading day.
unfoldable pub session_without : ℕ → Bool → MarketSession
session_without now_time tomorrow_is_trading_day =
    if leb 20 (hour now_time) && tomorrow_is_trading_day
    then MarketSession.overnight
    else MarketSession.closed

unfoldable pub session_of : CalendarDay → ℕ → Bool → MarketSession
session_of day now_time tomorrow_is_trading_day =
    if leb day.«open» now_time && ltb now_time day.close
    then MarketSession.regular
    else if leb day.session_open now_time && ltb now_time day.session_close
    then MarketSession.extended
    else if leb 20 (hour now_time) && tomorrow_is_trading_day
    then MarketSession.overnight
    else if ltb (hour now_time) 4
    then MarketSession.overnight
    else MarketSession.closed

module _ (H : Http) where
  -- One round of the loop over the calendar: today's entry, and whether there is one for tomorrow.
  unfoldable pub visit :
      ℕ
      → ℕ
      → CalendarDay
      → Option CalendarDay
      → Bool
      → Result (Option CalendarDay × Bool) (AlpacaBrokerApiError H)
  visit today tomorrow day entry trades =
      if ltb day.date today
      then err calendar_date_mismatch
      else if day.date == today
      then ok (some day, trades)
      else if day.date == tomorrow
      then ok (entry, true)
      else ok (entry, trades)

  unfoldable pub visit_all :
      ℕ
      → ℕ
      → List CalendarDay
      → Option CalendarDay
      → Bool
      → Result (Option CalendarDay × Bool) (AlpacaBrokerApiError H)
  unfolding visit
  visit_all today tomorrow [] entry trades = ok (entry, trades)
  visit_all today tomorrow (day ∷ days) entry trades =
      visit today tomorrow day entry trades
      >>= (λ seen. visit_all today tomorrow days seen.0 seen.1)

  module _ (Z : Clock)
      (get_calendar : ℕ → ℕ → Result (List CalendarDay) (AlpacaBrokerApiError H)) where
    unfoldable pub local_market_time_to_utc : ℕ → ℕ → Result ℕ (AlpacaBrokerApiError H)
    local_market_time_to_utc date time = elim (Z.to_utc date time) [
      | none ↦ err calendar_local_time_unresolvable
      | some at ↦ ok at
    ]

    -- With an entry for today.
    unfoldable pub timed :
        CalendarDay → MarketSession → ℕ → Result SessionAndClose (AlpacaBrokerApiError H)
    unfolding local_market_time_to_utc
    timed day session today = local_market_time_to_utc today day.session_close >>= (λ session_close.
        local_market_time_to_utc today day.session_open >>= (λ session_open.
          local_market_time_to_utc today day.close >>= (λ regular_close. ok (record {
            session = session;
            session_opens_at = then_some (is_extended session) session_open;
            regular_session_closes_at = then_some (is_regular session) regular_close;
            extended_session_closes_at = then_some (is_extended session) session_close;
            today = today;
          }))))

    unfoldable pub classified :
        ℕ → ℕ → Option CalendarDay × Bool → Result SessionAndClose (AlpacaBrokerApiError H)
    unfolding untimed session_without session_of timed
    classified today now_time (none, trades) = ok (untimed (session_without now_time trades) today)
    classified today now_time (some day, trades) = timed day (session_of day now_time trades) today

    unfoldable pub session_and_close_at : ℕ → Result SessionAndClose (AlpacaBrokerApiError H)
    unfolding untimed visit_all classified
    session_and_close_at now = elim (Z.checked_add_days (Z.date_of now) 1) [
      | none ↦ ok (untimed MarketSession.closed (Z.date_of now))
      | some tomorrow ↦
          get_calendar (Z.date_of now) tomorrow
          >>= (λ calendar. visit_all (Z.date_of now) tomorrow calendar none false)
          >>= classified (Z.date_of now) (Z.time_of now)
    ]

    unfoldable pub market_session_at : ℕ → Result MarketSession (AlpacaBrokerApiError H)
    unfolding session_and_close_at
    market_session_at now = session_and_close_at now >>= (λ s. ok s.session)

    unfoldable pub is_market_open_at : ℕ → Result Bool (AlpacaBrokerApiError H)
    unfolding market_session_at
    is_market_open_at now = market_session_at now >>= (λ session. ok (is_regular session))

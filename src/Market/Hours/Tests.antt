-- ===== src/Market/Hours/Tests.antt =====
-- Examples for sessions: a clock of local days without a shift, and a calendar with two trading days.
use st0x_alpaca.Prelude.{
  ℕ, ◌+◌, ◌*◌, ◌/◌, ◌%◌, ◌==◌, ◌≡◌, refl, List, [], ◌∷◌, some, if◌then◌else◌, Result, ok, arith,
}
use st0x_alpaca.Errors.Sample.{http}
use st0x_alpaca.Errors.Broker.{AlpacaBrokerApiError}
use st0x_alpaca.Market.Hours.{
  MarketSession, CalendarDay, Clock, hour_length, session_and_close_at, market_session_at,
  visit_all, classified, session_of, session_without, timed, untimed, local_market_time_to_utc,
  visit,
}
use st0x_alpaca.Market.Hours.Status.{classify_post_close_gap}
use st0x_alpaca.Market.Hours.Laws.{IsBackedIn, market_session_at-IsBackedIn}
use st0x_alpaca.Market.Hours.Coverage.{IsDocumented, market_session_at-by_clock}
use st0x_alpaca.Market.Hours.Gap.{IsClosure, classify_post_close_gap-IsClosure}

abbrev day_length : ℕ
day_length = 24 * hour_length

added_lem : (date days other : ℕ) → some (date + days) ≡ some other → other ≡ date + days
added_lem date days other h = cc

abbrev clock : Clock
clock = record {
  date_of = λ now. now / day_length;
  time_of = λ now. now % day_length;
  to_utc = λ date time. some (date * day_length + time);
  checked_add_days = λ date days. some (date + days);
  checked_add_days_lem = added_lem;
}

abbrev trading_day : ℕ → CalendarDay
trading_day date = record {
  date = date;
  «open» = 9 * hour_length + 1800 * 2_000_000_000;
  close = 16 * hour_length;
  session_open = 4 * hour_length;
  session_close = 20 * hour_length;
}

-- Days 100 and 101 trade, and the next trading day after them is 105.
abbrev week : ℕ → ℕ → Result (List CalendarDay) (AlpacaBrokerApiError http)
week start end =
    if start == 100
    then ok (trading_day 100 ∷ trading_day 101 ∷ [])
    else if start == 101
    then ok (trading_day 101 ∷ [])
    else ok (trading_day 105 ∷ [])

abbrev noon : ℕ
noon = 100 * day_length + 12 * hour_length

abbrev evening : ℕ
evening = 100 * day_length + 21 * hour_length

abbrev night : ℕ
night = 101 * day_length + 2 * hour_length

trading_day-IsDocumented : IsDocumented (trading_day 101)
trading_day-IsDocumented = ground arith

noon_regular : market_session_at http clock week noon ≡ ok MarketSession.regular
unfolding market_session_at session_and_close_at visit_all classified session_of session_without
    timed untimed local_market_time_to_utc visit
noon_regular = refl

holiday_closed : market_session_at http clock week (103 * day_length) ≡ ok MarketSession.closed
unfolding market_session_at session_and_close_at visit_all classified session_of session_without
    timed untimed local_market_time_to_utc visit
holiday_closed = refl

evening_overnight : market_session_at http clock week evening ≡ ok MarketSession.overnight
unfolding market_session_at session_and_close_at visit_all classified session_of session_without
    timed untimed local_market_time_to_utc visit
evening_overnight = refl

market_session_at-IsBackedIn_example :
    IsBackedIn http 100 (21 * hour_length) MarketSession.overnight (week 100 101)
market_session_at-IsBackedIn_example =
    market_session_at-IsBackedIn http clock week evening MarketSession.overnight evening_overnight
      (λ e. cc)

market_session_at-by_clock_example :
    market_session_at http clock week night ≡ ok MarketSession.overnight
market_session_at-by_clock_example =
    market_session_at-by_clock http clock week night (trading_day 101 ∷ [])
      (λ time. 101 * day_length + time) refl refl refl (trading_day-IsDocumented, tt) (λ time. refl)

classify_post_close_gap-IsClosure_example :
    IsClosure http 101 (classify_post_close_gap http clock week 101) (week 102 115)
classify_post_close_gap-IsClosure_example =
    classify_post_close_gap-IsClosure http clock week 101 115 refl refl

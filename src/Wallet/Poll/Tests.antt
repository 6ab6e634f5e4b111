-- ===== src/Wallet/Poll/Tests.antt =====
-- Examples for the polls: a transfer read while pending, then after a throttled read complete.
use st0x_alpaca.Prelude.{
  Result, ℕ, ◌≡◌, ◌≤◌, ◌⊎◌, refl, false, List, [], ◌∷◌, Option, none, some, arith, ok, err,
}
use st0x_alpaca.Errors.Sample.{http}
use st0x_alpaca.Errors.Wallet.{AlpacaWalletError, api_error, transfer_timeout}
use st0x_alpaca.Errors.Wallet
use st0x_alpaca.RateLimit.{retry_in_place, backpressure_wait, next_poll_delay}
use st0x_alpaca.Wallet.Transfer.{
  pending, complete, is_pending, Transfer, incoming, Rows, transfer_tx_hash_state,
  parse_status_transition,
}
use st0x_alpaca.Wallet.Poll.{
  Poll, default_config, poll_transfer_until_complete, poll_deposit_by_tx_hash,
  poll_transfer_tx_hash, is_retried, accept_transfer, accept_deposit, accept_tx_hash,
}
use st0x_alpaca.Wallet.Poll.Run.{
  PollState, start, Move, begin, cut, wake, tick, answer, step, run, returned, sleeping, throttle,
  unwrap_or, retry_wait,
}
use st0x_alpaca.Wallet.Poll.Run
use st0x_alpaca.Wallet.Poll.Laws.{run_result, run_ends, late, Decides}
use st0x_alpaca.Wallet.Poll.Status.{IsForward, statuses, newest, transfer_statuses}

abbrev strategy : ℕ → ℕ → ℕ → List ℕ
strategy retries low high = low ∷ high ∷ []

abbrev deadline : ℕ
deadline = 1_800_000_000_000

abbrev in_flight : Transfer ℕ
in_flight = record { id = 1; tx = none; direction = incoming; status = pending; details = 0 }

abbrev arrived : Transfer ℕ
arrived = record in_flight { tx = some 77; status = complete }

abbrev throttled : AlpacaWalletError http
throttled = api_error 429 (some 5_000_000_000)

-- The moves of a poll that reads the one value, is throttled, and reads the other.
abbrev schedule : {R A : Type 0} → R → R → List (Move http ℕ R A)
schedule first second =
    begin
    ∷ answer (ok first)
    ∷ tick 10_000_000_000
    ∷ wake
    ∷ begin
    ∷ answer (err throttled)
    ∷ tick 10_000_000_000
    ∷ wake
    ∷ begin
    ∷ answer (ok second)
    ∷ []

abbrev transfer_poll : Poll http ℕ (Transfer ℕ) (Transfer ℕ)
transfer_poll = poll_transfer_until_complete http ℕ strategy default_config

abbrev transfer_end : PollState http ℕ (Transfer ℕ) (Transfer ℕ)
transfer_end = record {
  now = 20_000_000_000;
  last_status = some pending;
  left = some (60_000_000_000 ∷ []);
  throttled = some throttled;
  phase = returned (ok arrived);
  reads = 20_000_000_000 ∷ 10_000_000_000 ∷ 0 ∷ [];
  answers = ok arrived ∷ err throttled ∷ ok in_flight ∷ [];
}

transfer_runs :
    run http ℕ
      (Transfer ℕ)
      (Transfer ℕ)
      transfer_poll
      retry_in_place
      deadline
      (schedule in_flight arrived)
      (start http ℕ (Transfer ℕ) (Transfer ℕ) transfer_poll 0)
    ≡ some transfer_end
unfolding run step start poll_transfer_until_complete accept_transfer parse_status_transition
    is_retried retry_wait backpressure_wait next_poll_delay throttle Wallet.backpressure
    Wallet.permanence
transfer_runs = refl

abbrev deposit_poll : Poll http ℕ (Option (Transfer ℕ)) (Transfer ℕ)
deposit_poll = poll_deposit_by_tx_hash http ℕ strategy default_config

abbrev deposit_end : PollState http ℕ (Option (Transfer ℕ)) (Transfer ℕ)
deposit_end = record {
  now = 20_000_000_000;
  last_status = none;
  left = some (60_000_000_000 ∷ []);
  throttled = some throttled;
  phase = returned (ok arrived);
  reads = 20_000_000_000 ∷ 10_000_000_000 ∷ 0 ∷ [];
  answers = ok (some arrived) ∷ err throttled ∷ ok none ∷ [];
}

deposit_runs :
    run http ℕ
      (Option (Transfer ℕ))
      (Transfer ℕ)
      deposit_poll
      retry_in_place
      deadline
      (schedule none (some arrived))
      (start http ℕ (Option (Transfer ℕ)) (Transfer ℕ) deposit_poll 0)
    ≡ some deposit_end
unfolding run step start poll_deposit_by_tx_hash accept_deposit parse_status_transition is_retried
    retry_wait backpressure_wait next_poll_delay throttle Wallet.backpressure Wallet.permanence
deposit_runs = refl

abbrev hash_poll : Poll http ℕ (Transfer ℕ) ℕ
hash_poll = poll_transfer_tx_hash http ℕ default_config

abbrev hash_end : PollState http ℕ (Transfer ℕ) ℕ
hash_end = record {
  now = 20_000_000_000;
  last_status = none;
  left = none;
  throttled = some throttled;
  phase = returned (ok 77);
  reads = 20_000_000_000 ∷ 10_000_000_000 ∷ 0 ∷ [];
  answers = ok arrived ∷ err throttled ∷ ok in_flight ∷ [];
}

hash_runs :
    run http ℕ
      (Transfer ℕ)
      ℕ
      hash_poll
      retry_in_place
      deadline
      (schedule in_flight arrived)
      (start http ℕ (Transfer ℕ) ℕ hash_poll 0)
    ≡ some hash_end
unfolding run step start poll_transfer_tx_hash accept_tx_hash transfer_tx_hash_state is_retried
    retry_wait backpressure_wait next_poll_delay throttle Wallet.backpressure Wallet.permanence
hash_runs = refl

abbrev complete_result : Result (Transfer ℕ) (AlpacaWalletError http)
complete_result = ok arrived

run_result_example :
    Decides http ℕ
      (Transfer ℕ)
      (Transfer ℕ)
      transfer_poll
      retry_in_place
      deadline
      (some pending)
      transfer_end.answers
      (ok arrived)
    ⊎ ((complete_result
          ≡ err (
              late http ℕ
                (Transfer ℕ)
                (Transfer ℕ)
                transfer_poll
                retry_in_place
                deadline
                transfer_end.answers))
        × (deadline ≤ 20_000_000_000))
run_result_example =
    run_result http ℕ (Transfer ℕ) (Transfer ℕ) transfer_poll retry_in_place deadline 0
      (schedule in_flight arrived) transfer_end (ok arrived) transfer_runs refl

-- A poll that is throttled, and whose next read still runs at the deadline.
abbrev cut_short : PollState http ℕ (Transfer ℕ) (Transfer ℕ)
cut_short = record (start http ℕ (Transfer ℕ) (Transfer ℕ) transfer_poll 0) {
  now = deadline;
  left = some (60_000_000_000 ∷ []);
  throttled = some throttled;
  phase = Run.reading;
  reads = 10_000_000_000 ∷ 0 ∷ [];
  answers = err throttled ∷ [];
}

run_ends_example :
    (s' : PollState http ℕ (Transfer ℕ) (Transfer ℕ)) × (run http ℕ
        (Transfer ℕ)
        (Transfer ℕ)
        transfer_poll
        retry_in_place
        deadline
        (cut ∷ [])
        cut_short
      ≡ some s')
    × (s'.phase ≡ returned (err throttled))
    × (s'.reads ≡ cut_short.reads)
unfolding run step start unwrap_or throttle poll_transfer_until_complete is_retried retry_wait
    backpressure_wait next_poll_delay Wallet.backpressure Wallet.permanence
run_ends_example =
    run_ends http ℕ (Transfer ℕ) (Transfer ℕ) transfer_poll retry_in_place deadline 0
      (begin
        ∷ answer (err throttled)
        ∷ tick 10_000_000_000
        ∷ wake
        ∷ begin
        ∷ tick 1_790_000_000_000
        ∷ [])
      cut_short refl tt (omega arith)

abbrev asking : PollState http ℕ (Transfer ℕ) ℕ
asking = record (start http ℕ (Transfer ℕ) ℕ hash_poll 3) { phase = Run.reading; reads = 3 ∷ [] }

abbrev waiting : PollState http ℕ (Transfer ℕ) ℕ
waiting = record asking {
  throttled = some throttled;
  phase = sleeping 10_000_000_003;
  answers = err throttled ∷ [];
}

transfer_statuses_example :
    IsForward (complete ∷ pending ∷ [])
    × (newest (complete ∷ pending ∷ []) ≡ some complete)
    × (is_pending complete ≡ false)
unfolding statuses
transfer_statuses_example =
    transfer_statuses http ℕ strategy default_config retry_in_place deadline 0
      (schedule in_flight arrived) transfer_end arrived transfer_runs refl

-- A row is a transfer, and its hash a number.
abbrev rows : Rows ℕ
rows = record {
  Row = Transfer ℕ;
  Raw = ℕ;
  key = λ row. some (row.tx, row.direction);
  hash = λ raw. some raw;
  transfer = λ row. some row;
}

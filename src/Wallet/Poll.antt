-- ===== src/Wallet/Poll.antt =====
-- src/wallet/status.rs: the three polls of wallet transfers, each a loop of reads and sleeps.
--
-- A poll is a step function: a move is one step of the loop or of the clock, `answer` is what a read
-- ended with, and `cut` ends a read that still runs at the deadline. `step` is `none` where a move is
-- not possible. `Poll` holds what the three differ in.
pub mod Run
pub mod Laws
pub mod Retries
pub mod Status
pub mod Hash
mod Tests
use st0x_alpaca.Prelude.{
  ℕ, ◌+◌, Bool, true, false, List, [], ◌∷◌, Option, none, some, leb, if◌then◌else◌, Result, ok, err,
}
use st0x_alpaca.Errors.Http.{Http}
use st0x_alpaca.Errors.Classes.{Permanence, transient, Backpressure}
use st0x_alpaca.Errors.Wallet.{
  AlpacaWalletError, backpressure, permanence, transfer_timeout, deposit_timeout,
  invalid_status_transition, invalid_deposit_transition,
}
use st0x_alpaca.RateLimit.{BackpressurePolicy, backpressure_wait, next_poll_delay}
use st0x_alpaca.Wallet.Transfer.{
  TransferStatus, pending, processing, complete, failed, Transfer, transfer_tx_hash_state,
  parse_status_transition,
}

pub record PollingConfig : Type 0 where
  pub interval : ℕ
  pub timeout : ℕ
  pub max_retries : ℕ
  pub min_retry_delay : ℕ
  pub max_retry_delay : ℕ

-- Ten seconds, thirty minutes, ten retries, one second and one minute.
abbrev pub default_config : PollingConfig
default_config = record {
  interval = 10_000_000_000;
  timeout = 1_800_000_000_000;
  max_retries = 10;
  min_retry_delay = 1_000_000_000;
  max_retry_delay = 60_000_000_000;
}

-- What one answered read leads to: the end of the poll, or another read with this last status.
pub data Verdict (A E : Type 0) : Type 0 where
  finish : Result A E → Verdict A E
  again : Option TransferStatus → Verdict A E

is_transient : Permanence → Bool
is_transient transient = true
is_transient _ = false

module _ (H : Http) (D : Type 0) where
  unfoldable pub is_retried : AlpacaWalletError H → Bool
  unfolding is_transient permanence
  is_retried error = is_transient (permanence error)

  -- `validate_and_log_status_change`, with the error of a transition that may not be.
  validate_status_change :
      AlpacaWalletError H → Option TransferStatus → TransferStatus → Option (AlpacaWalletError H)
  unfolding parse_status_transition
  validate_status_change invalid none next = none
  validate_status_change invalid (some prev) next = elim (parse_status_transition prev next) [
    | ok _ ↦ none
    | err _ ↦ some invalid
  ]

  -- The end of a round: a final status is returned, another is remembered.
  concluded : Transfer D → TransferStatus → Verdict (Transfer D) (AlpacaWalletError H)
  concluded transfer complete = finish (ok transfer)
  concluded transfer failed = finish (ok transfer)
  concluded transfer pending = again (some pending)
  concluded transfer processing = again (some processing)

  accept_status :
      AlpacaWalletError H
      → Option TransferStatus
      → Transfer D
      → Verdict (Transfer D) (AlpacaWalletError H)
  unfolding validate_status_change concluded
  accept_status invalid last transfer = elim (validate_status_change invalid last transfer.status) [
    | some error ↦ finish (err error)
    | none ↦ concluded transfer transfer.status
  ]

  unfoldable pub accept_transfer :
      Option TransferStatus → Transfer D → Verdict (Transfer D) (AlpacaWalletError H)
  unfolding accept_status
  accept_transfer last transfer = accept_status invalid_status_transition last transfer

  unfoldable pub accept_deposit :
      Option TransferStatus → Option (Transfer D) → Verdict (Transfer D) (AlpacaWalletError H)
  unfolding accept_status
  accept_deposit last none = again last
  accept_deposit last (some transfer) = accept_status invalid_deposit_transition last transfer

  -- This poll keeps no status.
  unfoldable pub accept_tx_hash :
      Option TransferStatus → Transfer D → Verdict ℕ (AlpacaWalletError H)
  unfolding transfer_tx_hash_state
  accept_tx_hash last transfer = elim (transfer_tx_hash_state H D transfer) [
    | err error ↦ finish (err error)
    | ok (some tx_hash) ↦ finish (ok tx_hash)
    | ok none ↦ again none
  ]

  -- What a read answers with is `R`, what the poll returns is `A`. The delays are those of a round's
  -- backoff; the poll for a hash has none and reads again at the interval.
  pub record Poll (R A : Type 0) : Type 0 where
    pub accept : Option TransferStatus → R → Verdict A (AlpacaWalletError H)
    pub delays : Option (List ℕ)
    pub interval : ℕ
    pub timed_out : AlpacaWalletError H

  -- `strategy` is the backoff crate: the delays for a number of retries between two bounds.
  module _ (strategy : ℕ → ℕ → ℕ → List ℕ) (config : PollingConfig) where
    unfoldable pub poll_transfer_until_complete : Poll (Transfer D) (Transfer D)
    poll_transfer_until_complete = record {
      accept = accept_transfer;
      delays = some (strategy config.max_retries config.min_retry_delay config.max_retry_delay);
      interval = config.interval;
      timed_out = transfer_timeout;
    }

    unfoldable pub poll_deposit_by_tx_hash : Poll (Option (Transfer D)) (Transfer D)
    poll_deposit_by_tx_hash = record {
      accept = accept_deposit;
      delays = some (strategy config.max_retries config.min_retry_delay config.max_retry_delay);
      interval = config.interval;
      timed_out = deposit_timeout;
    }

  unfoldable pub poll_transfer_tx_hash : PollingConfig → Poll (Transfer D) ℕ
  poll_transfer_tx_hash config = record {
    accept = accept_tx_hash;
    delays = none;
    interval = config.interval;
    timed_out = transfer_timeout;
  }

-- ===== src/Gateway/Failure.antt =====
-- crates/gateway-api/src/failure.rs and the `Failure` of crates/gateway/src/answer.rs. Its message,
-- and the random request id that every answer replaces by the call's own, are left out.
use st0x_alpaca.Prelude.{
  ℕ, ◌+◌, ◌/◌, ◌%◌, ◌^◌, ◌-◌, min, max, Bool, true, false, not, List, [], Option, none, some,
  if◌then◌else◌, ltb,
}
use st0x_alpaca.Catalog.Operation.{Operation, mutates, resendable_with_same_key}

pub data ErrorCode : Type 0 where
  invalid_request unauthenticated forbidden capability_disabled unknown_operation : ErrorCode
  rejected backpressure unavailable not_ready upstream_transient outcome_unknown : ErrorCode

unfoldable pub status : ErrorCode → ℕ
status invalid_request = 400
status unauthenticated = 401
status forbidden = 403
status capability_disabled = 403
status unknown_operation = 404
status rejected = 422
status backpressure = 429
status upstream_transient = 502
status unavailable = 503
status not_ready = 503
status outcome_unknown = 504

pub data Outcome : Type 0 where
  applied not_applied unknown : Outcome

pub data RejectionReason : Type 0 where
  insufficient_balance account_not_active asset_not_active asset_not_tradable : RejectionReason
  insufficient_position unsupported_account invalid_parameters : RejectionReason
  address_not_whitelisted destination_not_allowed wrong_network : RejectionReason
  network_missing unsupported_network request_not_found alpaca_api : RejectionReason

pub record Failure : Type 0 where
  pub code : ErrorCode
  pub outcome : Option Outcome
  pub retryable : Bool
  pub retryable_with_same_key : Bool
  pub retry_after : Option ℕ
  pub reason : Option RejectionReason
  pub alpaca_status : Option ℕ
  pub alpaca_object_ids : List (List ℕ)

retryable_code : ErrorCode → Bool
retryable_code backpressure = true
retryable_code unavailable = true
retryable_code not_ready = true
retryable_code upstream_transient = true
retryable_code _ = false

unfoldable pub new : ErrorCode → Failure
unfolding retryable_code
new code = record {
  code = code;
  outcome = none;
  retryable = retryable_code code;
  retryable_with_same_key = false;
  retry_after = none;
  reason = none;
  alpaca_status = none;
  alpaca_object_ids = [];
}

unfoldable pub invalid : Failure
unfolding new
invalid = new invalid_request

unfoldable pub destination_refused : Failure
unfolding new
destination_refused = record (new forbidden) { reason = some destination_not_allowed }

unfoldable pub rejection : RejectionReason → Failure
unfolding new
rejection reason = record (new rejected) { reason = some reason }

is_outcome_unknown : ErrorCode → Bool
is_outcome_unknown outcome_unknown = true
is_outcome_unknown _ = false

unfoldable pub for_mutation : Failure → Operation → Failure
unfolding is_outcome_unknown
for_mutation f operation =
    if not (mutates operation)
    then f
    else if is_outcome_unknown f.code
    then record f {
      outcome = some unknown;
      retryable = false;
      retryable_with_same_key = resendable_with_same_key operation;
    }
    else record f { outcome = some not_applied }

abbrev nanos_per_sec : ℕ
nanos_per_sec = 1_000_000_000

-- Seconds are a u64 that saturates.
unfoldable pub whole_seconds : ℕ → ℕ
whole_seconds hold =
    max (min (hold / nanos_per_sec + (if ltb 0 (hold % nanos_per_sec) then 1 else 0)) (2 ^ 64 - 1))
      1

-- `ErrorBody`: the answer's body, with the message that `Failure` leaves out.
pub record ErrorBody : Type 0 where
  pub code : ErrorCode
  pub outcome : Option Outcome
  pub retryable : Bool
  pub retryable_with_same_key : Bool
  pub retry_after_secs : Option ℕ
  pub reason : Option RejectionReason
  pub alpaca_status : Option ℕ
  pub message : List ℕ

-- `self.retry_after.map(whole_seconds)`.
advertised : Option ℕ → Option ℕ
unfolding whole_seconds
advertised none = none
advertised (some hold) = some (whole_seconds hold)

unfoldable pub body : Failure → List ℕ → ErrorBody
unfolding advertised
body f message = record {
  code = f.code;
  outcome = f.outcome;
  retryable = f.retryable;
  retryable_with_same_key = f.retryable_with_same_key;
  retry_after_secs = advertised f.retry_after;
  reason = f.reason;
  alpaca_status = f.alpaca_status;
  message = message;
}

-- ===== src/Wallet/Poll/Hash.antt =====
-- What the poll of src/wallet/status.rs for a transfer's onchain hash returns.
use st0x_alpaca.Prelude.{ℕ, ◌≡◌, inl, inr, List, ◌∷◌, Option, some, arith, Result, ok}
use st0x_alpaca.Errors.Http.{Http}
use st0x_alpaca.Errors.Wallet.{AlpacaWalletError}
use st0x_alpaca.RateLimit.{BackpressurePolicy}
use st0x_alpaca.Wallet.Transfer.{TransferStatus, complete, Transfer, transfer_tx_hash_state}
use st0x_alpaca.Wallet.Poll.{PollingConfig, accept_tx_hash, poll_transfer_tx_hash}
use st0x_alpaca.Wallet.Poll.Run.{returned, PollState, start, Move, run}
use st0x_alpaca.Wallet.Poll.Laws.{Decides, run_result}

module _ (H : Http) (D : Type 0) (config : PollingConfig) (policy : BackpressurePolicy)
    (deadline : ℕ) where
  -- The last read found the transfer complete, with this hash.
  abbrev pub IsHashed : List (Result (Transfer D) (AlpacaWalletError H)) → ℕ → Type 0
  IsHashed (ok transfer ∷ answers) tx_hash =
      (transfer.status ≡ complete) × (transfer.tx ≡ some tx_hash)
  IsHashed _ tx_hash = ⊥

  decided :
      (last : Option TransferStatus) (answers : List (Result (Transfer D) (AlpacaWalletError H)))
      (tx_hash : ℕ)
      → Decides H D
          (Transfer D)
          ℕ
          (poll_transfer_tx_hash H D config)
          policy
          deadline
          last
          answers
          (ok tx_hash)
      → IsHashed answers tx_hash
  unfolding poll_transfer_tx_hash accept_tx_hash transfer_tx_hash_state
  decided last answers tx_hash d = ground arith

  -- Under any schedule, a hash that the poll for it returns is that of a transfer which the last read
  -- found complete: a hash is never taken from a transfer that is pending, in processing or failed.
  pub tx_hash_complete :
      (now : ℕ) (moves : List (Move H D (Transfer D) ℕ)) (s : PollState H D (Transfer D) ℕ)
      (tx_hash : ℕ)
      → run H D
          (Transfer D)
          ℕ
          (poll_transfer_tx_hash H D config)
          policy
          deadline
          moves
          (start H D (Transfer D) ℕ (poll_transfer_tx_hash H D config) now)
        ≡ some s
      → s.phase ≡ returned (ok tx_hash)
      → IsHashed s.answers tx_hash
  tx_hash_complete now moves s tx_hash e q =
      elim (run_result H D (Transfer D) ℕ (poll_transfer_tx_hash H D config) policy deadline now
        moves s (ok tx_hash) e q) [
          | inl d ↦ decided s.last_status s.answers tx_hash d
          | inr late ↦ absurd (ground arith)
        ]

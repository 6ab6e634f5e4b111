-- ===== src/Wallet/Transfer/Laws.antt =====
-- The search of the transfer list in src/wallet/transfer.rs.
use st0x_alpaca.Prelude.{
  ℕ, ◌≡◌, ◌≢◌, refl, List, [], ◌∷◌, ◌++◌, Option, none, some, arith, find, Bool, false,
}
use st0x_alpaca.Errors.Http.{Http}
use st0x_alpaca.Wallet.Transfer.{
  TransferDirection, incoming, outgoing, Rows, is_deposit, find_deposit,
}

module _ (H : Http) (D : Type 0) (R : Rows D) where
  -- A row that is not the deposit: its key does not parse, it is outgoing, or it has another hash or
  -- none that parses.
  abbrev pub IsOther : ℕ → Option (Option R.Raw × TransferDirection) → Type 0
  IsOther tx_hash none = Unit {0}
  IsOther tx_hash (some (tx, outgoing)) = Unit {0}
  IsOther tx_hash (some (none, incoming)) = Unit {0}
  IsOther tx_hash (some (some raw, incoming)) = R.hash raw ≢ some tx_hash

  other :
      (tx_hash : ℕ) (row : R.Row)
      → IsOther tx_hash (R.key row)
      → is_deposit H D R tx_hash row ≡ false
  unfolding is_deposit
  other tx_hash row o = ground arith

  find_skips :
      {A : Type 0} (p : A → Bool) (before after : List A) (x : A)
      → p x ≡ false
      → find p (before ++ x ∷ after) ≡ find p (before ++ after)
  find_skips p [] after x h = ground (arith, h)
  find_skips p (y ∷ before) after x h = ground (arith, find_skips p before after x h)

  -- A row that is not the deposit never shadows it and never fails the search: with it or without it,
  -- wherever it stands in the list, the search finds the same.
  pub find_deposit_skips :
      (tx_hash : ℕ) (before after : List R.Row) (row : R.Row)
      → IsOther tx_hash (R.key row)
      → find_deposit H D R tx_hash (before ++ row ∷ after)
        ≡ find_deposit H D R tx_hash (before ++ after)
  unfolding find_deposit
  find_deposit_skips tx_hash before after row o =
      rw
        (find_deposit, find_skips (is_deposit H D R tx_hash) before after row (other tx_hash row o))
        refl

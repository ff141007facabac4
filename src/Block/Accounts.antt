-- ===== src/Block/Accounts.antt =====
-- block.c: `are_transactions_valid`, which builds the accounts of a block.
-- Account values are `uint64_t`: sums and differences wrap.
use whosecoin_core.Base.{
  ℕ, ◌+◌, ◌-◌, ◌%◌, ◌^◌, Bool, true, false, Option, List, [], ◌∷◌, ltb, if◌then◌else◌, Run, ok,
  ◌>>=◌,
}
use whosecoin_core.Transaction.{Transaction}
use whosecoin_core.Block.{
  coinbase_transaction, Account, null, account, Accounts, map_set, Block, Store, block_get_account,
}

abbrev pub u64 : ℕ
u64 = 2 ^ 64

unfoldable pub add64 : ℕ → ℕ → ℕ
add64 a b = (a + b) % u64

unfoldable pub sub64 : ℕ → ℕ → ℕ
sub64 a b = (a + u64 - b) % u64

-- `account != NULL ? account->value : 0`
abbrev pub value_or_zero : Account → ℕ
value_or_zero null = 0
value_or_zero (account value prev block) = value

-- `map_get`, and then a change of the account that is found, or a new account whose value starts
-- from that of the key in the previous blocks.
unfoldable pub change_value :
    Store → ℕ → ℕ → Option ℕ → (ℕ → ℕ) → Accounts → List ℕ → Run (ℕ × Accounts)
change_value st fuel self prev change accounts key = elim (accounts key) [
  | account value older block ↦
      ok (change value, map_set accounts key (account (change value) older block))
  | null ↦ block_get_account st fuel prev key >>= (λ found.
      let value = change (value_or_zero found) in
      ok (value, map_set accounts key (account value found self)))
]

-- The body of the loop: the sender pays, the test that an unsigned value is negative, the
-- recipient is paid.
unfoldable pub apply_transaction :
    Store → ℕ → ℕ → Option ℕ → Accounts → Transaction → Run (Bool × Accounts)
unfolding change_value
apply_transaction st fuel self prev accounts txn = do
  (left, paid) ← change_value st fuel self prev (λ v. sub64 v txn.value) accounts txn.sender
  let pay = change_value st fuel self prev (λ v. add64 v txn.value) paid txn.recipient
  if ltb left 0 then ok (false, paid) else (pay >>= λ r. ok (true, r.1))

unfoldable pub apply_transactions :
    Store → ℕ → ℕ → Option ℕ → Accounts → List Transaction → Run (Bool × Accounts)
unfolding apply_transaction
apply_transactions st fuel self prev accounts [] = ok (true, accounts)
apply_transactions st fuel self prev accounts (txn ∷ txns) =
    apply_transaction st fuel self prev accounts txn >>= λ result. elim result.0 [
      | true ↦ apply_transactions st fuel self prev result.1 txns
      | false ↦ ok (false, result.1)
    ]

-- The verdict and the accounts of the block at the address `self`, whose map is still empty.
unfoldable pub are_transactions_valid : Store → ℕ → ℕ → Block → Run (Bool × Accounts)
unfolding apply_transactions
are_transactions_valid st fuel self block = do
  creator ← block_get_account st fuel block.prev_block block.public_key
  let value = add64 (value_or_zero creator) coinbase_transaction
  let accounts = map_set block.accounts block.public_key (account value creator self)
  apply_transactions st fuel self block.prev_block accounts block.transactions

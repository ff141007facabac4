-- ===== src/Block/Ledger.antt =====
-- The accounts of a chain implement a ledger of balances.
use whosecoin_core.Base.{
  ℕ, ◌<◌, ◌≡◌, refl, sym, ap, ◌∙◌, true, false, Option, List, [], ◌∷◌, arith, ltb, if◌then◌else◌,
  length, Returns, Returns-bind, Bool-cases, inl, inr,
}
use mathlib.Core.Path.{fun_ext}
use whosecoin_core.Transaction.{Transaction}
use whosecoin_core.Block.{
  coinbase_transaction, same_key, Account, null, account, Accounts, map_set, Block, Store,
}
use whosecoin_core.Block.Accounts.{
  add64, sub64, value_or_zero, change_value, apply_transaction, apply_transactions,
  are_transactions_valid,
}
use whosecoin_core.Block.Chain.{Link, Chain, account_in, block_get_account-Chain}

-- A balance for each key, all words of 64 bits.
abbrev pub Balances : Type 0
Balances = List ℕ → ℕ

-- The balances at the end of a branch.
unfoldable pub balances : List Link → Balances
balances links key = value_or_zero (account_in links key)

settle : ℕ → Account → ℕ
settle before null = before
settle before (account value prev block) = value

-- The balances that a block under construction has with its accounts, on top of a branch.
unfoldable pub pending : List Link → Accounts → Balances
unfolding settle
pending links accounts key = settle (value_or_zero (account_in links key)) (accounts key)

pending-at :
    (links : List Link) (accounts : Accounts) (key : List ℕ) {m : Account}
    → accounts key ≡ m
    → pending links accounts key ≡ settle (value_or_zero (account_in links key)) m
unfolding pending
pending-at links accounts key e = ap (settle (value_or_zero (account_in links key))) e

abbrev pub credit : Balances → List ℕ → (ℕ → ℕ) → Balances
credit f key change j = if same_key key j then change (f key) else f j

-- A transfer between balances: the sender pays first, then the recipient is paid.
unfoldable pub transfer : Balances → Transaction → Balances
transfer f txn =
    credit (credit f txn.sender (λ v. sub64 v txn.value)) txn.recipient (λ v. add64 v txn.value)

unfoldable pub transfers : Balances → List Transaction → Balances
transfers f [] = f
transfers f (txn ∷ txns) = transfers (transfer f txn) txns

map_set-same :
    (accounts : Accounts) (key j : List ℕ) (m : Account)
    → same_key key j ≡ true
    → map_set accounts key m j ≡ m
unfolding map_set
map_set-same accounts key j m e = rw e

map_set-other :
    (accounts : Accounts) (key j : List ℕ) (m : Account)
    → same_key key j ≡ false
    → map_set accounts key m j ≡ accounts j
unfolding map_set
map_set-other accounts key j m e = rw e

module _ (st : Store) (links : List Link) (fuel self : ℕ) (prev : Option ℕ)
    (branch : Chain st prev links) (enough : length links < fuel) where
  pending-map_set :
      (accounts : Accounts) (key : List ℕ) (value block : ℕ) (older : Account) (change : ℕ → ℕ)
      → value ≡ change (pending links accounts key)
      → pending links (map_set accounts key (account value older block))
        ≡ credit (pending links accounts) key change
  unfolding settle
  pending-map_set accounts key value block older change e = fun_ext λ j.
      elim (Bool-cases (same_key key j)) [
        | inl same ↦
            pending-at links _ j (map_set-same accounts key j (account value older block) same)
            ∙ (rw same e)
        | inr other ↦
            pending-at links _ j (map_set-other accounts key j (account value older block) other)
            ∙ (rw other (unfold pending in refl))
      ]

  change_value-pending :
      (change : ℕ → ℕ) (accounts : Accounts) (key : List ℕ)
      → Returns (change_value st fuel self prev change accounts key) λ r.
        (r.0 ≡ change (pending links accounts key))
        × (pending links r.1 ≡ credit (pending links accounts) key change)
  unfolding change_value settle
  change_value-pending change accounts key = by_account (accounts key) refl
    where
      by_account :
          (m : Account)
          → accounts key ≡ m
          → Returns (change_value st fuel self prev change accounts key) λ r.
            (r.0 ≡ change (pending links accounts key))
            × (pending links r.1 ≡ credit (pending links accounts) key change)
      by_account null e =
          let found = block_get_account-Chain st prev links fuel key branch enough in
          let start : change (value_or_zero (account_in links key))
              ≡ change (pending links accounts key) =
            ap change (sym (pending-at links accounts key e)) in
          (
            _,
            rw (e, change_value) (rw found),
            (start, pending-map_set accounts key _ self (account_in links key) change start),
          )
      by_account (account value older block) e =
          let start : change value ≡ change (pending links accounts key) =
            ap change (sym (pending-at links accounts key e)) in
          (
            _,
            rw (e, change_value),
            (start, pending-map_set accounts key _ block older change start),
          )

  never_negative : (n : ℕ) → ltb n 0 ≡ false
  never_negative n = ground arith

  apply_transaction-transfer :
      (accounts : Accounts) (txn : Transaction)
      → Returns
          (apply_transaction st fuel self prev accounts txn)
          λ r. (r.0 ≡ true) × (pending links r.1 ≡ transfer (pending links accounts) txn)
  unfolding apply_transaction transfer
  apply_transaction-transfer accounts txn =
      Returns-bind (change_value-pending (λ v. sub64 v txn.value) accounts txn.sender) λ r h.
        rw (never_negative r.0) (
          Returns-bind (change_value-pending (λ v. add64 v txn.value) r.1 txn.recipient) λ q k.
            (_, refl, (refl, k.1 ∙ ap (λ f. credit f txn.recipient (λ v. add64 v txn.value)) h.1)))

  apply_transactions-transfers :
      (accounts : Accounts) (txns : List Transaction)
      → Returns
          (apply_transactions st fuel self prev accounts txns)
          λ r. (r.0 ≡ true) × (pending links r.1 ≡ transfers (pending links accounts) txns)
  unfolding apply_transactions transfers
  apply_transactions-transfers accounts [] = (_, refl, (refl, refl))
  apply_transactions-transfers accounts (txn ∷ txns) =
      Returns-bind (apply_transaction-transfer accounts txn) λ r h.
        let (q, run, (verdict, result)) = apply_transactions-transfers r.1 txns in
        (q, rw h.0 run, (verdict, result ∙ ap (λ f. transfers f txns) h.1))

-- The block whose accounts are empty, on top of a branch: the search for its creator and every
-- transaction succeed, the verdict is that the transactions are valid, whatever they spend, and
-- the balances are those of the branch after the coinbase and the transfers in order, modulo 2 ^ 64.
pub are_transactions_valid-transfers :
    (st : Store) (links : List Link) (fuel self : ℕ) (block : Block)
    → Chain st block.prev_block links
    → length links < fuel
    → ((key : List ℕ) → block.accounts key ≡ null)
    → Returns (are_transactions_valid st fuel self block) λ r.
      (r.0 ≡ true)
      × (pending links r.1
          ≡ transfers
              (credit (balances links) block.public_key (λ v. add64 v coinbase_transaction))
              block.transactions)
unfolding are_transactions_valid settle
are_transactions_valid-transfers st links fuel self block branch enough fresh =
    let found =
      block_get_account-Chain st block.prev_block links fuel block.public_key branch enough in
    let empty : pending links block.accounts ≡ balances links =
      fun_ext λ j. pending-at links block.accounts j (fresh j) ∙ (unfold balances in refl) in
    let creator = account_in links block.public_key in
    let value = add64 (value_or_zero creator) coinbase_transaction in
    let coinbase : pending links
          (map_set block.accounts block.public_key (account value creator self))
        ≡ credit (balances links) block.public_key (λ v. add64 v coinbase_transaction) =
      pending-map_set st links fuel self block.prev_block branch enough block.accounts
        block.public_key value self creator (λ v. add64 v coinbase_transaction)
        (rw empty (unfold balances in refl))
      ∙ ap (λ f. credit f block.public_key (λ v. add64 v coinbase_transaction)) empty in
    let (r, run, (verdict, result)) =
      apply_transactions-transfers st links fuel self block.prev_block branch enough
        (map_set block.accounts block.public_key (account value creator self)) block.transactions in
    (r, rw found run, (verdict, result ∙ ap (λ f. transfers f block.transactions) coinbase))

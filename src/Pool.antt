-- ===== src/Pool.antt =====
-- pool.c: the transactions that wait to be confirmed, each once.
-- The pool's `list_t` stands for the sequence that it holds, and `list_find` for the position that
-- ArrayList/Refines shows it to give.
pub mod Distinct
use whosecoin_core.Base.{
  ℕ, Bool, Option, none, some, List, [], ◌∷◌, ◌++◌, ◌==◌, if◌then◌else◌, is_zero, length, get_elem?,
  remove_at, Run, ok, ◌>>=◌, or_abort,
}
use whosecoin_core.Bytes.{memcmp}
use whosecoin_core.ArrayList.Refines.{position}
use whosecoin_core.Crypto.{crypto_generichash_bytes}
use whosecoin_core.Transaction.{Transaction}

abbrev pub Pool : Type 0
Pool = List Transaction

abbrev pub pool_create : Pool
pool_create = []

unfoldable pub pool_size : Pool → ℕ
pool_size pool = length pool

-- `transaction_compare(txn1, txn2) == 0`
unfoldable pub same_transaction : Transaction → Transaction → Bool
same_transaction txn1 txn2 = is_zero (memcmp crypto_generichash_bytes txn1.hash txn2.hash)

-- A transaction that is in the pool already is destroyed.
unfoldable pub pool_add : Pool → Transaction → Pool
unfolding same_transaction
pool_add pool txn =
    let i = position (λ old. same_transaction old txn) pool 0 in
    if i == length pool then pool ++ txn ∷ [] else pool

unfoldable pub pool_get : Pool → ℕ → Run Transaction
pool_get pool i = or_abort (get_elem? pool i)

unfoldable pub pool_remove : Pool → ℕ → Run (Transaction × Pool)
pool_remove pool i = or_abort (get_elem? pool i) >>= λ txn. ok (txn, remove_at pool i)

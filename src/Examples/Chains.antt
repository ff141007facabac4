-- ===== src/Examples/Chains.antt =====
-- block.c and blockchain.c at concrete inputs.
use whosecoin_core.Base.{
  ℕ, ◌≡◌, refl, true, Option, none, some, List, [], ◌∷◌, ◌++◌, arith, ok, replicate, Returns,
}
use whosecoin_core.Examples.Toy.{toy}
use whosecoin_core.Transaction.{Transaction}
use whosecoin_core.Transaction.Read.{created}
use whosecoin_core.Block.{
  Account, null, account, Block, Store, deref, block_get_account, block_has_ancestor,
  coinbase_transaction,
}
use whosecoin_core.Block.Accounts.{are_transactions_valid, add64}
use whosecoin_core.Block.Chain.{
  Link, Chain, root, link, block_get_account-Chain, block_has_ancestor-Chain,
}
use whosecoin_core.Block.Ledger.{
  balances, pending, credit, transfers, are_transactions_valid-transfers,
}
use whosecoin_core.Blockchain.{Blockchain, Added, extends_principal, blockchain_add_block}
use whosecoin_core.Blockchain.ForkChoice.{overtakes, extends_principal-overtakes}
use whosecoin_core.Blockchain.Tree.{IsTree, blockchain_add_block-IsTree}
use whosecoin_core.Blockchain.Records.{Records, blockchain_add_block-Records}

abbrev key_one : List ℕ
key_one = replicate 31 0 ++ 1 ∷ []

abbrev key_two : List ℕ
key_two = replicate 31 0 ++ 2 ∷ []

-- A block with the given previous block, priority, hash, transactions and accounts.
abbrev make : Option ℕ → ℕ → ℕ → List Transaction → (List ℕ → Account) → Block
make prev priority hash txns accounts = record {
  timestamp = 0;
  prev_block = prev;
  merkle_root = replicate 32 0;
  public_key = key_one;
  sortition_proof = replicate 80 0;
  signature = replicate 64 0;
  delegate = 0;
  transactions = txns;
  hash = replicate 31 0 ++ hash ∷ [];
  sortition_seed = replicate 32 0;
  sortition_hash = replicate 64 0;
  sortition_priority = replicate 31 0 ++ priority ∷ [];
  height = 1;
  accounts = accounts;
}

abbrev genesis : Block
genesis = make none 5 1 [] (λ key. account 1024 null 0)

-- Two children of the first block.
abbrev left : Block
left = make (some 0) 7 2 [] (λ key. null)

-- It has a lower priority than the other and spends more than there is.
abbrev right : Block
right = make (some 0) 3 3 (created toy key_one key_one key_two 5000 0 ∷ []) (λ key. null)

abbrev store : Store
store = record { blocks = some genesis ∷ some left ∷ some right ∷ []; children = λ a. [] }

abbrev branch : List Link
branch = record { at = 0; block = genesis } ∷ []

branch-Chain : Chain store (some 0) branch
unfolding deref
branch-Chain = link refl root

abbrev main_branch : List Link
main_branch = record { at = 1; block = left } ∷ branch

main_branch-Chain : Chain store (some 1) main_branch
unfolding deref
main_branch-Chain = link refl branch-Chain

right-deref : deref store 2 ≡ ok right
unfolding deref
right-deref = refl

block_get_account-Chain_example :
    block_get_account store 5 (some 1) key_one ≡ ok (account 1024 null 0)
block_get_account-Chain_example =
    block_get_account-Chain store (some 1) main_branch 5 key_one main_branch-Chain (omega arith)

block_has_ancestor-Chain_example : block_has_ancestor store 5 (some 1) (some 0) ≡ ok true
block_has_ancestor-Chain_example =
    block_has_ancestor-Chain store (some 1) main_branch 5 0 main_branch-Chain (omega arith)

are_transactions_valid-transfers_example : Returns (are_transactions_valid store 5 2 right) λ r.
    (r.0 ≡ true)
    × (pending branch r.1
        ≡ transfers
            (credit (balances branch) key_one (λ v. add64 v coinbase_transaction))
            right.transactions)
are_transactions_valid-transfers_example =
    are_transactions_valid-transfers store branch 5 2 right branch-Chain (omega arith) (λ key. refl)

abbrev chain : Blockchain
chain = record { blocks = λ h. none; txns = λ h. none; principal = some 1 }

extends_principal-overtakes_example :
    extends_principal store 5 (some 1) 2 ≡ ok (overtakes main_branch (some 1) right)
extends_principal-overtakes_example =
    extends_principal-overtakes store (some 1) main_branch 5 2 right main_branch-Chain (omega arith)
      right-deref (λ e. cc)

-- The block of lower priority overtakes its sibling.
right-overtakes : overtakes main_branch (some 1) right ≡ true
unfolding whosecoin_core.Bytes.memcmp
right-overtakes = refl

-- A new block with one transaction, whose hash is looked up.
abbrev spent : List ℕ
spent = (created toy key_one key_one key_two 5000 0).hash

blockchain_add_block-Records_example :
    (r : Added) × (blockchain_add_block store 5 chain 2 ≡ ok r)
    × Records store main_branch chain 2 right spent none r
blockchain_add_block-Records_example =
    blockchain_add_block-Records store 5 chain main_branch 2 right spent main_branch-Chain
      (omega arith) right-deref (λ e. cc)

-- The first block on an empty tree.
abbrev start : Store
start = record { blocks = some genesis ∷ []; children = λ a. [] }

start-deref : deref start 0 ≡ ok genesis
unfolding deref
start-deref = refl

abbrev no_chain : Blockchain
no_chain = record { blocks = λ h. none; txns = λ h. none; principal = none }

no_chain-IsTree : IsTree start no_chain
no_chain-IsTree = record {
  principal_links = [];
  principal_chain = root;
  indexed = λ h a e. absurd (none≢some e);
  rooted = λ e h. refl;
}
  where
    none≢some : {a : ℕ} → none ≡ some a → ⊥
    none≢some e = cc

blockchain_add_block-IsTree_example :
    (r : Added) × (blockchain_add_block start 5 no_chain 0 ≡ ok r)
    × IsTree r.store r.chain
    × (r.result ≡ true)
unfolding no_chain-IsTree
blockchain_add_block-IsTree_example =
    blockchain_add_block-IsTree start no_chain 0 genesis no_chain-IsTree start-deref tt 5
      (omega arith) refl

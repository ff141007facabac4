-- ===== src/Examples/Blocks.antt =====
-- The bytes, the Merkle root and the sortition of blocks at concrete inputs.
use whosecoin_core.Base.{ℕ, ◌≡◌, refl, none, List, [], ◌∷◌, ◌++◌, map, arith, ok, replicate}
use whosecoin_core.Examples.Toy.{toy}
use whosecoin_core.Transaction.{Transaction}
use whosecoin_core.Transaction.Read.{created}
use whosecoin_core.Transaction.Wire.{IsSized}
use whosecoin_core.Block.{null, Block, Store, block_get_hash}
use whosecoin_core.Block.Create.{enter_sortition}
use whosecoin_core.Block.Create.Sortition.{IsBest, enter_sortition-IsBest}
use whosecoin_core.Block.Merkle.{merkle_root_from_list}
use whosecoin_core.Block.Merkle.Tree.{HashTree, leaves, root_of, merkle_root_from_list-tree}

abbrev key : List ℕ
key = replicate 31 0 ++ 1 ∷ []

abbrev payment : Transaction
payment = created toy key key key 5 0

-- A first block with two transactions.
abbrev proposal : Block
proposal = record {
  timestamp = 1;
  prev_block = none;
  merkle_root = replicate 32 0;
  public_key = key;
  sortition_proof = replicate 80 0;
  signature = replicate 64 0;
  delegate = 0;
  transactions = payment ∷ payment ∷ [];
  hash = replicate 32 0;
  sortition_seed = replicate 32 0;
  sortition_hash = replicate 64 0;
  sortition_priority = replicate 32 0;
  height = 1;
  accounts = λ k. null;
}

abbrev no_blocks : Store
no_blocks = record { blocks = []; children = λ a. [] }

no_previous : block_get_hash no_blocks none ≡ ok (replicate 32 0)
unfolding block_get_hash
no_previous = refl

payment-IsSized : IsSized payment
payment-IsSized = record {
  sender_size = refl;
  recipient_size = refl;
  signature_size = toy.length-sign_detached _ key;
  value_word = omega arith;
  nonce_word = omega arith;
}

abbrev plain : Block
plain = record proposal { transactions = [] }

merkle_root_from_list-tree_example :
    (tree : HashTree) × (merkle_root_from_list toy (payment ∷ payment ∷ []) ≡ ok (root_of toy tree))
    × (leaves tree ≡ map (λ t. t.hash) (payment ∷ payment ∷ []))
merkle_root_from_list-tree_example = merkle_root_from_list-tree toy payment (payment ∷ [])

enter_sortition-IsBest_example :
    let drawn = enter_sortition toy key 3 proposal in
    IsBest toy drawn.sortition_hash 3 (drawn.delegate, drawn.sortition_priority)
enter_sortition-IsBest_example = enter_sortition-IsBest toy key 3 proposal (omega arith)

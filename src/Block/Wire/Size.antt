-- ===== src/Block/Wire/Size.antt =====
-- How long the binary form of a block is, and how many rounds its parser makes.
use whosecoin_core.Base.{ℕ, ◌+◌, ◌*◌, ◌≤◌, ◌≡◌, refl, List, [], ◌∷◌, arith, length, length-append}
use whosecoin_core.Bytes.{length-le_bytes, length-be_bytes}
use whosecoin_core.Crypto.{crypto_generichash_bytes, crypto_sign_bytes}
use whosecoin_core.Tuple.Values.{encode_scalar, encode, encode_tuple, Fits, rounds}
use whosecoin_core.Transaction.{Transaction}
use whosecoin_core.Transaction.Wire.{IsSized, signed_values-Fits}
use whosecoin_core.Block.{Block}
use whosecoin_core.Block.Wire.Bytes.{transaction_list, block_values, IsHeaderSized}

abbrev pub AreSized : List Transaction → Type 0
AreSized [] = Unit
AreSized (txn ∷ txns) = IsSized txn × AreSized txns

length-transaction_list :
    (txns : List Transaction)
    → AreSized txns
    → length (encode (transaction_list txns)) ≡ 161 * length txns
unfolding encode encode_scalar
length-transaction_list [] h = refl
length-transaction_list (txn ∷ txns) h =
    let rest = length-transaction_list txns h.1 in
    simp
      (
        length-append, length-le_bytes, length-be_bytes, h.0.sender_size, h.0.recipient_size,
        h.0.signature_size,
      )
      (omega arith)

rounds-transaction_list :
    (txns : List Transaction) → rounds (transaction_list txns) ≤ 9 * length txns + 1
unfolding rounds
rounds-transaction_list [] = omega arith
rounds-transaction_list (txn ∷ txns) = omega (arith, rounds-transaction_list txns)

pub transaction_list-Fits : (txns : List Transaction) → AreSized txns → Fits (transaction_list txns)
transaction_list-Fits [] h = tt
transaction_list-Fits (txn ∷ txns) h = (signed_values-Fits txn h.0, transaction_list-Fits txns h.1)

-- A block takes 290 bytes and 161 for each transaction.
pub length-block :
    (b : Block) (prev_hash : List ℕ)
    → length prev_hash ≡ crypto_generichash_bytes
    → IsHeaderSized b
    → length b.signature ≡ crypto_sign_bytes
    → AreSized b.transactions
    → length (encode_tuple (block_values prev_hash b)) ≡ 290 + 161 * length b.transactions
unfolding encode_tuple encode encode_scalar
length-block b prev_hash size h signed sized =
    let list = length-transaction_list b.transactions sized in
    simp
      (
        length-append, length-le_bytes, length-be_bytes, size, h.merkle_root_size,
        h.public_key_size, h.sortition_proof_size, signed,
      )
      (omega arith)

pub rounds-block :
    (b : Block) (prev_hash : List ℕ)
    → rounds (block_values prev_hash b) ≤ 9 * length b.transactions + 13
unfolding rounds
rounds-block b prev_hash = omega (arith, rounds-transaction_list b.transactions)

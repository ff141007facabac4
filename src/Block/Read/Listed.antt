-- ===== src/Block/Read/Listed.antt =====
-- The loops of block.c over the transactions of a message, on a tuple that shows a list of them.
use native.Mathlib.Numerals.{add-one}
use whosecoin_core.Base.{
  ℕ, suc, ◌≡◌, refl, sym, ap, ◌∙◌, true, some, List, [], ◌∷◌, map, length, take_whole, ok,
}
use whosecoin_core.Crypto.{Crypto}
use whosecoin_core.Tuple.{Tuple}
use whosecoin_core.Tuple.Values.{Values, tuple, encode_tuple, Shows}
use whosecoin_core.Tuple.Readers.{tuple_size}
use whosecoin_core.Tuple.Readers.Agree.{
  branch, value_at, count, tuple_get_tuple-Shows, tuple_get_type-branch, tuple_size-Shows,
}
use whosecoin_core.Transaction.{Transaction}
use whosecoin_core.Transaction.Wire.{body_values, signed_values, IsSized, hash_of}
use whosecoin_core.Transaction.Read.{
  transaction_is_valid-Shows, copy_view-prefix, transaction_create_from_tuple-Shows,
}
use whosecoin_core.Block.Wire.Bytes.{transaction_list}
use whosecoin_core.Block.Merkle.{merkle_root_from_list}
use whosecoin_core.Block.Read.{
  are_tuples_valid, tuple_hashes, merkle_root_from_tuple, read_transactions, all_present,
}
use whosecoin_core.Block.Read.Signed.{AreSigned}

-- From the index `i` on, the values are those of the transactions.
abbrev Follows : Values → ℕ → List Transaction → Type 0
Follows vs i [] = Unit
Follows vs i (txn ∷ txns) =
    (value_at vs i ≡ some (branch (signed_values txn))) × Follows vs (suc i) txns

Follows-shift :
    (ws vs : Values) (i : ℕ) (txns : List Transaction)
    → Follows vs i txns
    → Follows (tuple ws vs) (suc i) txns
Follows-shift ws vs i [] h = tt
Follows-shift ws vs i (txn ∷ txns) h = (h.0, Follows-shift ws vs (suc i) txns h.1)

transaction_list-Follows : (txns : List Transaction) → Follows (transaction_list txns) 0 txns
transaction_list-Follows [] = tt
transaction_list-Follows (txn ∷ txns) = (
  refl,
  Follows-shift (signed_values txn) (transaction_list txns) 0 txns (transaction_list-Follows txns),
)

pub count-transaction_list : (txns : List Transaction) → count (transaction_list txns) ≡ length txns
count-transaction_list [] = refl
count-transaction_list (txn ∷ txns) = ap suc (count-transaction_list txns)

module _ (crypto : Crypto) where
  -- The fields have their C sizes, and the hash is that of the fields.
  abbrev pub IsHashed : Transaction → Type 0
  IsHashed txn = IsSized txn × (txn.hash ≡ hash_of crypto txn)

  abbrev pub AreHashed : List Transaction → Type 0
  AreHashed [] = Unit
  AreHashed (txn ∷ txns) = IsHashed txn × AreHashed txns

  pub present_all : (txns : List Transaction) → all_present crypto (map some txns) ≡ ok txns
  unfolding all_present
  present_all [] = refl
  present_all (txn ∷ txns) = rw (present_all txns)

  module _ (t : Tuple) (vs : Values) (shows : Shows t.elements vs) where
    are_tuples_valid-Follows :
        (i : ℕ) (txns : List Transaction)
        → Follows vs i txns
        → AreHashed txns
        → are_tuples_valid t (length txns) i ≡ ok true
    unfolding are_tuples_valid
    are_tuples_valid-Follows i [] f h = refl
    are_tuples_valid-Follows i (txn ∷ txns) f h =
        let (u, sub, (inner, start, size)) =
          tuple_get_tuple-Shows t vs i shows (signed_values txn) f.0 in
        let valid = transaction_is_valid-Shows crypto u txn h.0.0 inner in
        let rest = are_tuples_valid-Follows (suc i) txns f.1 h.1 in
        rw (tuple_get_type-branch t vs i shows (signed_values txn) f.0, sub, valid, add-one i) rest

    tuple_hashes-Follows :
        (i : ℕ) (txns : List Transaction)
        → Follows vs i txns
        → AreHashed txns
        → tuple_hashes crypto t (length txns) i ≡ ok (map (λ txn. txn.hash) txns)
    unfolding tuple_hashes
    tuple_hashes-Follows i [] f h = refl
    tuple_hashes-Follows i (txn ∷ txns) f h =
        let (u, sub, (inner, start, size)) =
          tuple_get_tuple-Shows t vs i shows (signed_values txn) f.0 in
        let (w, sub', (inner', (r, start'), size')) =
          tuple_get_tuple-Shows u (signed_values txn) 0 inner (body_values txn) refl in
        let rest = tuple_hashes-Follows (suc i) txns f.1 h.1 in
        rw (
          sub,
          sub',
          size',
          start',
          copy_view-prefix (encode_tuple (body_values txn)) r,
          add-one i,
          rest,
          h.0.1,
        )

    read_transactions-Follows :
        (i : ℕ) (txns : List Transaction)
        → Follows vs i txns
        → AreHashed txns
        → AreSigned crypto txns
        → read_transactions crypto t (length txns) i ≡ ok (map some txns)
    unfolding read_transactions
    read_transactions-Follows i [] f h s = refl
    read_transactions-Follows i (txn ∷ txns) f h s =
        let (u, sub, (inner, start, size)) =
          tuple_get_tuple-Shows t vs i shows (signed_values txn) f.0 in
        let whole = take_whole 32 txn.hash (ap length h.0.1 ∙ crypto.length-generichash _) in
        let signed =
          ap (λ m. crypto.sign_verify_detached txn.signature m txn.sender) (sym whole) ∙ s.0 in
        let rest = read_transactions-Follows (suc i) txns f.1 h.1 s.1 in
        rw (
          sub,
          transaction_create_from_tuple-Shows crypto u txn h.0.0 inner h.0.1,
          signed,
          add-one i,
          rest,
        )

  module _ (t : Tuple) (txns : List Transaction) (shows : Shows t.elements (transaction_list txns))
      (h : AreHashed txns) where
    pub tuple_size-list : tuple_size t ≡ length txns
    tuple_size-list = tuple_size-Shows t (transaction_list txns) shows ∙ count-transaction_list txns

    pub are_tuples_valid-list : are_tuples_valid t (tuple_size t) 0 ≡ ok true
    are_tuples_valid-list = rw tuple_size-list (
        are_tuples_valid-Follows t (transaction_list txns) shows 0 txns
          (transaction_list-Follows txns) h)

    -- The Merkle root of a message that shows a list of transactions is that of the list.
    pub merkle_root_from_tuple-list :
        merkle_root_from_tuple crypto t ≡ merkle_root_from_list crypto txns
    unfolding merkle_root_from_tuple merkle_root_from_list
    merkle_root_from_tuple-list = rw (
      tuple_size-list,
      tuple_hashes-Follows t (transaction_list txns) shows 0 txns (transaction_list-Follows txns) h,
    )

    pub read_transactions-list :
        AreSigned crypto txns → read_transactions crypto t (tuple_size t) 0 ≡ ok (map some txns)
    read_transactions-list signed = rw tuple_size-list (
        read_transactions-Follows t (transaction_list txns) shows 0 txns
          (transaction_list-Follows txns) h signed)

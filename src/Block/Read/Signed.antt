-- ===== src/Block/Read/Signed.antt =====
-- The transactions of a block that is read are signed by their senders.
use whosecoin_core.Base.{
  ℕ, ◌+◌, ◌≡◌, refl, sym, subst, true, Option, none, some, List, [], ◌∷◌, zero, suc, Bool-cases,
  take, ok, >>=-ok, ok-injective, chosen, inl, inr,
}
use mathlib.Core.Option.{some-injective}
use whosecoin_core.Crypto.{Crypto, crypto_sign_public_key_bytes}
use whosecoin_core.Tuple.{Tuple}
use whosecoin_core.Tuple.Readers.{tuple_get_binary, tuple_get_tuple, tuple_get_u64, tuple_get_u32}
use whosecoin_core.Transaction.{
  Transaction, copy_view, transaction_is_valid, transaction_compute_hash, verify, read_transaction,
  transaction_create_from_tuple,
}
use whosecoin_core.Block.Read.{read_transactions, all_present}

module _ (crypto : Crypto) where
  -- The signature verifies under the sender's key.
  abbrev pub IsSigned : Transaction → Type 0
  IsSigned txn =
      crypto.sign_verify_detached txn.signature (take crypto_sign_public_key_bytes txn.hash)
        txn.sender
      ≡ true

  abbrev pub AreSigned : List Transaction → Type 0
  AreSigned [] = Unit
  AreSigned (txn ∷ txns) = IsSigned txn × AreSigned txns

  verify-some : (txn : Transaction) {t : Transaction} → verify crypto txn ≡ some t → IsSigned t
  unfolding verify
  verify-some txn {t} e =
      let message = take crypto_sign_public_key_bytes txn.hash in
      elim (Bool-cases (crypto.sign_verify_detached txn.signature message txn.sender)) [
        | inr fails ↦ let f = rw (fails, verify) at e in absurd cc
        | inl verifies ↦ subst IsSigned (some-injective _ _ (rw (verifies, verify) at e)) verifies
      ]

  transaction_create_from_tuple-some :
      (t : Tuple) {txn : Transaction}
      → transaction_create_from_tuple crypto t ≡ ok (some txn)
      → IsSigned txn
  unfolding transaction_create_from_tuple read_transaction
  transaction_create_from_tuple-some t run =
      let (valid, r0, e0) = >>=-ok (transaction_is_valid t) _ run in
      let (is_valid, e1) = chosen valid (read_transaction crypto t) e0 in
      let (txn, r2, e2) = >>=-ok (tuple_get_tuple t 0) _ e1 in
      let (signature, r3, e3) = >>=-ok (tuple_get_binary t 1) _ e2 in
      let (sender, r4, e4) = >>=-ok (tuple_get_binary txn 0) _ e3 in
      let (recipient, r5, e5) = >>=-ok (tuple_get_binary txn 1) _ e4 in
      let (value, r6, e6) = >>=-ok (tuple_get_u64 txn 2) _ e5 in
      let (nonce, r7, e7) = >>=-ok (tuple_get_u32 txn 3) _ e6 in
      let (c0, r8, e8) = >>=-ok (copy_view sender sender.size) _ e7 in
      let (c1, r9, e9) = >>=-ok (copy_view recipient recipient.size) _ e8 in
      let (hashed, r10, e10) = >>=-ok (transaction_compute_hash crypto _) _ e9 in
      let (signed, r11, e11) = >>=-ok (copy_view signature signature.size) _ e10 in
      verify-some (record hashed { signature = signed }) (ok-injective refl e11)

  all_present-nil :
      (present : List Transaction) → all_present crypto [] ≡ ok present → AreSigned present
  unfolding all_present
  all_present-nil present there = subst AreSigned (ok-injective refl there) tt

  all_present-cons :
      (found : Option Transaction) (rest : List (Option Transaction)) (present : List Transaction)
      → all_present crypto (found ∷ rest) ≡ ok present
      → ((t : Transaction) → found ≡ some t → IsSigned t)
      → ((ts : List Transaction) → all_present crypto rest ≡ ok ts → AreSigned ts)
      → AreSigned present
  unfolding all_present
  all_present-cons none rest present there first others = absurd cc
  all_present-cons (some t) rest present there first others =
      let (ts, tail, end) = >>=-ok (all_present crypto rest) _ there in
      subst AreSigned (ok-injective refl end) (first t refl, others ts tail)

  pub all_present-AreSigned :
      (txns : Tuple) (left i : ℕ) (found : List (Option Transaction)) (present : List Transaction)
      → read_transactions crypto txns left i ≡ ok found
      → all_present crypto found ≡ ok present
      → AreSigned present
  unfolding read_transactions
  all_present-AreSigned txns zero i found present run there = all_present-nil present (
      subst (λ (f : List (Option Transaction)). all_present crypto f ≡ ok present)
        (sym (ok-injective refl run)) there)
  all_present-AreSigned txns (suc left) i found present run there =
      let (t, r0, e0) = >>=-ok (tuple_get_tuple txns i) _ run in
      let (txn, first, e1) = >>=-ok (transaction_create_from_tuple crypto t) _ e0 in
      let (rest, others, e2) = >>=-ok (read_transactions crypto txns left (i + 1)) _ e1 in
      all_present-cons txn rest present
        (subst (λ (f : List (Option Transaction)). all_present crypto f ≡ ok present)
          (sym (ok-injective refl e2)) there)
        (λ u same. transaction_create_from_tuple-some t (
          subst (λ (o : Option Transaction). transaction_create_from_tuple crypto t ≡ ok o) same
            first))
        (λ ts tail. all_present-AreSigned txns left (i + 1) rest ts others tail)

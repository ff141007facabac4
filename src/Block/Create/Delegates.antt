-- ===== src/Block/Create/Delegates.antt =====
-- The delegates that block.c's block_create counts are those that a reader allows.
use whosecoin_core.Base.{
  ℕ, ◌^◌, ◌<◌, ltb, ◌≡◌, refl, sym, ap, ◌∙◌, true, Option, none, some, arith, ok, ◌>>=◌,
  ok-injective,
}
use whosecoin_core.Crypto.{Crypto}
use whosecoin_core.Block.{
  Account, null, account, Block, Store, block_get_account, account_get_delegates,
}
use whosecoin_core.Block.Create.{count_delegates}
use whosecoin_core.Block.Read.{is_delegate_valid}

pub count_delegates-word :
    (prev : Option ℕ) (found : Account) (n : ℕ) → count_delegates prev found ≡ ok n → n < 2 ^ 32
unfolding count_delegates
count_delegates-word prev (account value older at) n e =
    let same = ok-injective e refl in omega arith
count_delegates-word none null n e = let same : n ≡ 1 = ok-injective e refl in omega arith
count_delegates-word (some a) null n e = let same : n ≡ 0 = ok-injective e refl in omega arith

module _ (crypto : Crypto) where
  -- The delegates of the account are counted as they are when the block is read.
  pub is_delegate_valid-counted :
      (st : Store) (fuel : ℕ) (b : Block) (prev : Option ℕ) (found : Account) (n : ℕ)
      → block_get_account st fuel prev b.public_key ≡ ok found
      → count_delegates prev found ≡ ok n
      → b.delegate < n
      → is_delegate_valid crypto st fuel (record b { prev_block = prev }) ≡ ok true
  unfolding is_delegate_valid count_delegates account_get_delegates
  is_delegate_valid-counted st fuel b none found n there counted below = refl
  is_delegate_valid-counted st fuel b (some a) null n there counted below =
      let same : n ≡ 0 = ok-injective counted refl in absurd (omega arith)
  is_delegate_valid-counted st fuel b (some a) (account value older at) n there counted below =
      let same = ok-injective counted refl in
      let less : ltb b.delegate n ≡ true = ground arith in
      rw (there, ◌>>=◌) (ap (λ k. ok (ltb b.delegate k)) (sym same) ∙ ap ok less)

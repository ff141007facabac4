-- ===== src/Block/Create/Sortition.antt =====
-- The delegate that wins the sortition of a proposer.
use whosecoin_core.Base.{
  ℕ, zero, suc, ◌+◌, ◌-◌, ◌<◌, ◌≡◌, refl, subst, List, arith, if◌then◌else◌, is_negative, ltb,
  length, Bool-cases, inl, inr,
}
use whosecoin_core.Bytes.{memcmp, AtLeast, AtLeast-refl, AtLeast-less, AtLeast-trans}
use whosecoin_core.Crypto.{Crypto, crypto_generichash_bytes}
use whosecoin_core.Block.{Block}
use whosecoin_core.Block.Create.{delegate_priority, best_delegate, enter_sortition}

module _ (crypto : Crypto) (output : List ℕ) where
  -- The number and the priority are those of a delegate below `n`, and no delegate below `n` has
  -- a lower priority.
  pub record IsBest (n : ℕ) (best : ℕ × List ℕ) : Type 0 where
    pub counted : best.0 < n
    pub own : best.1 ≡ delegate_priority crypto output best.0
    pub least :
        (i : ℕ)
        → i < n
        → AtLeast crypto_generichash_bytes (delegate_priority crypto output i) best.1

  length-priority : (i : ℕ) → length (delegate_priority crypto output i) ≡ crypto_generichash_bytes
  unfolding delegate_priority
  length-priority i = crypto.length-generichash _

  length-best :
      (n : ℕ) (best : ℕ × List ℕ) → IsBest n best → length best.1 ≡ crypto_generichash_bytes
  length-best n best h = rw h.own (length-priority best.0)

  -- One more delegate: it takes the place of the best exactly if its priority is lower.
  next-IsBest :
      (n : ℕ) (best : ℕ × List ℕ)
      → IsBest n best
      → IsBest (n + 1) (
          if is_negative
            (memcmp crypto_generichash_bytes (delegate_priority crypto output n) best.1)
          then (n, delegate_priority crypto output n)
          else best)
  next-IsBest n best h =
      let p = delegate_priority crypto output n in
      elim (Bool-cases (is_negative (memcmp crypto_generichash_bytes p best.1))) [
        | inl lower ↦ rw lower (record {
          counted = omega arith;
          own = refl;
          least = λ i below. below_or_new i below p (AtLeast-refl 32 p) λ old.
              AtLeast-trans 32 (delegate_priority crypto output i) best.1 p (length-priority i)
                (length-best n best h) (length-priority n) (h.least i old)
                (AtLeast-less 32 p best.1 lower);
        })
        | inr not_lower ↦ rw not_lower (record {
          counted = omega (arith, h.counted);
          own = h.own;
          least = λ i below. below_or_new i below best.1 not_lower (h.least i);
        })
      ]
    where
      below_or_new :
          (i : ℕ)
          → i < n + 1
          → (q : List ℕ) → AtLeast crypto_generichash_bytes (delegate_priority crypto output n) q
          → (i < n → AtLeast crypto_generichash_bytes (delegate_priority crypto output i) q)
          → AtLeast crypto_generichash_bytes (delegate_priority crypto output i) q
      below_or_new i below q new old = elim (Bool-cases (ltb i n)) [
        | inl less ↦ old (ground arith)
        | inr not_less ↦
            let e : n ≡ i = ground arith in
            subst (λ k. AtLeast crypto_generichash_bytes (delegate_priority crypto output k) q) e
              new
      ]

  best_delegate-IsBest :
      (left i : ℕ) (best : ℕ × List ℕ)
      → IsBest i best
      → IsBest (i + left) (best_delegate crypto output left i best)
  unfolding best_delegate
  best_delegate-IsBest zero i best h = subst (λ n. IsBest n best) (omega arith) h
  best_delegate-IsBest (suc left) i best h =
      let all = best_delegate-IsBest left (i + 1) _ (next-IsBest i best h) in
      subst (λ n. IsBest n (best_delegate crypto output (suc left) i best)) (omega arith) all

-- With at least one delegate, the block that enters the sortition has the number and the priority
-- of a delegate below `n`, and none of the `n` delegates has a lower priority for its sortition
-- hash.
pub enter_sortition-IsBest :
    (crypto : Crypto) (private_key : List ℕ) (n : ℕ) (b : Block)
    → 0 < n
    → (let drawn = enter_sortition crypto private_key n b in
        IsBest crypto drawn.sortition_hash n (drawn.delegate, drawn.sortition_priority))
unfolding enter_sortition
enter_sortition-IsBest crypto private_key n b h =
    let output = crypto.vrf_proof_to_hash (crypto.vrf_prove private_key b.sortition_seed) in
    let first : ℕ × List ℕ = (0, delegate_priority crypto output 0) in
    let one : IsBest crypto output 1 first = record {
      counted = omega arith;
      own = refl;
      least = λ i below.
          subst (λ k. AtLeast 32 (delegate_priority crypto output k) first.1) (omega arith)
            (AtLeast-refl 32 first.1);
    } in
    subst (λ k. IsBest crypto output k (best_delegate crypto output (n - 1) 1 first)) (omega arith)
      (best_delegate-IsBest crypto output (n - 1) 1 first one)

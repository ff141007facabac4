-- ===== src/Node/Invariant/Proposes.antt =====
-- The handlers of main.c that create and receive blocks keep the node sound.
use whosecoin_core.Base.{
  ℕ, zero, suc, ◌+◌, ◌≡◌, refl, sym, ap, ◌∙◌, subst, Option, none, some, List, [], length, ok,
  ◌>>=◌, >>=-ok, ok-injective,
}
use whosecoin_core.Crypto.{Crypto}
use whosecoin_core.Buffer.{dynamic_buffer_create, contents}
use whosecoin_core.Tuple.{Tuple}
use whosecoin_core.Tuple.Readers.{tuple_size, tuple_get_tuple}
use whosecoin_core.Block.{Block, deref, block_get_child_with_public_key}
use whosecoin_core.Block.Chain.{root}
use whosecoin_core.Block.Create.{block_create}
use whosecoin_core.Block.Create.Placed.{block_create-prev}
use whosecoin_core.Block.Read.{block_create_from_tuple}
use whosecoin_core.Block.Read.Accepted.{block_create_from_tuple-IsAccepted}
use whosecoin_core.Block.Wire.{block_write}
use whosecoin_core.Node.{Node, lookup_block, next_address, add_block, drain}
use whosecoin_core.Node.Blocks.{
  broadcast_block, create_from_pool, announce_new, fork_at, on_block, each_block,
  on_blocks_response, on_timer, create_first,
}
use whosecoin_core.Node.Invariant.Adds.{IsSound, IsPlace, Follows, add_block-Follows}
use whosecoin_core.Node.Invariant.Ends.{
  LeadsTo, Follows-refl, LeadsTo-ok, LeadsTo-bind, LeadsTo-then, LeadsTo-later, LeadsTo-absent,
  LeadsTo-made, LeadsTo-when,
}
use whosecoin_core.Node.Invariant.Draws.{drain-AreDistinct, lookup_block-IsKnown, known-IsPlace}

module _ (crypto : Crypto) (fuel : ℕ) (pk sk : List ℕ) where
  broadcast_block-LeadsTo :
      (node : Node) (at : ℕ)
      → IsSound node
      → LeadsTo node (broadcast_block crypto fuel pk sk node at)
  unfolding broadcast_block
  broadcast_block-LeadsTo node at h after run =
      let (block, r0, e0) = >>=-ok (deref node.store at) _ run in
      let (buf, r1, e1) = >>=-ok (block_write node.store block (dynamic_buffer_create 64)) _ e0 in
      let (payload, r2, e2) = >>=-ok (contents buf) _ e1 in
      LeadsTo-ok node _ (Follows-refl node h) after e2

  create_from_pool-Follows :
      (node : Node) (prev : Option ℕ) (next : Option Block) (after : Node)
      → IsSound node
      → create_from_pool crypto fuel pk sk node prev ≡ ok (next, after)
      → Follows node after × ((b : Block) → next ≡ some b → b.prev_block ≡ prev)
  unfolding create_from_pool
  create_from_pool-Follows node prev next after h run =
      let (drained, r0, e0) = >>=-ok (drain (length node.pool + 1) [] node.pool) _ run in
      let (made, r1, e1) =
        >>=-ok
          (block_create crypto node.store fuel (next_address node.store) node.clock pk sk prev
            drained.0)
          _ e0 in
      let less = drain-AreDistinct (length node.pool + 1) [] node.pool drained h.1 r0 in
      let here : Node = record node { pool = drained.1 } in
      let end : (made, here) ≡ (next, after) = ok-injective refl e1 in
      subst
        (λ (r : Option Block × Node).
          Follows node r.1 × ((b : Block) → r.0 ≡ some b → b.prev_block ≡ prev))
        end
        (
          ((h.0, less), λ prev place. place),
          λ b same.
              block_create-prev crypto node.store fuel (next_address node.store) node.clock pk sk
                prev drained.0 b (r1 ∙ ap ok same),
        )

  announce_new-LeadsTo :
      (node : Node) (b : Block)
      → IsSound node
      → IsPlace node.store node.chain b.prev_block
      → LeadsTo node (announce_new crypto fuel pk sk node b)
  unfolding announce_new
  announce_new-LeadsTo node b h place = LeadsTo-bind node (add_block fuel node b) _ (λ r r0.
      let follows = add_block-Follows fuel node b r.0 r.1 h place r0 in
      LeadsTo-when node r.1 r.0 _ follows
        (broadcast_block-LeadsTo r.1 (next_address node.store) follows.0))

  fork_at-LeadsTo :
      (node : Node) (prev : Option ℕ)
      → IsSound node
      → IsPlace node.store node.chain prev
      → LeadsTo node (fork_at crypto fuel pk sk node prev)
  unfolding fork_at
  fork_at-LeadsTo node none h place = LeadsTo-ok node node (Follows-refl node h)
  fork_at-LeadsTo node (some p) h place =
      LeadsTo-bind node (block_get_child_with_public_key node.store p pk) _ (λ own r0.
        LeadsTo-absent node own _ h (
          LeadsTo-bind node (create_from_pool crypto fuel pk sk node (some p)) _ (λ r r1.
            let (follows, on_prev) = create_from_pool-Follows node (some p) r.0 r.1 h r1 in
            LeadsTo-made node r.1 r.0 (announce_new crypto fuel pk sk r.1) follows (λ b made.
              announce_new-LeadsTo r.1 b follows.0 (
                subst (IsPlace r.1.store r.1.chain) (sym (on_prev b made))
                  (follows.1 (some p) place))))))

  -- A received block that is accepted stands on a block that the node has, or on none.
  pub on_block-LeadsTo :
      (node : Node) (msg : Tuple)
      → IsSound node
      → LeadsTo node (on_block crypto fuel pk sk node msg)
  unfolding on_block
  on_block-LeadsTo node msg h =
      LeadsTo-bind node
        (block_create_from_tuple crypto node.store fuel (next_address node.store)
          (lookup_block node.chain) msg)
        _
        (λ found r0. LeadsTo-made node node found _ (Follows-refl node h) (λ b made.
          let accepted =
            block_create_from_tuple-IsAccepted crypto node.store fuel (lookup_block node.chain) msg
              (next_address node.store) b (r0 ∙ ap ok made) in
          let (header, txns, r2, r3, (v, field, found_by), rooted) = accepted.drawn.0.0 in
          let known = lookup_block-IsKnown node.chain v b.prev_block found_by in
          let place = known-IsPlace node b.prev_block h known in
          LeadsTo-bind node (add_block fuel node b) _ (λ r r1.
            let follows = add_block-Follows fuel node b r.0 r.1 h place r1 in
            LeadsTo-when node r.1 r.0 _ follows
              (fork_at-LeadsTo r.1 b.prev_block follows.0 (follows.1 b.prev_block place)))))

  each_block-LeadsTo :
      (node : Node) (msg : Tuple) (i : ℕ)
      → IsSound node
      → LeadsTo node (each_block crypto fuel pk sk node msg i)
  unfolding each_block
  each_block-LeadsTo node msg zero h = LeadsTo-ok node node (Follows-refl node h)
  each_block-LeadsTo node msg (suc i) h = LeadsTo-bind node (tuple_get_tuple msg i) _ (λ t r0.
      LeadsTo-then node (on_block crypto fuel pk sk node t) _ (on_block-LeadsTo node t h)
        (λ m sound. each_block-LeadsTo m msg i sound))

  pub on_blocks_response-LeadsTo :
      (node : Node) (msg : Tuple)
      → IsSound node
      → LeadsTo node (on_blocks_response crypto fuel pk sk node msg)
  unfolding on_blocks_response
  on_blocks_response-LeadsTo node msg h = each_block-LeadsTo node msg (tuple_size msg) h

  pub create_first-LeadsTo :
      (node : Node) → IsSound node → LeadsTo node (create_first crypto fuel pk sk node)
  unfolding create_first
  create_first-LeadsTo node h =
      LeadsTo-bind node
        (block_create crypto node.store fuel (next_address node.store) node.clock pk sk none []) _
        (λ made r0. LeadsTo-made node node made _ (Follows-refl node h) (λ b same.
          let at =
            block_create-prev crypto node.store fuel (next_address node.store) node.clock pk sk none
              [] b (r0 ∙ ap ok same) in
          LeadsTo-bind node (add_block fuel node b) _ (λ r r1.
            let follows =
              add_block-Follows fuel node b r.0 r.1 h
                (subst (IsPlace node.store node.chain) (sym at) (([], root), λ gone. refl)) r1 in
            LeadsTo-later node r.1 _ follows
              (broadcast_block-LeadsTo r.1 (next_address node.store) follows.0))))

  principal-IsPlace :
      (node : Node) → IsSound node → IsPlace node.store node.chain node.chain.principal
  principal-IsPlace node (tree, distinct) =
      ((tree.principal_links, tree.principal_chain), λ gone. gone)

  proposal-LeadsTo :
      (node : Node) (p : ℕ)
      → IsSound node
      → IsPlace node.store node.chain (some p)
      → LeadsTo node (
          create_from_pool crypto fuel pk sk node (some p) >>= λ r. elim r.0 [
            | none ↦ ok r.1
            | some next ↦ add_block fuel r.1 next >>= λ s.
                broadcast_block crypto fuel pk sk s.1 (next_address r.1.store)
          ])
  proposal-LeadsTo node p h place =
      LeadsTo-bind node (create_from_pool crypto fuel pk sk node (some p)) _ (λ r r1.
        let (follows, on_prev) = create_from_pool-Follows node (some p) r.0 r.1 h r1 in
        LeadsTo-made node r.1 r.0 _ follows (λ b made.
          LeadsTo-bind r.1 (add_block fuel r.1 b) _ (λ s r2.
            let added =
              add_block-Follows fuel r.1 b s.0 s.1 follows.0
                (subst (IsPlace r.1.store r.1.chain) (sym (on_prev b made))
                  (follows.1 (some p) place))
                r2 in
            LeadsTo-later r.1 s.1 _ added
              (broadcast_block-LeadsTo s.1 (next_address r.1.store) added.0))))

  pub on_timer-LeadsTo :
      (node : Node) → IsSound node → LeadsTo node (on_timer crypto fuel pk sk node)
  unfolding on_timer
  on_timer-LeadsTo node h = at node.chain.principal (principal-IsPlace node h)
    where
      at :
          (principal : Option ℕ)
          → IsPlace node.store node.chain principal
          → LeadsTo node (elim principal [
            | none ↦ ok node
            | some p ↦ block_get_child_with_public_key node.store p pk >>= λ own. elim own [
              | some child ↦ ok node
              | none ↦ create_from_pool crypto fuel pk sk node (some p) >>= λ r. elim r.0 [
                | none ↦ ok r.1
                | some next ↦ add_block fuel r.1 next >>= λ s.
                    broadcast_block crypto fuel pk sk s.1 (next_address r.1.store)
              ]
            ]
          ])
      at none place = LeadsTo-ok node node (Follows-refl node h)
      at (some p) place =
          LeadsTo-bind node (block_get_child_with_public_key node.store p pk) _
            (λ own r0. LeadsTo-absent node own _ h (proposal-LeadsTo node p h place))

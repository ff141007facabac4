-- ===== src/Blockchain/ForkChoice.antt =====
-- The three branches of `blockchain_add_block` that choose the principal are one rule.
use whosecoin_core.Base.{
  ℕ, zero, suc, ◌<◌, ◌≡◌, refl, Bool, true, false, Option, none, some, List, [], ◌∷◌, arith,
  if◌then◌else◌, is_negative, length, Run, ok, ◌>>=◌, Bool-cases, inl, inr,
}
use whosecoin_core.Bytes.{memcmp}
use whosecoin_core.Crypto.{crypto_generichash_bytes}
use whosecoin_core.Block.{Block, Store, deref, block_get_prev, same_block}
use whosecoin_core.Block.Chain.{Link, Chain, root, link}
use whosecoin_core.Blockchain.{block_get_priority, has_lower_priority, fork_walk, extends_principal}

-- The block of the branch that a child of `target` competes with: the one right above `target`.
abbrev pub rival : List Link → Option ℕ → Option Link
rival [] target = none
rival (l ∷ links) target =
    if same_block target l.block.prev_block then some l else rival links target

-- The rule: a child of the principal becomes the principal; a block that forks off the principal
-- chain does so if its priority is lower than its rival's; any other block does not.
abbrev pub overtakes : List Link → Option ℕ → Block → Bool
overtakes links principal b =
    if same_block b.prev_block principal then true else (elim (rival links b.prev_block) [
      | none ↦ false
      | some l ↦
          is_negative
            (memcmp crypto_generichash_bytes b.sortition_priority l.block.sortition_priority)
    ])

priority-link :
    (st : Store) (a c : ℕ) (b d : Block)
    → deref st a ≡ ok b
    → deref st c ≡ ok d
    → has_lower_priority st (some a) (some c)
      ≡ ok (is_negative (memcmp crypto_generichash_bytes b.sortition_priority d.sortition_priority))
unfolding has_lower_priority block_get_priority
priority-link st a c b d e f = rw (e, f)

pub prev-link :
    (st : Store) (a : ℕ) (b : Block)
    → deref st a ≡ ok b
    → block_get_prev st (some a) ≡ ok b.prev_block
unfolding block_get_prev
prev-link st a b e = rw e

-- What the walk from the principal finds: the rival and the target under it, or NULL.
abbrev pub Walked : Store → Option ℕ → Option Link → Option ℕ × Option ℕ → Type 0
Walked st target none w = same_block target w.0 ≡ false
Walked st target (some l) w =
    (same_block target w.0 ≡ true) × (w.1 ≡ some l.at) × (deref st l.at ≡ ok l.block)

-- The walk that stands at `next`, the block below `l`.
walk_from :
    (st : Store) (target : Option ℕ) (l : Link) (next : Option ℕ) (links : List Link) (fuel : ℕ)
    → deref st l.at ≡ ok l.block
    → Chain st next links
    → length links < fuel
    → (w : Option ℕ × Option ℕ) × (fork_walk st fuel target next (some l.at) ≡ ok w)
      × Walked st target (if same_block target next then some l else rival links target) w
unfolding fork_walk
walk_from st target l next links zero e c h = absurd (omega arith)
walk_from st target l next links (suc fuel) e root h = elim (Bool-cases (same_block target none)) [
  | inl hit ↦ ((none, some l.at), rw (hit, fork_walk), rw hit (hit, refl, e))
  | inr miss ↦ ((none, some l.at), rw (miss, fork_walk), rw miss miss)
]
walk_from st target l next links (suc fuel) e (link {a = a} {b = b} {links = rest} f c) h =
    elim (Bool-cases (same_block target (some a))) [
      | inl hit ↦ ((some a, some l.at), rw (hit, fork_walk), rw hit (hit, refl, e))
      | inr miss ↦
          let (w, run, found) =
            walk_from st target (record { at = a; block = b }) b.prev_block rest fuel f c
              (omega arith) in
          (w, rw (miss, fork_walk) (rw (prev-link st a b f) run), rw miss found)
    ]

-- What the walk from the principal, which is not the target, finds.
pub fork_walk-rival :
    (st : Store) (target : Option ℕ) (a : ℕ) (b : Block) (links : List Link) (fuel : ℕ)
    → deref st a ≡ ok b
    → Chain st b.prev_block links
    → same_block target (some a) ≡ false
    → suc (length links) < fuel
    → (w : Option ℕ × Option ℕ) × (fork_walk st fuel target (some a) none ≡ ok w)
      × Walked st target (rival (record { at = a; block = b } ∷ links) target) w
unfolding fork_walk
fork_walk-rival st target a b links zero e c off h = absurd (omega arith)
fork_walk-rival st target a b links (suc fuel) e c off h =
    let (w, run, found) =
      walk_from st target (record { at = a; block = b }) b.prev_block links fuel e c
        (omega arith) in
    (w, rw (off, fork_walk) (rw (prev-link st a b e) run), found)

pub decide_rival :
    (st : Store) (target : Option ℕ) (block : ℕ) (b : Block) (found : Option Link)
    (w : Option ℕ × Option ℕ)
    → deref st block ≡ ok b
    → Walked st target found w
    → ◌≡◌ {A = Run Bool}
        (elim (same_block target w.0) [
          | true ↦ has_lower_priority st (some block) w.1
          | false ↦ ok false
        ])
        (ok (elim found [
          | none ↦ false
          | some l ↦
              is_negative
                (memcmp crypto_generichash_bytes b.sortition_priority l.block.sortition_priority)
        ]))
decide_rival st target block b none w e h = rw h
decide_rival st target block b (some l) w e h =
    rw (h.0, h.1) (priority-link st block l.at b l.block e h.2)

-- On a tree whose principal chain ends at NULL, where the principal is NULL only if the block has
-- no previous block, the three branches decide as the rule does.
pub extends_principal-overtakes :
    (st : Store) (principal : Option ℕ) (links : List Link) (fuel block : ℕ) (b : Block)
    → Chain st principal links
    → length links < fuel
    → deref st block ≡ ok b
    → (principal ≡ none → b.prev_block ≡ none)
    → extends_principal st fuel principal block ≡ ok (overtakes links principal b)
unfolding extends_principal
extends_principal-overtakes st principal links fuel block b root h e origin =
    rw (prev-link st block b e, origin refl)
extends_principal-overtakes st principal links fuel block b
      (link {a = a} {b = top} {links = rest} f c) h e origin =
    let target = b.prev_block in
    elim (Bool-cases (same_block target (some a))) [
      | inl child ↦ rw (prev-link st block b e, ◌>>=◌, child)
      | inr other ↦ elim (Bool-cases (same_block target top.prev_block)) [
        | inl sibling ↦
            rw (prev-link st block b e, ◌>>=◌, other, prev-link st a top f, ◌>>=◌, sibling)
              (priority-link st block a b top e f)
        | inr far ↦
            let (w, run, found) = fork_walk-rival st target a top rest fuel f c other h in
            rw (prev-link st block b e, ◌>>=◌, other, prev-link st a top f, ◌>>=◌, far, run, ◌>>=◌)
              (decide_rival st target block b (rival rest target) w e (rw far at found))
      ]
    ]

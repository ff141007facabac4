-- ===== src/Node/Invariant/Ends.antt =====
-- Where the runs of the handlers of main.c that return end: the combinators of their proofs.
use whosecoin_core.Base.{
  ℕ, ◌≡◌, refl, subst, Bool, true, false, Option, none, some, Run, ok, ◌>>=◌, >>=-ok, ok-injective,
}
use whosecoin_core.Block.{Block}
use whosecoin_core.Node.{Node}
use whosecoin_core.Node.Invariant.Adds.{IsSound, Follows}

-- The node at the end of a run that returns.
abbrev pub LeadsTo : Node → Run Node → Type 0
LeadsTo node run = (after : Node) → run ≡ ok after → Follows node after

pub Follows-refl : (node : Node) → IsSound node → Follows node node
Follows-refl node h = (h, λ prev place. place)

pub Follows-trans : (n m k : Node) → Follows n m → Follows m k → Follows n k
Follows-trans n m k f g = (g.0, λ prev place. g.1 prev (f.1 prev place))

-- A run that ends with a node that differs from the first in what the invariant does not read.
pub LeadsTo-ok : (node same : Node) → Follows node same → LeadsTo node (ok same)
LeadsTo-ok node same f after e = subst (Follows node) (ok-injective refl e) f

pub LeadsTo-bind :
    {X : Type 0} (node : Node) (first : Run X) (next : X → Run Node)
    → ((x : X) → first ≡ ok x → LeadsTo node (next x))
    → LeadsTo node (first >>= next)
LeadsTo-bind node first next k after run =
    let (x, r0, e0) = >>=-ok first next run in k x r0 after e0

-- One handler after another.
pub LeadsTo-then :
    (node : Node) (first : Run Node) (next : Node → Run Node)
    → LeadsTo node first
    → ((m : Node) → IsSound m → LeadsTo m (next m))
    → LeadsTo node (first >>= next)
LeadsTo-then node first next h k =
    LeadsTo-bind node first next
      (λ m r0 after run. let f = h m r0 in Follows-trans node m after f (k m f.0 after run))

pub LeadsTo-later :
    (node m : Node) (run : Run Node) → Follows node m → LeadsTo m run → LeadsTo node run
LeadsTo-later node m run f h after e = Follows-trans node m after f (h after e)

pub LeadsTo-absent :
    (node : Node) (found : Option ℕ) (next : Run Node)
    → IsSound node
    → LeadsTo node next
    → LeadsTo node (elim found [ some child ↦ ok node | none ↦ next ])
LeadsTo-absent node none next h k = k
LeadsTo-absent node (some child) next h k = LeadsTo-ok node node (Follows-refl node h)

pub LeadsTo-made :
    (node same : Node) (made : Option Block) (next : Block → Run Node)
    → Follows node same
    → ((b : Block) → made ≡ some b → LeadsTo same (next b))
    → LeadsTo node (elim made [ none ↦ ok same | some b ↦ next b ])
LeadsTo-made node same none next f k = LeadsTo-ok node same f
LeadsTo-made node same (some b) next f k = LeadsTo-later node same (next b) f (k b refl)

pub LeadsTo-when :
    (node same : Node) (test : Bool) (next : Run Node)
    → Follows node same
    → LeadsTo same next
    → LeadsTo node (elim test [ true ↦ next | false ↦ ok same ])
LeadsTo-when node same true next f k = LeadsTo-later node same next f k
LeadsTo-when node same false next f k = LeadsTo-ok node same f

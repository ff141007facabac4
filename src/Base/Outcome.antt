-- ===== src/Base/Outcome.antt =====
-- How a C function ends: with a value, in a failed `assert`, in undefined behaviour (an access
-- outside an object or of an uninitialised cell, a null dereference), or not at all.
use mathlib.Core.Path.{◌≡◌, refl}
use mathlib.Core.Bool.{Bool, true, false}
use mathlib.Core.Option.{Option, none, some}
use whosecoin_core.Base.Tests.{if◌then◌else◌}

pub data Run {ℓ} (X : Type ℓ) : Type ℓ where
  ok : X → Run X
  abort : Run X
  fault : Run X
  out_of_fuel : Run X

infixl 5 ◌>>=◌ ◌>>◌
-- The next call runs on the value, if there is one.
abbrev pub ◌>>=◌ {ℓ κ} : {X : Type ℓ} {Y : Type κ} (first : Run X) (next : X → Run Y) → Run Y
ok x >>= next = next x
abort >>= next = abort
fault >>= next = fault
out_of_fuel >>= next = out_of_fuel

abbrev pub ◌>>◌ {κ} : {Y : Type κ} → Run (Unit {0}) → Run Y → Run Y
first >> last = first >>= λ _. last

-- `assert(b)`
abbrev pub assert : Bool → Run (Unit {0})
assert true = ok tt
assert false = abort

-- A value that must be there for the access to be defined.
abbrev pub or_fault {ℓ} : {X : Type ℓ} → Option X → Run X
or_fault none = fault
or_fault (some x) = ok x

-- A value whose absence an `assert` stops.
abbrev pub or_abort {ℓ} : {X : Type ℓ} → Option X → Run X
or_abort none = abort
or_abort (some x) = ok x

-- The run ends with a value of which `Q` holds.
abbrev pub Returns {ℓ κ} : {X : Type ℓ} (run : Run X) (Q : X → Type κ) → Type (ℓ ⊔ κ)
Returns {X} run Q = (x : X) × (run ≡ ok x) × Q x

-- A run that returns goes on with what follows it.
pub Returns-bind {ℓ κ} :
    {X : Type ℓ} {Y : Type ℓ} {P : X → Type κ} {Q : Y → Type κ} {m : Run X} {f : X → Run Y}
    → Returns m P
    → ((x : X) → P x → Returns (f x) Q)
    → Returns (m >>= f) Q
Returns-bind {f} (x, e, p) k = let (y, e', q) = k x p in (y, rw e e', q)

pub Returns-map {ℓ κ} :
    {X : Type ℓ} {P Q : X → Type κ} {m : Run X} → Returns m P → ((x : X) → P x → Q x) → Returns m Q
Returns-map (x, e, p) k = (x, e, k x p)

-- Both branches of a test return.
pub Returns-if {ℓ κ} :
    {X : Type ℓ} {Q : X → Type κ} (test : Bool) {yes no : Run X}
    → (test ≡ true → Returns yes Q)
    → (test ≡ false → Returns no Q)
    → Returns (elim test [ true ↦ yes | false ↦ no ]) Q
Returns-if true f g = f refl
Returns-if false f g = g refl

-- A call that is followed by another and returns has returned itself.
pub >>=-ok {ℓ κ} :
    {X : Type ℓ} {Y : Type κ} (first : Run X) (next : X → Run Y) {y : Y}
    → (first >>= next) ≡ ok y
    → (x : X) × (first ≡ ok x) × (next x ≡ ok y)
>>=-ok (ok x) next e = (x, refl, e)
>>=-ok abort next e = absurd cc
>>=-ok fault next e = absurd cc
>>=-ok out_of_fuel next e = absurd cc

-- A run has one result.
pub ok-injective {ℓ} : {X : Type ℓ} {run : Run X} {x y : X} → run ≡ ok x → run ≡ ok y → x ≡ y
ok-injective e f = cc

-- The continuation of a test that the run has passed.
pub passed :
    {A : Type 0} (test : Bool) (k : Run (Option A)) {a : A}
    → (elim test [ false ↦ ok none | true ↦ k ]) ≡ ok (some a)
    → (test ≡ true) × (k ≡ ok (some a))
passed true k e = (refl, e)
passed false k e = absurd cc

pub failed :
    {A : Type 0} (test : Bool) (k : Run (Option A)) {a : A}
    → (elim test [ true ↦ ok none | false ↦ k ]) ≡ ok (some a)
    → (test ≡ false) × (k ≡ ok (some a))
failed false k e = (refl, e)
failed true k e = absurd cc

pub chosen :
    {A : Type 0} (test : Bool) (k : Run (Option A)) {a : A}
    → (if test then k else ok none) ≡ ok (some a)
    → (test ≡ true) × (k ≡ ok (some a))
chosen true k e = (refl, e)
chosen false k e = absurd cc

pub kept :
    {A : Type 0} (test : Bool) (x : A) {a : A}
    → ok (if test then some x else none) ≡ ok (some a)
    → (test ≡ true) × (a ≡ x)
kept true x e = (refl, cc)
kept false x e = absurd cc

pub is_there :
    {A D : Type 0} (found : Option D) (k : D → Run (Option A)) {a : A}
    → (elim found [ none ↦ ok none | some d ↦ k d ]) ≡ ok (some a)
    → (d : D) × (found ≡ some d) × (k d ≡ ok (some a))
is_there none k e = absurd cc
is_there (some d) k e = (d, refl, e)

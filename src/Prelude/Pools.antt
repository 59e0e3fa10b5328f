-- ===== src/Prelude/Pools.antt =====
-- Lists of threads: taking one out, and what that keeps.
use Prim.Native.Nat.{suc}
use mathlib.Core.Path.{◌≡◌, refl, ap}
use mathlib.Core.List.{List, [], ◌∷◌}
use recursive_harness_builde.Prelude.Lists.{All, length}

-- `Pick x xs ys`: `xs` is `ys` with `x` put in somewhere.
pub data Pick {A : Type 0} (x : A) : List A → List A → Type 0 where
  first : {xs : List A} → Pick x (x ∷ xs) xs
  later : {y : A} {xs ys : List A} → Pick x xs ys → Pick x (y ∷ xs) (y ∷ ys)

module _ {A : Type 0} {x : A} where
  pub length-Pick : {xs ys : List A} → Pick x xs ys → length xs ≡ suc (length ys)
  length-Pick first = refl
  length-Pick (later p) = ap suc (length-Pick p)

  pub picked : (P : A → Type 0) {xs ys : List A} → Pick x xs ys → All P xs → P x × All P ys
  picked P first h = (h.0, h.1)
  picked P (later p) h = let (a, b) = picked P p h.1 in (a, (h.0, b))

pub All-map :
    {A : Type 0} (P Q : A → Type 0) → ((a : A) → P a → Q a) → (xs : List A) → All P xs → All Q xs
All-map P Q f [] h = tt
All-map P Q f (x ∷ xs) h = (f x h.0, All-map P Q f xs h.1)

pub All-both :
    {A : Type 0} (P Q R : A → Type 0)
    → ((a : A) → P a → Q a → R a)
    → (xs : List A) → All P xs
    → All Q xs
    → All R xs
All-both P Q R f [] h k = tt
All-both P Q R f (x ∷ xs) h k = (f x h.0 k.0, All-both P Q R f xs h.1 k.1)

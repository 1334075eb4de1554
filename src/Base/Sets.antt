-- ===== src/Base/Sets.antt =====
-- A `Set<string>` as a list without repetitions, in insertion order.
use vortex_reloaded.Base.Tests.{if◌then◌else◌, Bool-cases}
use vortex_reloaded.Base.Lists.{filter}
use mathlib.Core.Logic.{inl, inr}
use text.Mathlib.TextPositions.{eq_refl}
use text.Mathlib.TextEquality.{eq_iff}
use text.Mathlib.Text.{◌==◌}
use native.Mathlib.Omega.{arith}
use mathlib.Core.List.{List, [], ◌∷◌, ◌++◌}
use mathlib.Core.Bool.{Bool, false, not, ◌&&◌, ◌||◌}
use mathlib.Core.Path.{◌≡◌, refl}
use Prim.Native.String.{String}

unfoldable pub has : String → List String → Bool
has k [] = false
has k (x ∷ xs) = x == k || has k xs

unfoldable pub add : String → List String → List String
add k xs = if has k xs then xs else xs ++ k ∷ []

unfoldable pub remove : String → List String → List String
remove k [] = []
remove k (x ∷ xs) = if x == k then remove k xs else x ∷ remove k xs

-- `new Set(xs)`, or a loop that adds each of `xs` to `s`.
unfoldable pub add_all : List String → List String → List String
add_all s [] = s
add_all s (x ∷ xs) = add_all (add x s) xs

pub has-append : (k : String) (xs ys : List String) → has k (xs ++ ys) ≡ (has k xs || has k ys)
unfolding has
has-append k [] ys = refl
has-append k (x ∷ xs) ys = ground (arith, has-append k xs ys)

pub has-add : (k j : String) (xs : List String) → has j (add k xs) ≡ (k == j || has j xs)
unfolding add has
has-add k j xs = ground (arith, eq_iff k j, has-append j xs (k ∷ []))

pub has-remove :
    (k j : String) (xs : List String) → has j (remove k xs) ≡ (not (k == j) && has j xs)
unfolding remove has
has-remove k j [] = ground arith
has-remove k j (x ∷ xs) = ground (arith, eq_iff k j, eq_iff x k, eq_iff x j, has-remove k j xs)

pub has-add_all : (j : String) (s xs : List String) → has j (add_all s xs) ≡ (has j s || has j xs)
unfolding add_all has
has-add_all j s [] = ground arith
has-add_all j s (x ∷ xs) = ground (arith, has-add_all j (add x s) xs, has-add x j s)

pub has-filter :
    (p : String → Bool) (j : String) (xs : List String) → has j (filter p xs) ≡ (p j && has j xs)
unfolding has
has-filter p j [] = ground arith
has-filter p j (x ∷ xs) = elim (Bool-cases (x == j)) [
  | inl e ↦ rw ((eq_iff x j).0 e) (ground (arith, has-filter p j xs, eq_refl j))
  | inr e ↦ ground (arith, has-filter p j xs)
]

-- ===== src/Base/Lists.antt =====
-- Lists measured by native numbers and filtered by Boolean tests.
use mathlib.Core.List.{reverse, reverse-cons, append-nil}
use native.Mathlib.Nat.{zero-add}
use Prim.Native.Nat.{ℕ, zero, suc, ◌+◌, ◌≤◌}
use mathlib.Core.Path.{◌≡◌, refl, ap, sym, ◌∙◌}
use mathlib.Core.Bool.{Bool, true, false, ◌&&◌, ◌||◌}
use mathlib.Core.List.{List, [], ◌∷◌, ◌++◌}
use mathlib.Core.Option.{Option, none, some}
use native.Mathlib.Omega.{arith}
use vortex_reloaded.Base.Tests.{if◌then◌else◌, Bool-cases}
use mathlib.Core.Logic.{inl, inr}

module _ {ℓ} {A : Type ℓ} where
  abbrev pub length : List A → ℕ
  length [] = 0
  length (x ∷ xs) = suc (length xs)

  abbrev pub filter : (A → Bool) → List A → List A
  filter p [] = []
  filter p (x ∷ xs) = if p x then x ∷ filter p xs else filter p xs

  -- `xs.find(p)` of the source.
  abbrev pub find : (A → Bool) → List A → Option A
  find p [] = none
  find p (x ∷ xs) = if p x then some x else find p xs

  -- `xs.some(p)` and `xs.every(p)` of the source.
  abbrev pub any : (A → Bool) → List A → Bool
  any p [] = false
  any p (x ∷ xs) = p x || any p xs

  abbrev pub all : (A → Bool) → List A → Bool
  all p [] = true
  all p (x ∷ xs) = p x && all p xs

  abbrev pub All {κ} : (A → Type κ) → List A → Type κ
  All Holds [] = Unit
  All Holds (x ∷ xs) = Holds x × All Holds xs

  abbrev pub take : ℕ → List A → List A
  take zero xs = []
  take (suc n) [] = []
  take (suc n) (x ∷ xs) = x ∷ take n xs

  abbrev pub drop : ℕ → List A → List A
  drop zero xs = xs
  drop (suc n) [] = []
  drop (suc n) (x ∷ xs) = drop n xs

  pub take-append-drop : (n : ℕ) (xs : List A) → take n xs ++ drop n xs ≡ xs
  take-append-drop zero xs = refl
  take-append-drop (suc n) [] = refl
  take-append-drop (suc n) (x ∷ xs) = ap (λ l. x ∷ l) (take-append-drop n xs)

  pub take-nil : (n : ℕ) → take n [] ≡ []
  take-nil zero = refl
  take-nil (suc n) = refl

  pub take-add : (n m : ℕ) (xs : List A) → take (n + m) xs ≡ take n xs ++ take m (drop n xs)
  take-add zero m xs = rw zero-add
  take-add (suc n) m [] = take-nil (suc n + m) ∙ sym (take-nil m)
  take-add (suc n) m (x ∷ xs) =
      let e : suc n + m ≡ suc (n + m) = omega arith in rw e (ap (λ l. x ∷ l) (take-add n m xs))

  pub length-append : (xs ys : List A) → length (xs ++ ys) ≡ length xs + length ys
  length-append [] ys = omega arith
  length-append (x ∷ xs) ys = omega (arith, length-append xs ys)

  pub length-filter-le : (p : A → Bool) (xs : List A) → length (filter p xs) ≤ length xs
  length-filter-le p [] = omega arith
  length-filter-le p (x ∷ xs) = ground (arith, length-filter-le p xs)

  pub filter-append :
      (p : A → Bool) (xs ys : List A) → filter p (xs ++ ys) ≡ filter p xs ++ filter p ys
  filter-append p [] ys = refl
  filter-append p (x ∷ xs) ys = ground (arith, filter-append p xs ys)

  -- A second, weaker test removes nothing that the first one has not.
  pub filter-filter_of_imp :
      (p q : A → Bool) (xs : List A)
      → ((x : A) → q x ≡ true → p x ≡ true)
      → filter q (filter p xs) ≡ filter q xs
  filter-filter_of_imp p q [] h = refl
  filter-filter_of_imp p q (x ∷ xs) h = ground (arith, h x, filter-filter_of_imp p q xs h)

  pub All-append {κ} :
      (Holds : A → Type κ) (xs ys : List A) → All Holds xs → All Holds ys → All Holds (xs ++ ys)
  All-append Holds [] ys hx hy = hy
  All-append Holds (x ∷ xs) ys hx hy = (hx.0, All-append Holds xs ys hx.1 hy)

  pub All-filter {κ} :
      (Holds : A → Type κ) (p : A → Bool) (xs : List A) → All Holds xs → All Holds (filter p xs)
  All-filter Holds p [] h = h
  All-filter Holds p (x ∷ xs) h = ground (arith, All-filter Holds p xs h.1)

  pub All-map_imp {κ κ'} :
      (Holds : A → Type κ) (Q : A → Type κ') (xs : List A)
      → ((x : A) → Holds x → Q x)
      → All Holds xs
      → All Q xs
  All-map_imp Holds Q [] f h = tt
  All-map_imp Holds Q (x ∷ xs) f h = (f x h.0, All-map_imp Holds Q xs f h.1)

  pub All-append_right {κ} :
      (Holds : A → Type κ) (xs ys : List A) → All Holds (xs ++ ys) → All Holds ys
  All-append_right Holds [] ys h = h
  All-append_right Holds (x ∷ xs) ys h = All-append_right Holds xs ys h.1

  pub All-append_left {κ} :
      (Holds : A → Type κ) (xs ys : List A) → All Holds (xs ++ ys) → All Holds xs
  All-append_left Holds [] ys h = tt
  All-append_left Holds (x ∷ xs) ys h = (h.0, All-append_left Holds xs ys h.1)

  pub filter-none : (p : A → Bool) (xs : List A) → All (λ x. p x ≡ false) xs → filter p xs ≡ []
  filter-none p [] h = refl
  filter-none p (x ∷ xs) h = rw h.0 (filter-none p xs h.1)

  pub filter-reverse : (p : A → Bool) (xs : List A) → filter p (reverse xs) ≡ reverse (filter p xs)
  filter-reverse p [] = refl
  filter-reverse p (x ∷ xs) =
      rw (reverse-cons x xs, filter-append p (reverse xs) (x ∷ []), filter-reverse p xs)
        (last (p x) refl)
    where
      last :
          (b : Bool)
          → p x ≡ b
          → reverse (filter p xs) ++ (if b then x ∷ [] else [])
            ≡ reverse (if b then x ∷ filter p xs else filter p xs)
      last true e = sym (reverse-cons x (filter p xs))
      last false e = append-nil _

  pub find-append :
      (p : A → Bool) (xs ys : List A)
      → find p (xs ++ ys) ≡ elim (find p xs) [ none ↦ find p ys | some x ↦ some x ]
  find-append p [] ys = refl
  find-append p (x ∷ xs) ys = rest-holds (p x) (find-append p xs ys)
    where
      rest-holds :
          (b : Bool)
          → find p (xs ++ ys) ≡ elim (find p xs) [ none ↦ find p ys | some z ↦ some z ]
          → (if b then some x else find p (xs ++ ys))
            ≡ elim (if b then some x else find p xs) [ none ↦ find p ys | some z ↦ some z ]
      rest-holds true h = refl
      rest-holds false h = h

  pub find-holds : (p : A → Bool) (xs : List A) (x : A) → find p xs ≡ some x → p x ≡ true
  find-holds p [] x h = cc
  find-holds p (y ∷ ys) x h = elim (Bool-cases (p y)) [
    | inl e ↦ let same : y ≡ x = cc (rw e at h) in rw (sym same) e
    | inr e ↦ find-holds p ys x (rw e at h)
  ]

-- ===== src/Base/Dict.antt =====
-- A `Map<string, V>` as an association list in insertion order: `set` on a key that is there
-- keeps its place, as in JavaScript.
use Prim.Native.String.{String}
use mathlib.Core.Path.{◌≡◌, refl}
use mathlib.Core.List.{List, [], ◌∷◌}
use mathlib.Core.Option.{Option, none, some}
use native.Mathlib.Omega.{arith}
use text.Mathlib.Text.{◌==◌}
use text.Mathlib.TextEquality.{eq_iff}
use text.Mathlib.TextPositions.{eq_refl}
use vortex_reloaded.Base.Tests.{if◌then◌else◌}

abbrev pub Dict {ℓ} : Type ℓ → Type ℓ
Dict V = List (String × V)

module _ {ℓ} {V : Type ℓ} where
  unfoldable pub lookup : String → Dict V → Option V
  lookup key [] = none
  lookup key ((other, value) ∷ entries) = if other == key then some value else lookup key entries

  unfoldable pub insert : String → V → Dict V → Dict V
  insert key value [] = (key, value) ∷ []
  insert key value ((other, old) ∷ entries) =
      if other == key then (other, value) ∷ entries else (other, old) ∷ insert key value entries

  unfoldable pub delete : String → Dict V → Dict V
  delete key [] = []
  delete key ((other, old) ∷ entries) =
      if other == key then delete key entries else (other, old) ∷ delete key entries

  pub lookup-insert :
      (key other : String) (value : V) (entries : Dict V)
      → lookup other (insert key value entries)
        ≡ (if key == other then some value else lookup other entries)
  unfolding lookup insert
  lookup-insert key other value [] = refl
  lookup-insert key other value ((i, old) ∷ entries) =
      ground (
        arith,
        eq_iff key other,
        eq_iff i key,
        eq_iff i other,
        lookup-insert key other value entries,
      )

  pub lookup-insert_self :
      (key : String) (value : V) (entries : Dict V)
      → lookup key (insert key value entries) ≡ some value
  lookup-insert_self key value entries = simp (lookup-insert, eq_refl)

  pub lookup-delete :
      (key other : String) (entries : Dict V)
      → lookup other (delete key entries) ≡ (if key == other then none else lookup other entries)
  unfolding lookup delete
  lookup-delete key other [] = ground arith
  lookup-delete key other ((i, old) ∷ entries) =
      ground
        (arith, eq_iff key other, eq_iff i key, eq_iff i other, lookup-delete key other entries)

  pub lookup-delete_self :
      (key : String) (entries : Dict V) → lookup key (delete key entries) ≡ none
  lookup-delete_self key entries = simp (lookup-delete, eq_refl)

  -- Every key stands once. All dictionaries that are built by `insert` and `delete` are so.
  abbrev pub IsMap : Dict V → Type ℓ
  IsMap [] = Unit
  IsMap ((key, value) ∷ entries) = (lookup key entries ≡ none) × IsMap entries

  pub insert-IsMap :
      (key : String) (value : V) (entries : Dict V)
      → IsMap entries
      → IsMap (insert key value entries)
  unfolding lookup insert
  insert-IsMap key value [] h = (refl, tt)
  insert-IsMap key value ((other, old) ∷ entries) h = ground (
    arith,
    insert-IsMap key value entries h.1,
    lookup-insert key other value entries,
    eq_iff key other,
    eq_iff other key,
  )

  pub delete-IsMap : (key : String) (entries : Dict V) → IsMap entries → IsMap (delete key entries)
  unfolding lookup delete
  delete-IsMap key [] h = tt
  delete-IsMap key ((other, old) ∷ entries) h =
      ground
        (arith, delete-IsMap key entries h.1, lookup-delete key other entries, eq_iff key other)

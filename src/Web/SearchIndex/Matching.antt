-- ===== src/Web/SearchIndex/Matching.antt =====
-- Members of the sets of a dictionary, found by a property of their keys, and back.
use text.Mathlib.Text.{starts_with}
use vortex_reloaded.Base.{
  some_injective, &&-eq-true, ||-true, String, ◌≡◌, refl, sym, ◌∙◌, inl, inr, Bool, true, ◌&&◌,
  ◌||◌, List, [], ◌∷◌, some, arith, if◌then◌else◌, str_eq, eq_iff, eq_refl, Bool-cases, any,
}
use vortex_reloaded.Base.Dict.{Dict, lookup, IsMap}
use vortex_reloaded.Base.Sets.{has, add_all, has-add_all}
use vortex_reloaded.Web.SearchIndex.{set_of, prefix_postings}

pub has-prefix_postings :
    (token id : String) (sets : Dict (List String)) (ids : List String)
    → has id (prefix_postings token sets ids)
      ≡ (has id ids || any (λ e. starts_with e.0 token && has id e.1) sets)
unfolding prefix_postings
has-prefix_postings token id [] ids = ground arith
has-prefix_postings token id ((other, more) ∷ sets) ids =
    has-prefix_postings token id sets (if starts_with other token then add_all ids more else ids)
    ∙ elim (Bool-cases (starts_with other token)) [
      | inl e ↦ rw (e, has-add_all id ids more) (ground arith)
      | inr e ↦ rw e refl
    ]

-- An entry of a set of a key with a property, found through the key.
pub any-set_of :
    (p : String → Bool) (id : String) (sets : Dict (List String))
    → IsMap sets
    → any (λ e. p e.0 && has id e.1) sets ≡ true
    → (key : String) × (p key ≡ true) × (has id (set_of key sets) ≡ true)
unfolding lookup has
any-set_of p id [] m h = cc
any-set_of p id ((key, ids) ∷ sets) m h = elim (Bool-cases (p key && has id ids)) [
  | inl e ↦ let both = &&-eq-true (p key) (has id ids) e in (key, both.0, rw (eq_refl key) both.1)
  | inr e ↦
      let (other, q, there) = any-set_of p id sets m.1 (rw e at h) in
      (
        other,
        q,
        elim (Bool-cases (str_eq key other)) [
          | inr f ↦ rw f there
          | inl f ↦ cc (rw (sym ((eq_iff key other).0 f), m.0) at there)
        ],
      )
]

pub any_of_set_of :
    (p : String → Bool) (id key : String) (sets : Dict (List String))
    → p key ≡ true
    → has id (set_of key sets) ≡ true
    → any (λ e. p e.0 && has id e.1) sets ≡ true
unfolding lookup
any_of_set_of p id key [] q h = unfold has in cc h
any_of_set_of p id key ((other, ids) ∷ sets) q h = elim (Bool-cases (str_eq other key)) [
  | inl e ↦ rw ((eq_iff other key).0 e, q, rw e at h) refl
  | inr e ↦ rw (any_of_set_of p id key sets q (rw e at h)) (||-true (p other && has id ids))
]

pub any_of_has :
    (p : String → Bool) (w : String) (ws : List String)
    → has w ws ≡ true
    → p w ≡ true
    → any p ws ≡ true
unfolding has
any_of_has p w [] h q = cc
any_of_has p w (x ∷ xs) h q = elim (Bool-cases (str_eq x w)) [
  | inl e ↦ rw ((eq_iff x w).0 e, q) refl
  | inr e ↦ rw (any_of_has p w xs (rw e at h) q) (||-true (p x))
]

pub has_of_any :
    (p : String → Bool) (ws : List String)
    → any p ws ≡ true
    → (w : String) × (has w ws ≡ true) × (p w ≡ true)
unfolding has
has_of_any p [] h = cc
has_of_any p (x ∷ xs) h = elim (Bool-cases (p x)) [
  | inl e ↦ (x, rw (eq_refl x) refl, e)
  | inr e ↦
      let (w, there, q) = has_of_any p xs (rw e at h) in (w, rw there (||-true (str_eq x w)), q)
]

module _ {V : Type 0} (q : V → Bool) where
  pub lookup_of_any :
      (m : Dict V)
      → IsMap m
      → any (λ e. q e.1) m ≡ true
      → (key : String) × (v : V) × (lookup key m ≡ some v) × (q v ≡ true)
  unfolding lookup
  lookup_of_any [] d h = cc
  lookup_of_any ((key, v) ∷ m) d h = elim (Bool-cases (q v)) [
    | inl e ↦ (key, v, rw (eq_refl key) refl, e)
    | inr e ↦
        let (other, w, there, f) = lookup_of_any m d.1 (rw e at h) in
        (
          other,
          w,
          elim (Bool-cases (str_eq key other)) [
            | inl same ↦ cc (rw (sym ((eq_iff key other).0 same), d.0) at there)
            | inr differs ↦ rw differs there
          ],
          f,
        )
  ]

  pub any_of_lookup :
      (key : String) (v : V) (m : Dict V)
      → lookup key m ≡ some v
      → q v ≡ true
      → any (λ e. q e.1) m ≡ true
  unfolding lookup
  any_of_lookup key v [] h f = cc
  any_of_lookup key v ((other, w) ∷ m) h f = elim (Bool-cases (str_eq other key)) [
    | inl e ↦ rw (some_injective (rw e at h), f) refl
    | inr e ↦ rw (any_of_lookup key v m (rw e at h) f) (||-true (q w))
  ]

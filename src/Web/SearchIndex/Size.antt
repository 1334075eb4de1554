-- ===== src/Web/SearchIndex/Size.antt =====
-- How many documents the maps hold, and that the oldest one is one of them.
use vortex_reloaded.Base.{
  ◌+◌, ◌≤◌, ◌<◌, String, ◌≡◌, ◌≢◌, ◌⊎◌, refl, sym, ap, inl, inr, true, ◌||◌, List, [], ◌∷◌, none,
  arith, if-holds, str_eq, eq_iff, eq_refl, Bool-cases, Option-cases, length, length-append, map,
}
use vortex_reloaded.Base.Dict.{Dict, lookup, insert, delete}
use vortex_reloaded.Base.Sets.{has, add, remove}
use vortex_reloaded.Web.SearchIndex.{text_lt, oldest_of, set_of, leave_channel}
use vortex_reloaded.Web.SearchIndex.Postings.{set_of-insert}

pub length-remove-le : (id : String) (ids : List String) → length (remove id ids) ≤ length ids
unfolding remove
length-remove-le id [] = omega arith
length-remove-le id (x ∷ xs) = ground (arith, length-remove-le id xs)

pub length-remove-lt :
    (id : String) (ids : List String) → has id ids ≡ true → length (remove id ids) < length ids
unfolding remove has
length-remove-lt id [] h = cc
length-remove-lt id (x ∷ xs) h = ground (arith, length-remove-le id xs, length-remove-lt id xs)

pub length-add-le : (id : String) (ids : List String) → length (add id ids) ≤ length ids + 1
unfolding add
length-add-le id ids = ground (arith, length-append ids (id ∷ []))

module _ {ℓ} {V : Type ℓ} where
  pub length-delete-le : (key : String) (m : Dict V) → length (delete key m) ≤ length m
  unfolding delete
  length-delete-le key [] = omega arith
  length-delete-le key ((k, v) ∷ m) = ground (arith, length-delete-le key m)

  pub length-delete-lt :
      (key : String) (m : Dict V) → lookup key m ≢ none → length (delete key m) < length m
  unfolding delete lookup
  length-delete-lt key [] h = absurd (h refl)
  length-delete-lt key ((k, v) ∷ m) h = elim (Bool-cases (str_eq k key)) [
    | inl e ↦ rw e (let le = length-delete-le key m in omega arith)
    | inr e ↦ rw e (let lt = length-delete-lt key m (rw e at h) in omega arith)
  ]

  pub length-insert-le :
      (key : String) (v : V) (m : Dict V) → length (insert key v m) ≤ length m + 1
  unfolding insert
  length-insert-le key v [] = omega arith
  length-insert-le key v ((k, w) ∷ m) = ground (arith, length-insert-le key v m)

  pub lookup-ne-none :
      (key : String) (m : Dict V) → has key (map (λ e. e.0) m) ≡ true → lookup key m ≢ none
  unfolding lookup has
  lookup-ne-none key [] h e = cc h
  lookup-ne-none key ((k, v) ∷ m) h e = elim (Bool-cases (str_eq k key)) [
    | inl f ↦ cc (rw f at e)
    | inr f ↦ lookup-ne-none key m (rw f at h) (rw f at e)
  ]

pub length-leave_channel-le :
    (id channel other : String) (sets : Dict (List String))
    → length (set_of other (leave_channel id channel sets)) ≤ length (set_of other sets)
unfolding leave_channel
length-leave_channel-le id channel other sets = elim (Option-cases (lookup channel sets)) [
  | inl e ↦ rw (e, leave_channel) (omega arith)
  | inr (ids, e) ↦
      rw (e, leave_channel, set_of-insert channel other (remove id ids) sets)
        (elim (Bool-cases (str_eq channel other)) [
          | inl same ↦
              let own : set_of other sets ≡ ids =
                rw (sym ((eq_iff channel other).0 same), e) refl in
              rw (same, own) (length-remove-le id ids)
          | inr differs ↦ rw differs (omega arith)
        ])
]

pub length-leave_channel-lt :
    (id channel : String) (sets : Dict (List String))
    → has id (set_of channel sets) ≡ true
    → length (set_of channel (leave_channel id channel sets)) < length (set_of channel sets)
unfolding leave_channel
length-leave_channel-lt id channel sets h = elim (Option-cases (lookup channel sets)) [
  | inl e ↦ unfold has in cc (rw e at h)
  | inr (ids, e) ↦
      let own : set_of channel sets ≡ ids = rw e refl in
      rw (e, leave_channel, set_of-insert channel channel (remove id ids) sets, eq_refl channel)
        (length-remove-lt id ids (rw own at h))
]

abbrev pub keys : List (String × String) → List String
keys es = map (λ e. e.0) es

-- A running oldest id that is not empty stays, or is replaced by one of the list.
oldest_of-from :
    (es : List (String × String)) (oldest : String) (at : String)
    → (has (oldest_of es (oldest, at)).0 (keys es) ≡ true)
      ⊎ ((oldest_of es (oldest, at)).0 ≡ oldest)
unfolding oldest_of has
oldest_of-from [] oldest at = inr refl
oldest_of-from ((id, t) ∷ es) oldest at =
    if-holds
      (λ (start : String × String).
        (has (oldest_of es start).0 (id ∷ keys es) ≡ true) ⊎ ((oldest_of es start).0 ≡ oldest))
      (str_eq oldest "" || text_lt t at)
      (λ e. elim (oldest_of-from es id t) [
        | inl h ↦ inl (rw h (ground arith))
        | inr q ↦ inl (rw (q, eq_refl id) refl)
      ])
      (λ e. elim (oldest_of-from es oldest at) [
        | inl h ↦ inl (rw h (ground arith))
        | inr q ↦ inr q
      ])

-- The oldest of some documents is one of them.
pub has-oldest_of :
    (es : List (String × String)) → es ≢ [] → has (oldest_of es ("", "")).0 (keys es) ≡ true
unfolding oldest_of has
has-oldest_of [] h = absurd (h refl)
has-oldest_of ((id, t) ∷ es) h = elim (oldest_of-from es id t) [
  | inl g ↦ rw g (ground arith)
  | inr q ↦ rw (q, eq_refl id) refl
]

pub keys-docs :
    {V : Type 0} (at : V → String) (m : Dict V)
    → keys (map (λ e. (e.0, at e.1)) m) ≡ map (λ e. e.0) m
keys-docs at [] = refl
keys-docs at (e ∷ m) = ap (λ l. e.0 ∷ l) (keys-docs at m)

pub keys-ids : (at : String → String) (ids : List String) → keys (map (λ id. (id, at id)) ids) ≡ ids
keys-ids at [] = refl
keys-ids at (id ∷ ids) = ap (λ l. id ∷ l) (keys-ids at ids)

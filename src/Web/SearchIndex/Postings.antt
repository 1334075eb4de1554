-- ===== src/Web/SearchIndex/Postings.antt =====
-- The sets of documents under the tokens and the channels, seen through their members.
use vortex_reloaded.Base.{
  String, ◌≡◌, ◌≢◌, refl, sym, inl, inr, not, ◌&&◌, ◌||◌, List, [], ◌∷◌, Option, none, some, arith,
  if◌then◌else◌, str_eq, eq_iff, Bool-cases, Option-cases, some_injective,
}
use vortex_reloaded.Base.Dict.{
  Dict, lookup, insert, delete, lookup-insert, lookup-delete, IsMap, insert-IsMap, delete-IsMap,
}
use vortex_reloaded.Base.Sets.{has, add, remove, has-add, has-remove}
use vortex_reloaded.Web.SearchIndex.{
  set_of, keep_posting, remove_posting, remove_postings, add_posting, add_postings, leave_channel,
}

pub set_of-insert :
    (key other : String) (ids : List String) (sets : Dict (List String))
    → set_of other (insert key ids sets) ≡ (if str_eq key other then ids else set_of other sets)
set_of-insert key other ids sets =
    rw (lookup-insert key other ids sets)
      (elim (Bool-cases (str_eq key other)) [ inl e ↦ rw e refl | inr e ↦ rw e refl ])

pub set_of-delete :
    (key other : String) (sets : Dict (List String))
    → set_of other (delete key sets) ≡ (if str_eq key other then [] else set_of other sets)
set_of-delete key other sets =
    rw (lookup-delete key other sets)
      (elim (Bool-cases (str_eq key other)) [ inl e ↦ rw e refl | inr e ↦ rw e refl ])

-- A set without a document, under its key.
without-posting :
    (id token other j : String) (ids left : List String) (sets : Dict (List String))
    → lookup token sets ≡ some ids
    → remove id ids ≡ left
    → has j (if str_eq token other then left else set_of other sets)
      ≡ (not (str_eq token other && str_eq id j) && has j (set_of other sets))
without-posting id token other j ids left sets e f = elim (Bool-cases (str_eq token other)) [
  | inl same ↦ rw (same, sym f, has-remove id j ids, sym ((eq_iff token other).0 same), e) refl
  | inr differs ↦ rw differs refl
]

set_of-keep_posting :
    (token other : String) (ids : List String) (sets : Dict (List String))
    → set_of other (keep_posting token ids sets)
      ≡ (if str_eq token other then ids else set_of other sets)
unfolding keep_posting
set_of-keep_posting token other [] sets = set_of-delete token other sets
set_of-keep_posting token other (id ∷ ids) sets = set_of-insert token other (id ∷ ids) sets

pub has-remove_posting :
    (id token other j : String) (sets : Dict (List String))
    → has j (set_of other (remove_posting id token sets))
      ≡ (not (str_eq token other && str_eq id j) && has j (set_of other sets))
unfolding remove_posting
has-remove_posting id token other j sets = elim (Option-cases (lookup token sets)) [
  | inl e ↦ elim (Bool-cases (str_eq token other)) [
    | inl same ↦
        unfold has in
        rw (e, same, remove_posting)
          (let missing : set_of other sets ≡ [] = rw (sym ((eq_iff token other).0 same), e) refl in
            rw missing (ground arith))
    | inr differs ↦ rw (e, differs, remove_posting) refl
  ]
  | inr (ids, e) ↦
      rw (e, remove_posting, set_of-keep_posting token other (remove id ids) sets)
        (without-posting id token other j ids (remove id ids) sets e refl)
]

pub has-add_posting :
    (id token other j : String) (sets : Dict (List String))
    → has j (set_of other (add_posting id token sets))
      ≡ ((str_eq token other && str_eq id j) || has j (set_of other sets))
unfolding add_posting
has-add_posting id token other j sets =
    rw (set_of-insert token other (add id (set_of token sets)) sets)
      (elim (Bool-cases (str_eq token other)) [
        | inl same ↦ rw (same, has-add id j (set_of token sets), (eq_iff token other).0 same) refl
        | inr differs ↦ rw differs refl
      ])

pub has-remove_postings :
    (id other j : String) (tokens : List String) (sets : Dict (List String))
    → has j (set_of other (remove_postings id tokens sets))
      ≡ (not (has other tokens && str_eq id j) && has j (set_of other sets))
unfolding remove_postings has
has-remove_postings id other j [] sets = refl
has-remove_postings id other j (token ∷ tokens) sets =
    rw
      (
        has-remove_postings id other j tokens (remove_posting id token sets),
        has-remove_posting id token other j sets,
      )
      (ground arith)

pub has-add_postings :
    (id other j : String) (tokens : List String) (sets : Dict (List String))
    → has j (set_of other (add_postings id tokens sets))
      ≡ ((has other tokens && str_eq id j) || has j (set_of other sets))
unfolding add_postings has
has-add_postings id other j [] sets = refl
has-add_postings id other j (token ∷ tokens) sets =
    rw
      (
        has-add_postings id other j tokens (add_posting id token sets),
        has-add_posting id token other j sets,
      )
      (ground arith)

pub has-leave_channel :
    (id channel other j : String) (sets : Dict (List String))
    → has j (set_of other (leave_channel id channel sets))
      ≡ (not (str_eq channel other && str_eq id j) && has j (set_of other sets))
unfolding leave_channel
has-leave_channel id channel other j sets = elim (Option-cases (lookup channel sets)) [
  | inl e ↦ elim (Bool-cases (str_eq channel other)) [
    | inl same ↦
        unfold has in
        rw (e, same, leave_channel)
          (let missing : set_of other sets ≡ [] =
              rw (sym ((eq_iff channel other).0 same), e) refl in
            rw missing (ground arith))
    | inr differs ↦ rw (e, differs, leave_channel) refl
  ]
  | inr (ids, e) ↦
      rw (e, leave_channel, set_of-insert channel other (remove id ids) sets)
        (without-posting id channel other j ids (remove id ids) sets e refl)
]

-- A token that is there has a document.
abbrev pub IsFilled : Dict (List String) → Type 0
IsFilled sets = (token : String) → lookup token sets ≢ some []

keep_posting-IsFilled :
    (token : String) (ids : List String) (sets : Dict (List String))
    → IsFilled sets
    → IsFilled (keep_posting token ids sets)
unfolding keep_posting
keep_posting-IsFilled token [] sets h other e = elim (Bool-cases (str_eq token other)) [
  | inl same ↦ cc (rw (lookup-delete token other sets, same) at e)
  | inr differs ↦ h other (rw (lookup-delete token other sets, differs) at e)
]
keep_posting-IsFilled token (id ∷ ids) sets h other e = elim (Bool-cases (str_eq token other)) [
  | inl same ↦ cc (rw (lookup-insert token other (id ∷ ids) sets, same) at e)
  | inr differs ↦ h other (rw (lookup-insert token other (id ∷ ids) sets, differs) at e)
]

remove_posting-IsFilled :
    (id token : String) (sets : Dict (List String))
    → IsFilled sets
    → IsFilled (remove_posting id token sets)
unfolding remove_posting
remove_posting-IsFilled id token sets h = filled (lookup token sets)
  where
    filled :
        (found : Option (List String))
        → IsFilled (elim found [ none ↦ sets | some ids ↦ keep_posting token (remove id ids) sets ])
    filled none = h
    filled (some ids) = keep_posting-IsFilled token (remove id ids) sets h

pub remove_postings-IsFilled :
    (id : String) (tokens : List String) (sets : Dict (List String))
    → IsFilled sets
    → IsFilled (remove_postings id tokens sets)
unfolding remove_postings
remove_postings-IsFilled id [] sets h = h
remove_postings-IsFilled id (token ∷ tokens) sets h =
    remove_postings-IsFilled id tokens _ (remove_posting-IsFilled id token sets h)

add-ne-nil : (id : String) (ids : List String) → add id ids ≢ []
unfolding add has
add-ne-nil id [] e = cc e
add-ne-nil id (x ∷ xs) e = elim (Bool-cases (str_eq x id || has id xs)) [
  | inl f ↦ cc (rw f at e)
  | inr f ↦ cc (rw f at e)
]

add_posting-IsFilled :
    (id token : String) (sets : Dict (List String))
    → IsFilled sets
    → IsFilled (add_posting id token sets)
unfolding add_posting
add_posting-IsFilled id token sets h other e = elim (Bool-cases (str_eq token other)) [
  | inl same ↦
      add-ne-nil id (set_of token sets) (
        some_injective
          (rw (lookup-insert token other (add id (set_of token sets)) sets, same) at e))
  | inr differs ↦
      h other (rw (lookup-insert token other (add id (set_of token sets)) sets, differs) at e)
]

pub add_postings-IsFilled :
    (id : String) (tokens : List String) (sets : Dict (List String))
    → IsFilled sets
    → IsFilled (add_postings id tokens sets)
unfolding add_postings
add_postings-IsFilled id [] sets h = h
add_postings-IsFilled id (token ∷ tokens) sets h =
    add_postings-IsFilled id tokens _ (add_posting-IsFilled id token sets h)

-- Every token stands once.
keep_posting-IsMap :
    (token : String) (ids : List String) (sets : Dict (List String))
    → IsMap sets
    → IsMap (keep_posting token ids sets)
unfolding keep_posting
keep_posting-IsMap token [] sets h = delete-IsMap token sets h
keep_posting-IsMap token (id ∷ ids) sets h = insert-IsMap token (id ∷ ids) sets h

pub remove_postings-IsMap :
    (id : String) (tokens : List String) (sets : Dict (List String))
    → IsMap sets
    → IsMap (remove_postings id tokens sets)
unfolding remove_postings remove_posting
remove_postings-IsMap id [] sets h = h
remove_postings-IsMap id (token ∷ tokens) sets h =
    remove_postings-IsMap id tokens (remove_posting id token sets)
      (elim (Option-cases (lookup token sets)) [
        | inl e ↦ rw (e, remove_posting) h
        | inr (ids, e) ↦ rw (e, remove_posting) (keep_posting-IsMap token (remove id ids) sets h)
      ])

pub add_postings-IsMap :
    (id : String) (tokens : List String) (sets : Dict (List String))
    → IsMap sets
    → IsMap (add_postings id tokens sets)
unfolding add_postings add_posting
add_postings-IsMap id [] sets h = h
add_postings-IsMap id (token ∷ tokens) sets h =
    add_postings-IsMap id tokens _ (insert-IsMap token (add id (set_of token sets)) sets h)

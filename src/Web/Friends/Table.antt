-- ===== src/Web/Friends/Table.antt =====
-- What holds of the table of friendships: distinct ids, no row from a user to himself, and at most one
-- row for two users, whatever its direction. (The database itself only checks each direction.)
use vortex_reloaded.Base.{
  String, ◌≡◌, refl, Bool, true, false, ◌||◌, List, [], ◌∷◌, none, some, arith, filter, any, str_eq,
  eq_iff, eq_refl, All, ◌⊎◌, inl, inr, Bool-cases, subst, ◌∙◌, sym,
}
use mathlib.Core.Path.{ap₂}
use mathlib.Core.Bool.{false≢true}
use vortex_reloaded.Web.Friends.{
  Friendship, Rows, joins, by_id, between, fits, insert_row, replace, update_row, delete_row,
}

abbrev pub has_id : String → Rows → Bool
has_id id = any (λ r. str_eq r.id id)

abbrev pub IsTable : Rows → Type 0
IsTable [] = Unit
IsTable (r ∷ rows) =
    (str_eq r.requester_id r.addressee_id ≡ false)
    × (any (joins r.requester_id r.addressee_id) rows ≡ false)
    × (has_id r.id rows ≡ false)
    × IsTable rows

-- The same two users, in either direction.
abbrev pub SamePair : Friendship → Friendship → Type 0
SamePair r q =
    ((q.requester_id ≡ r.requester_id) × (q.addressee_id ≡ r.addressee_id))
    ⊎ ((q.requester_id ≡ r.addressee_id) × (q.addressee_id ≡ r.requester_id))

any-filter-false {ℓ} :
    {A : Type ℓ} (p q : A → Bool) (xs : List A) → any p xs ≡ false → any p (filter q xs) ≡ false
any-filter-false p q [] h = refl
any-filter-false p q (x ∷ xs) h = ground (arith, any-filter-false p q xs)

filter-IsTable : (p : Friendship → Bool) (rows : Rows) → IsTable rows → IsTable (filter p rows)
filter-IsTable p [] h = tt
filter-IsTable p (r ∷ rows) (self, pair, id, h) = elim (Bool-cases (p r)) [
  | inl e ↦ rw e (
    self,
    any-filter-false (joins r.requester_id r.addressee_id) p rows pair,
    any-filter-false (λ q. str_eq q.id r.id) p rows id,
    filter-IsTable p rows h,
  )
  | inr e ↦ rw e (filter-IsTable p rows h)
]

pub delete_row-IsTable : (id : String) (rows : Rows) → IsTable rows → IsTable (delete_row id rows)
unfolding delete_row
delete_row-IsTable id rows h = filter-IsTable _ rows h

between-none : (a b : String) (rows : Rows) → between a b rows ≡ none → any (joins a b) rows ≡ false
unfolding between
between-none a b [] h = refl
between-none a b (r ∷ rows) h = ground (arith, between-none a b rows)

pub insert_row-IsTable :
    (r : Friendship) (rows rows' : Rows)
    → between r.requester_id r.addressee_id rows ≡ none
    → has_id r.id rows ≡ false
    → IsTable rows
    → insert_row r rows ≡ some rows'
    → IsTable rows'
unfolding insert_row
insert_row-IsTable r rows rows' none_there new h e = elim (Bool-cases (fits r rows)) [
  | inl ok ↦
      let self : str_eq r.requester_id r.addressee_id ≡ false = unfold fits in ground arith in
      let same : (r ∷ rows) ≡ rows' = ground arith in
      subst IsTable same (self, between-none r.requester_id r.addressee_id rows none_there, new, h)
  | inr bad ↦ cc (rw (bad, insert_row) at e)
]

-- Every row with the new row's id is between the same users.
abbrev Fits : Friendship → Rows → Type 0
Fits new rows = All (λ r. str_eq r.id new.id ≡ true → SamePair r new) rows

pub joins_comm : (a b : String) (r : Friendship) → joins a b r ≡ joins b a r
joins_comm a b r = ground arith

joins-SamePair : (a b : String) (r new : Friendship) → SamePair r new → joins a b new ≡ joins a b r
joins-SamePair a b r new (inl (p, q)) = rw (p, q)
joins-SamePair a b r new (inr (p, q)) = rw (p, q) (ground arith)

any-replace :
    (a b : String) (new : Friendship) (rows : Rows)
    → Fits new rows
    → any (joins a b) (replace new rows) ≡ any (joins a b) rows
unfolding replace
any-replace a b new [] h = refl
any-replace a b new (r ∷ rows) h = elim (Bool-cases (str_eq r.id new.id)) [
  | inl e ↦ rw (e, joins-SamePair a b r new (h.0 e), any-replace a b new rows h.1)
  | inr e ↦ rw (e, any-replace a b new rows h.1)
]

has_id-replace :
    (id : String) (new : Friendship) (rows : Rows) → has_id id (replace new rows) ≡ has_id id rows
unfolding replace
has_id-replace id new [] = refl
has_id-replace id new (r ∷ rows) = elim (Bool-cases (str_eq r.id new.id)) [
  | inl e ↦ rw (e, (eq_iff r.id new.id).0 e, has_id-replace id new rows)
  | inr e ↦ rw (e, has_id-replace id new rows)
]

self-SamePair :
    (r new : Friendship)
    → SamePair r new
    → str_eq r.requester_id r.addressee_id ≡ false
    → str_eq new.requester_id new.addressee_id ≡ false
self-SamePair r new (inl (p, q)) h = rw (p, q) h
self-SamePair r new (inr (p, q)) h =
    rw (p, q)
      (ground (arith, eq_iff r.requester_id r.addressee_id, eq_iff r.addressee_id r.requester_id))

-- The pair of a row can be read in either direction.
any-SamePair :
    (r new : Friendship) (rows : Rows)
    → SamePair r new
    → any (joins new.requester_id new.addressee_id) rows
      ≡ any (joins r.requester_id r.addressee_id) rows
any-SamePair r new rows (inl (a, b)) = rw (a, b)
any-SamePair r new rows (inr (a, b)) = rw (a, b) (swapped rows)
  where
    swapped :
        (qs : Rows)
        → any (joins r.addressee_id r.requester_id) qs
          ≡ any (joins r.requester_id r.addressee_id) qs
    swapped [] = refl
    swapped (q ∷ qs) = ap₂ ◌||◌ (joins_comm r.addressee_id r.requester_id q) (swapped qs)

pub replace-IsTable :
    (new : Friendship) (rows : Rows) → Fits new rows → IsTable rows → IsTable (replace new rows)
unfolding replace
replace-IsTable new [] f h = tt
replace-IsTable new (r ∷ rows) f (self, pair, id, h) = elim (Bool-cases (str_eq r.id new.id)) [
  | inl e ↦ rw e (
    self-SamePair r new (f.0 e) self,
    any-replace new.requester_id new.addressee_id new rows f.1
        ∙ any-SamePair r new rows (f.0 e)
        ∙ pair,
    has_id-replace new.id new rows
        ∙ subst (λ x. has_id x rows ≡ false) ((eq_iff r.id new.id).0 e) id,
    replace-IsTable new rows f.1 h,
  )
  | inr e ↦ rw e (
    self,
    any-replace r.requester_id r.addressee_id new rows f.1 ∙ pair,
    has_id-replace r.id new rows ∙ id,
    replace-IsTable new rows f.1 h,
  )
]

none-Fits : (new : Friendship) (rows : Rows) → has_id new.id rows ≡ false → Fits new rows
none-Fits new [] h = tt
none-Fits new (r ∷ rows) h = (λ e. cc (rw e at h), none-Fits new rows (ground arith))

-- The row that a request has read by its id is the only one that its update can replace.
by_id-Fits :
    (old new : Friendship) (rows : Rows)
    → by_id new.id rows ≡ some old
    → SamePair old new
    → IsTable rows
    → Fits new rows
unfolding by_id
by_id-Fits old new [] h p t = tt
by_id-Fits old new (r ∷ rows) h p (self, pair, id, t) = elim (Bool-cases (str_eq r.id new.id)) [
  | inl e ↦
      let same : r ≡ old = ground arith in
      (
        λ e'. subst (λ x. SamePair x new) (sym same) p,
        none-Fits new rows (subst (λ x. has_id x rows ≡ false) ((eq_iff r.id new.id).0 e) id),
      )
  | inr e ↦ (λ e'. cc, by_id-Fits old new rows (rw (e, by_id) at h) p t)
]

pub update_row-IsTable :
    (old new : Friendship) (rows rows' : Rows)
    → by_id new.id rows ≡ some old
    → SamePair old new
    → IsTable rows
    → update_row new rows ≡ some rows'
    → IsTable rows'
unfolding update_row
update_row-IsTable old new rows rows' h p t e =
    let same : replace new rows ≡ rows' = ground arith in
    subst IsTable same (replace-IsTable new rows (by_id-Fits old new rows h p t) t)

found-has_id :
    (a b : String) (r : Friendship) (rows : Rows)
    → between a b rows ≡ some r
    → has_id r.id rows ≡ true
unfolding between
found-has_id a b r [] h = cc
found-has_id a b r (q ∷ rows) h = elim (Bool-cases (joins a b q)) [
  | inl e ↦
      let same : q ≡ r = ground arith in
      subst (λ x. (str_eq q.id x.id || has_id x.id rows) ≡ true) same (rw (eq_refl q.id))
  | inr e ↦ ground (arith, found-has_id a b r rows (rw (e, between) at h))
]

-- A row that was found by its users is the one that its id finds.
pub between-by_id :
    (a b : String) (r : Friendship) (rows : Rows)
    → between a b rows ≡ some r
    → IsTable rows
    → by_id r.id rows ≡ some r
unfolding between by_id
between-by_id a b r [] h t = cc
between-by_id a b r (q ∷ rows) h (self, pair, id, t) = elim (Bool-cases (joins a b q)) [
  | inl e ↦
      let same : q ≡ r = ground arith in
      subst (λ x. by_id x.id (q ∷ rows) ≡ some x) same (rw (eq_refl q.id, by_id))
  | inr e ↦
      let later = rw (e, between) at h in
      elim (Bool-cases (str_eq q.id r.id)) [
        | inl same ↦ absurd (
            false≢true (
              sym (subst (λ x. has_id x rows ≡ false) ((eq_iff q.id r.id).0 same) id)
              ∙ found-has_id a b r rows later))
        | inr other ↦ rw (other, by_id) (between-by_id a b r rows later t)
      ]
]

pub by_id-id : (id : String) (r : Friendship) (rows : Rows) → by_id id rows ≡ some r → r.id ≡ id
unfolding by_id
by_id-id id r [] h = cc
by_id-id id r (q ∷ rows) h = ground (arith, by_id-id id r rows, eq_iff q.id id)

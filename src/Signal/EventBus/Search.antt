-- ===== src/Signal/EventBus/Search.antt =====
-- The batches of `findStreamEntryId`: together they search the newest entries, each once.
use vortex_reloaded.Base.{
  ℕ, zero, suc, ◌+◌, ◌-◌, ◌≤◌, ◌<◌, String, ◌≡◌, ◌≢◌, refl, sym, ap, ◌∙◌, subst, Bool, true, false,
  List, [], ◌∷◌, ◌++◌, Option, none, some, arith, ltb, filter, take, drop, All, Bool-cases,
  Option-cases, inl, inr, All-append_left, All-append_right, take-append-drop, take-add, take-nil,
  filter-filter_of_imp,
}
use vortex_reloaded.Signal.EventBus.{
  StreamId, StreamEntry, StreamRedis, id_lt, is_within, find_in, last_id, before,
  find_stream_entry_id,
}

-- Ids fall from the newest entry on.
abbrev pub IsDescending : List StreamEntry → Type 0
IsDescending [] = Unit
IsDescending (e ∷ es) = All (λ f. id_lt f.id e.id ≡ true) es × IsDescending es

-- A millisecond has at most 100000 entries, and none is the time 0.
abbrev pub IsOrdinary : StreamEntry → Type 0
IsOrdinary e = (0 < e.id.ms) × (e.id.seq ≤ 99999)

find_in-append :
    (id : String) (xs ys : List StreamEntry)
    → find_in id (xs ++ ys) ≡ elim (find_in id xs) [ none ↦ find_in id ys | some s ↦ some s ]
unfolding find_in
find_in-append id [] ys = refl
find_in-append id (x ∷ xs) ys = ground (arith, find_in-append id xs ys)

-- The cursor lies just below the last entry of a batch.
before_lem :
    (e : StreamId) (f : StreamEntry) (i : StreamId)
    → IsOrdinary f
    → before e ≡ some i
    → is_within (some i) f ≡ id_lt f.id e
unfolding before
before_lem e f i h k = ground arith

before-some : (i : StreamId) → 0 < i.ms → (j : StreamId) × (before i ≡ some j)
unfolding before
before-some i h = elim (Bool-cases (ltb 0 i.seq)) [
  | inl e ↦ (record i { seq = i.seq - 1 }, rw e)
  | inr e ↦ (record { ms = i.ms - 1; seq = 99999 }, ground arith)
]

is_within_lt :
    (e i : StreamId) (xs : List StreamEntry)
    → before e ≡ some i
    → All IsOrdinary xs
    → All (λ f. id_lt f.id e ≡ true) xs
    → filter (is_within (some i)) xs ≡ xs
is_within_lt e i [] b o h = refl
is_within_lt e i (x ∷ xs) b o h =
    rw (before_lem e x i o.0 b, h.0) (ap (λ l. x ∷ l) (is_within_lt e i xs b o.1 h.1))

last_id-lt :
    (d f : StreamEntry) (es : List StreamEntry)
    → All (λ x. id_lt x.id d.id ≡ true) (f ∷ es)
    → id_lt (last_id f es) d.id ≡ true
last_id-lt d f [] h = h.0
last_id-lt d f (e ∷ es) h = last_id-lt d e es h.1

pub id_lt_asymm : (a b : StreamId) → id_lt a b ≡ true → id_lt b a ≡ false
id_lt_asymm a b h = ground arith

pub id_lt_irrefl : (a : StreamId) → id_lt a a ≡ false
id_lt_irrefl a = ground arith

-- Below a batch lies the rest.
within_rest :
    (d : StreamEntry) (ds rest : List StreamEntry) (i : StreamId)
    → before (last_id d ds) ≡ some i
    → All IsOrdinary (d ∷ (ds ++ rest))
    → IsDescending (d ∷ (ds ++ rest))
    → filter (is_within (some i)) (d ∷ (ds ++ rest)) ≡ rest
within_rest d [] rest i b o h =
    rw (before_lem d.id d i o.0 b, id_lt_irrefl d.id) (is_within_lt d.id i rest b o.1 h.0)
within_rest d (f ∷ ds) rest i b o h =
    rw
      (
        before_lem (last_id f ds) d i o.0 b,
        id_lt_asymm (last_id f ds) d.id
            (last_id-lt d f ds (h.0.0, All-append_left _ ds rest h.0.1)),
      )
      (within_rest f ds rest i b o.1 h.1)

within_mono :
    (end : Option StreamId) (l i : StreamId) (e x : StreamEntry)
    → e.id ≡ l
    → is_within end e ≡ true
    → before l ≡ some i
    → is_within (some i) x ≡ true
    → is_within end x ≡ true
unfolding before
within_mono none l i e x s h b k = refl
within_mono (some end) l i e x s h b k = ground arith

within_last :
    (end : Option StreamId) (i : StreamId) (e : StreamEntry) (es : List StreamEntry)
    (x : StreamEntry)
    → All (λ f. is_within end f ≡ true) (e ∷ es)
    → before (last_id e es) ≡ some i
    → is_within (some i) x ≡ true
    → is_within end x ≡ true
within_last end i e [] x h b k = within_mono end e.id i e x refl h.0 b k
within_last end i e (f ∷ es) x h b k = within_last end i f es x h.1 b k

last_id-ms :
    (e : StreamEntry) (es : List StreamEntry) → All IsOrdinary (e ∷ es) → 0 < (last_id e es).ms
last_id-ms e [] h = h.0.0
last_id-ms e (f ∷ es) h = last_id-ms f es h.1

filter-All {ℓ} : {A : Type ℓ} (p : A → Bool) (xs : List A) → All (λ x. p x ≡ true) (filter p xs)
filter-All p [] = tt
filter-All p (x ∷ xs) = elim (Bool-cases (p x)) [
  | inl e ↦ rw e (e, filter-All p xs)
  | inr e ↦ rw e (filter-All p xs)
]

pub IsDescending-append_right :
    (xs ys : List StreamEntry) → IsDescending (xs ++ ys) → IsDescending ys
IsDescending-append_right [] ys h = h
IsDescending-append_right (x ∷ xs) ys h = IsDescending-append_right xs ys h.1

-- How many entries that many batches reach.
abbrev pub reach : (attempts batch : ℕ) → ℕ
reach zero batch = 0
reach (suc n) batch = batch + reach n batch

nothing_left : (n : ℕ) (xs : List StreamEntry) → 0 < n → take n xs ≡ [] → drop n xs ≡ []
nothing_left zero xs p h = absurd (omega arith)
nothing_left (suc n) [] p h = refl
nothing_left (suc n) (x ∷ xs) p h = cc

module _ (c : StreamRedis) (key id : String) (r : c.State) (batch : ℕ) where
  -- The calls return, and what they return is what they read.
  batch-newest :
      ((end : Option StreamId) → c.xrevrange key end batch r ≢ none)
      → (end : Option StreamId)
      → c.xrevrange key end batch r ≡ some (take batch (filter (is_within end) (c.newest key r)))
  batch-newest h end = elim (Option-cases (c.xrevrange key end batch r)) [
    | inl e ↦ absurd (h end e)
    | inr (es, e) ↦ e ∙ ap some (c.xrevrange_reads key end batch r es e)
  ]

  -- The batches that the next attempts read, below a cursor.
  abbrev Searches : ℕ → Type 0
  Searches n =
      (end : Option StreamId) (rest : List StreamEntry)
      → filter (is_within end) (c.newest key r) ≡ rest
      → All IsOrdinary rest
      → IsDescending rest
      → find_stream_entry_id c n batch key id end r ≡ some (find_in id (take (reach n batch) rest))

  next_batch :
      (end : Option StreamId) (e : StreamEntry) (es rest : List StreamEntry) (i : StreamId)
      → filter (is_within end) (c.newest key r) ≡ e ∷ (es ++ rest)
      → All IsOrdinary (e ∷ (es ++ rest))
      → IsDescending (e ∷ (es ++ rest))
      → before (last_id e es) ≡ some i
      → filter (is_within (some i)) (c.newest key r) ≡ rest
  next_batch end e es rest i f o d b =
      let within : All (λ x. is_within end x ≡ true) (e ∷ (es ++ rest)) =
        subst (All (λ x. is_within end x ≡ true)) f (filter-All (is_within end) (c.newest key r)) in
      sym (
        filter-filter_of_imp (is_within end) (is_within (some i)) (c.newest key r)
          (λ x k. within_last end i e es x (within.0, All-append_left _ es rest within.1) b k))
      ∙ ap (filter (is_within (some i))) f
      ∙ within_rest e es rest i b o d

  batch_found :
      (n : ℕ) (end : Option StreamId) (es rest : List StreamEntry)
      → Searches n
      → c.xrevrange key end batch r ≡ some es
      → filter (is_within end) (c.newest key r) ≡ es ++ rest
      → All IsOrdinary (es ++ rest)
      → IsDescending (es ++ rest)
      → (es ≡ [] → rest ≡ [])
      → find_stream_entry_id c (suc n) batch key id end r
        ≡ some (elim (find_in id es) [
          | none ↦ find_in id (take (reach n batch) rest)
          | some s ↦ some s
        ])
  unfolding find_stream_entry_id find_in
  batch_found n end [] rest ih x f o d k = rw (x, k refl, take-nil, find_stream_entry_id)
  batch_found n end (e ∷ es) rest ih x f o d k = elim (Option-cases (find_in id (e ∷ es))) [
    | inr (s, found) ↦ rw (x, found, find_stream_entry_id)
    | inl missed ↦
        let (i, b) =
          before-some (last_id e es) (last_id-ms e es (All-append_left _ (e ∷ es) rest o)) in
        rw (x, missed, b, find_stream_entry_id)
          (ih (some i) rest (next_batch end e es rest i f o d b)
            (All-append_right _ (e ∷ es) rest o) (IsDescending-append_right (e ∷ es) rest d))
  ]

  -- Any number of attempts search exactly the newest entries that their batches reach.
  pub find_stream_entry_id-find_in :
      (n : ℕ)
      → ((end : Option StreamId) → c.xrevrange key end batch r ≢ none)
      → 0 < batch
      → Searches n
  unfolding find_stream_entry_id find_in
  find_stream_entry_id-find_in zero h p end rest e o d = refl
  find_stream_entry_id-find_in (suc n) h p end rest e o d =
      let split = take-append-drop batch rest in
      batch_found n end (take batch rest) (drop batch rest) (find_stream_entry_id-find_in n h p)
        (batch-newest h end ∙ ap (λ l. some (take batch l)) e) (e ∙ sym split)
        (subst (All IsOrdinary) (sym split) o) (subst IsDescending (sym split) d)
        (λ z. nothing_left batch rest p z)
      ∙ ap some (
          sym (find_in-append id (take batch rest) (take (reach n batch) (drop batch rest)))
          ∙ ap (find_in id) (sym (take-add batch (reach n batch) rest)))

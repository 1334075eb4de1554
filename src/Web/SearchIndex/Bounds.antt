-- ===== src/Web/SearchIndex/Bounds.antt =====
-- The index never holds more documents than its two caps allow.
use native.Mathlib.Nat.{le_trans, lt_of_le_of_lt}
use vortex_reloaded.Base.{
  ℕ, suc, ◌≤◌, ◌<◌, String, ◌≡◌, ◌≢◌, refl, sym, ◌∙◌, ap, subst, inl, inr, true, List, [], ◌∷◌,
  none, arith, str_eq, eq_iff, Bool-cases, Option-cases, length, map, leb, All,
}
use vortex_reloaded.Base.Dict.{lookup, delete, lookup-insert}
use vortex_reloaded.Base.Sets.{has, add}
use vortex_reloaded.Web.SearchIndex.{
  IndexedDocument, TextTools, Index, empty, set_of, oldest_in, oldest_globally, created,
  remove_document, evict, enforce_channel_cap, enforce_global_cap, store_document, add_document,
  remove_all, clear_channel, max_docs_per_channel, max_docs_global,
}
use vortex_reloaded.Web.SearchIndex.Postings.{set_of-insert, set_of-delete}
use vortex_reloaded.Web.SearchIndex.Coherent.{
  IsCoherent, empty-IsCoherent, remove_document-IsCoherent,
}
use vortex_reloaded.Web.SearchIndex.Size.{
  length-add-le, length-delete-le, length-delete-lt, length-insert-le, lookup-ne-none,
  length-leave_channel-le, length-leave_channel-lt, keys-docs, keys-ids, has-oldest_of,
}
use vortex_reloaded.Web.SearchIndex.Steps.{
  add_document-IsCoherent, clear_channel-IsCoherent, Op, adds, removes, clears, clears_all, step,
  run, lookup-remove_document, made_room, made_room-keeps, enforce_channel_cap-keeps,
  enforce_global_cap-keeps,
}

map-ne-nil : {A B : Type 0} (f : A → B) (xs : List A) → xs ≢ [] → map f xs ≢ []
map-ne-nil f [] h e = h refl
map-ne-nil f (x ∷ xs) h e = cc e

long : {A : Type 0} (n : ℕ) (xs : List A) → leb (suc n) (length xs) ≡ true → xs ≢ []
long n [] h e = ground arith
long n (x ∷ xs) h e = cc e

module _ (t : TextTools) where
  remove_document-docs-le :
      (id : String) (s : Index) → length (remove_document t id s).docs ≤ length s.docs
  unfolding remove_document
  remove_document-docs-le id s = elim (Option-cases (lookup id s.docs)) [
    | inl e ↦ rw (e, remove_document) (omega arith)
    | inr (d, e) ↦ rw (e, remove_document) (length-delete-le id s.docs)
  ]

  remove_document-docs-lt :
      (id : String) (s : Index)
      → lookup id s.docs ≢ none
      → length (remove_document t id s).docs < length s.docs
  unfolding remove_document
  remove_document-docs-lt id s h = elim (Option-cases (lookup id s.docs)) [
    | inl e ↦ absurd (h e)
    | inr (d, e) ↦ rw (e, remove_document) (length-delete-lt id s.docs h)
  ]

  remove_document-channel-le :
      (id channel : String) (s : Index)
      → length (set_of channel (remove_document t id s).channel_docs)
        ≤ length (set_of channel s.channel_docs)
  unfolding remove_document
  remove_document-channel-le id channel s = elim (Option-cases (lookup id s.docs)) [
    | inl e ↦ rw (e, remove_document) (omega arith)
    | inr (d, e) ↦
        rw (e, remove_document) (length-leave_channel-le id d.channel_id channel s.channel_docs)
  ]

  remove_document-channel-lt :
      (id channel : String) (s : Index)
      → IsCoherent t s
      → has id (set_of channel s.channel_docs) ≡ true
      → length (set_of channel (remove_document t id s).channel_docs)
        < length (set_of channel s.channel_docs)
  unfolding remove_document
  remove_document-channel-lt id channel s h m = elim (Option-cases (lookup id s.docs)) [
    | inl e ↦ cc (rw e at (sym (h.placed channel id) ∙ m))
    | inr (d, e) ↦
        let own : d.channel_id ≡ channel =
          (eq_iff d.channel_id channel).0 (rw e at (sym (h.placed channel id) ∙ m)) in
        rw (e, remove_document, own) (length-leave_channel-lt id channel s.channel_docs m)
  ]

  -- Every stored document has an id.
  abbrev HasIds : Index → Type 0
  HasIds s = lookup "" s.docs ≡ none

  oldest_globally-stored : (s : Index) → s.docs ≢ [] → lookup (oldest_globally s) s.docs ≢ none
  unfolding oldest_globally
  oldest_globally-stored s h = lookup-ne-none (oldest_globally s) s.docs (
      subst (λ l. has (oldest_globally s) l ≡ true) (keys-docs (λ d. d.created_at) s.docs)
        (has-oldest_of (map (λ e. (e.0, e.1.created_at)) s.docs) (map-ne-nil _ s.docs h)))

  oldest_in-placed :
      (channel : String) (s : Index)
      → set_of channel s.channel_docs ≢ []
      → has (oldest_in channel s) (set_of channel s.channel_docs) ≡ true
  unfolding oldest_in
  oldest_in-placed channel s h =
      subst (λ l. has (oldest_in channel s) l ≡ true)
        (keys-ids (λ id. created (lookup id s.docs)) (set_of channel s.channel_docs))
        (has-oldest_of
          (map (λ id. (id, created (lookup id s.docs))) (set_of channel s.channel_docs))
          (map-ne-nil _ (set_of channel s.channel_docs) h))

  evicts : (id : String) (s : Index) → id ≢ "" → evict t id s ≡ remove_document t id s
  unfolding evict
  evicts id s h = elim (Bool-cases (str_eq id "")) [
    | inl e ↦ absurd (h ((eq_iff id "").0 e))
    | inr e ↦ rw e refl
  ]

  enforce_global_cap-lt :
      (s : Index)
      → HasIds s
      → length s.docs ≤ max_docs_global
      → length (enforce_global_cap t s).docs < max_docs_global
  unfolding enforce_global_cap
  enforce_global_cap-lt s h l = elim (Bool-cases (leb max_docs_global (length s.docs))) [
    | inr e ↦ rw e (ground arith)
    | inl e ↦
        let some_docs : s.docs ≢ [] = λ q. long 9999 s.docs e q in
        let stored = oldest_globally-stored s some_docs in
        let named : oldest_globally s ≢ "" = λ q. stored (rw q h) in
        let less = remove_document-docs-lt (oldest_globally s) s stored in
        rw (e, evicts (oldest_globally s) s named) (omega arith)
  ]

  enforce_channel_cap-lt :
      (channel : String) (s : Index)
      → HasIds s
      → IsCoherent t s
      → length (set_of channel s.channel_docs) ≤ max_docs_per_channel
      → length (set_of channel (enforce_channel_cap t channel s).channel_docs)
        < max_docs_per_channel
  unfolding enforce_channel_cap
  enforce_channel_cap-lt channel s h c l =
      elim (Bool-cases (leb max_docs_per_channel (length (set_of channel s.channel_docs)))) [
        | inr e ↦ rw e (ground arith)
        | inl e ↦
            let there =
              oldest_in-placed channel s (λ q. long 1999 (set_of channel s.channel_docs) e q) in
            let named : oldest_in channel s ≢ "" = λ q.
              cc (c.placed channel (oldest_in channel s), there, ap (λ k. lookup k s.docs) q, h) in
            let less = remove_document-channel-lt (oldest_in channel s) channel s c there in
            rw (e, evicts (oldest_in channel s) s named) (omega arith)
      ]

  abbrev pub IsBounded : Index → Type 0
  IsBounded s =
      (length s.docs ≤ max_docs_global)
      × ((channel : String) → length (set_of channel s.channel_docs) ≤ max_docs_per_channel)

  -- What an addition makes room in.
  abbrev IsKept : Index → Type 0
  IsKept s = IsCoherent t s × HasIds s × IsBounded s

  remove_document-IsKept : (id : String) (s : Index) → IsKept s → IsKept (remove_document t id s)
  remove_document-IsKept id s (c, h, (l, k)) = (
    remove_document-IsCoherent t id s c,
    rw (lookup-remove_document t id "" s)
        (elim (Bool-cases (str_eq id "")) [ inl e ↦ rw e refl | inr e ↦ rw e h ]),
    (
      le_trans (remove_document-docs-le id s) l,
      λ channel. le_trans (remove_document-channel-le id channel s) (k channel),
    ),
  )

  made_room-IsKept : (d : IndexedDocument) (s : Index) → IsKept s → IsKept (made_room t d s)
  made_room-IsKept d s h =
      made_room-keeps t IsKept d s remove_document-IsKept (remove_document-IsKept d.id s h)

  made_room-lt :
      (d : IndexedDocument) (s : Index)
      → IsKept s
      → (length (made_room t d s).docs < max_docs_global)
        × (length (set_of d.channel_id (made_room t d s).channel_docs) < max_docs_per_channel)
  made_room-lt d s h =
      let k = remove_document-IsKept d.id s h in
      let first = enforce_channel_cap t d.channel_id (remove_document t d.id s) in
      let k' =
        enforce_channel_cap-keeps t IsKept d.channel_id (remove_document t d.id s)
          (λ id. remove_document-IsKept id (remove_document t d.id s) k) k in
      let less =
        enforce_channel_cap-lt d.channel_id (remove_document t d.id s) k.1 k.0
          (k.2.1 d.channel_id) in
      (
        enforce_global_cap-lt first k'.1 k'.2.0,
        enforce_global_cap-keeps t
            (λ u. length (set_of d.channel_id u.channel_docs) < max_docs_per_channel) first
            (λ id. lt_of_le_of_lt (remove_document-channel-le id d.channel_id first) less) less,
      )

  store_document-IsKept :
      (d : IndexedDocument) (u : Index)
      → d.id ≢ ""
      → IsKept u
      → (length u.docs < max_docs_global)
        × (length (set_of d.channel_id u.channel_docs) < max_docs_per_channel)
      → HasIds (store_document t d u) × IsBounded (store_document t d u)
  unfolding store_document
  store_document-IsKept d u named k (few, fewer) = (
    rw (lookup-insert d.id "" d u.docs) (elim (Bool-cases (str_eq d.id "")) [
      | inl e ↦ absurd (named ((eq_iff d.id "").0 e))
      | inr e ↦ rw e k.1
    ]),
    (
      omega (arith, length-insert-le d.id d u.docs),
      λ channel.
          rw
            (set_of-insert d.channel_id channel (add d.id (set_of d.channel_id u.channel_docs))
              u.channel_docs)
            (elim (Bool-cases (str_eq d.channel_id channel)) [
              | inl e ↦
                  rw e (omega (arith, length-add-le d.id (set_of d.channel_id u.channel_docs)))
              | inr e ↦ rw e (k.2.1 channel)
            ]),
    ),
  )

  add_document-IsKept :
      (d : IndexedDocument) (s : Index) → d.id ≢ "" → IsKept s → IsKept (add_document t d s)
  unfolding add_document
  add_document-IsKept d s named h =
      let stored =
        store_document-IsKept d (made_room t d s) named (made_room-IsKept d s h)
          (made_room-lt d s h) in
      (add_document-IsCoherent t d s h.0, stored.0, stored.1)

  remove_all-IsKept : (ids : List String) (s : Index) → IsKept s → IsKept (remove_all t ids s)
  unfolding remove_all
  remove_all-IsKept [] s h = h
  remove_all-IsKept (id ∷ ids) s h = remove_all-IsKept ids _ (remove_document-IsKept id s h)

  -- A channel that is closed.
  closed :
      (channel : String) (s : Index)
      → IsBounded s
      → IsBounded (record s { channel_docs = delete channel s.channel_docs })
  closed channel s (l, k) = (
    l,
    λ other.
        rw (set_of-delete channel other s.channel_docs) (elim (Bool-cases (str_eq channel other)) [
          | inl e ↦ rw e (omega arith)
          | inr e ↦ rw e (k other)
        ]),
  )

  clear_channel-IsKept :
      (channel : String) (s : Index) → IsKept s → IsKept (clear_channel t channel s)
  unfolding clear_channel
  clear_channel-IsKept channel s h = elim (Option-cases (lookup channel s.channel_docs)) [
    | inl e ↦ rw (e, clear_channel) h
    | inr (ids, e) ↦
        let k = remove_all-IsKept ids s h in
        (
          clear_channel-IsCoherent t channel s h.0,
          rw (e, clear_channel) k.1,
          rw (e, clear_channel) (closed channel (remove_all t ids s) k.2),
        )
  ]

  abbrev pub HasId : Op → Type 0
  HasId (adds d) = d.id ≢ ""
  HasId (removes id) = Unit
  HasId (clears channel) = Unit
  HasId clears_all = Unit

  empty-IsKept : IsKept empty
  unfolding lookup
  empty-IsKept = (empty-IsCoherent t, refl, (omega arith, λ channel. omega arith))

  step-IsKept : (op : Op) (s : Index) → HasId op → IsKept s → IsKept (step t op s)
  unfolding step
  step-IsKept (adds d) s named h = add_document-IsKept d s named h
  step-IsKept (removes id) s named h = remove_document-IsKept id s h
  step-IsKept (clears channel) s named h = clear_channel-IsKept channel s h
  step-IsKept clears_all s named h = empty-IsKept

  run-IsKept : (ops : List Op) (s : Index) → All HasId ops → IsKept s → IsKept (run t ops s)
  unfolding run
  run-IsKept [] s named h = h
  run-IsKept (op ∷ ops) s named h = run-IsKept ops _ named.1 (step-IsKept op s named.0 h)

  -- After any sequence of operations from the empty index, it holds at most ten thousand documents and at
  -- most two thousand of each channel, if no document with an empty id is added.
  pub run-IsBounded : (ops : List Op) → All HasId ops → IsBounded (run t ops empty)
  run-IsBounded ops named = (run-IsKept ops empty named empty-IsKept).2

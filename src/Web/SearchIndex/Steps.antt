-- ===== src/Web/SearchIndex/Steps.antt =====
-- All operations of the index, in any sequence, keep its maps coherent.
use vortex_reloaded.Base.{
  String, ◌≡◌, refl, sym, ◌∙◌, inl, inr, false, List, [], ◌∷◌, none, some, arith, if◌then◌else◌,
  if-holds, str_eq, eq_iff, eq_refl, Bool-cases, Option-cases, leb, length,
}
use vortex_reloaded.Base.Dict.{lookup, delete, lookup-delete}
use vortex_reloaded.Base.Sets.{has}
use vortex_reloaded.Web.SearchIndex.{
  IndexedDocument, TextTools, Index, empty, set_of, remove_document, evict, oldest_in,
  oldest_globally, enforce_channel_cap, enforce_global_cap, add_document, remove_all, clear_channel,
  max_docs_per_channel, max_docs_global,
}
use vortex_reloaded.Web.SearchIndex.Postings.{set_of-delete}
use vortex_reloaded.Web.SearchIndex.Coherent.{
  IsCoherent, lies_in, empty-IsCoherent, remove_document-IsCoherent, store_document-IsCoherent,
}

pub data Op : Type 0 where
  adds : IndexedDocument → Op
  removes clears : String → Op
  clears_all : Op

module _ (t : TextTools) where
  unfoldable pub step : Op → Index → Index
  step (adds d) s = add_document t d s
  step (removes id) s = remove_document t id s
  step (clears channel) s = clear_channel t channel s
  step clears_all s = empty

  unfoldable pub run : List Op → Index → Index
  run [] s = s
  run (op ∷ ops) s = run ops (step op s)

  pub lookup-remove_document :
      (id j : String) (s : Index)
      → lookup j (remove_document t id s).docs ≡ (if str_eq id j then none else lookup j s.docs)
  unfolding remove_document
  lookup-remove_document id j s = elim (Option-cases (lookup id s.docs)) [
    | inl e ↦ elim (Bool-cases (str_eq id j)) [
      | inl same ↦ rw (e, same, remove_document) (rw (sym ((eq_iff id j).0 same)) e)
      | inr differs ↦ rw (e, differs, remove_document) refl
    ]
    | inr (d, e) ↦ rw (e, remove_document) (lookup-delete id j s.docs)
  ]

  lookup-remove_document-none :
      (id j : String) (s : Index)
      → lookup j s.docs ≡ none
      → lookup j (remove_document t id s).docs ≡ none
  lookup-remove_document-none id j s e =
      rw (lookup-remove_document id j s)
        (elim (Bool-cases (str_eq id j)) [ inl f ↦ rw f refl | inr f ↦ rw f e ])

  evict-keeps {ℓ} :
      (P : Index → Type ℓ) (oldest : String) (s : Index)
      → ((id : String) → P (remove_document t id s))
      → P s
      → P (evict t oldest s)
  unfolding evict
  evict-keeps P oldest s h k = if-holds P (str_eq oldest "") (λ e. k) (λ e. h oldest)

  -- A cap evicts a document or leaves the index as it is.
  pub enforce_channel_cap-keeps {ℓ} :
      (P : Index → Type ℓ) (channel : String) (s : Index)
      → ((id : String) → P (remove_document t id s))
      → P s
      → P (enforce_channel_cap t channel s)
  unfolding enforce_channel_cap
  enforce_channel_cap-keeps P channel s h k =
      if-holds P (leb max_docs_per_channel (length (set_of channel s.channel_docs)))
        (λ e. evict-keeps P (oldest_in channel s) s h k) (λ e. k)

  pub enforce_global_cap-keeps {ℓ} :
      (P : Index → Type ℓ) (s : Index)
      → ((id : String) → P (remove_document t id s))
      → P s
      → P (enforce_global_cap t s)
  unfolding enforce_global_cap
  enforce_global_cap-keeps P s h k =
      if-holds P (leb max_docs_global (length s.docs))
        (λ e. evict-keeps P (oldest_globally s) s h k) (λ e. k)

  -- The caps as `add_document` applies them.
  abbrev pub made_room : (d : IndexedDocument) → Index → Index
  made_room d s =
      enforce_global_cap t (enforce_channel_cap t d.channel_id (remove_document t d.id s))

  pub made_room-keeps {ℓ} :
      (P : Index → Type ℓ) (d : IndexedDocument) (s : Index)
      → ((id : String) (u : Index) → P u → P (remove_document t id u))
      → P (remove_document t d.id s)
      → P (made_room d s)
  made_room-keeps P d s h k =
      let first =
        enforce_channel_cap-keeps P d.channel_id (remove_document t d.id s)
          (λ id. h id (remove_document t d.id s) k) k in
      enforce_global_cap-keeps P (enforce_channel_cap t d.channel_id (remove_document t d.id s))
        (λ id. h id (enforce_channel_cap t d.channel_id (remove_document t d.id s)) first) first

  pub lookup-made_room : (d : IndexedDocument) (s : Index) → lookup d.id (made_room d s).docs ≡ none
  lookup-made_room d s =
      made_room-keeps (λ u. lookup d.id u.docs ≡ none) d s
        (λ id u e. lookup-remove_document-none id d.id u e)
        (rw (lookup-remove_document d.id d.id s, eq_refl d.id) refl)

  pub add_document-IsCoherent :
      (d : IndexedDocument) (s : Index) → IsCoherent t s → IsCoherent t (add_document t d s)
  unfolding add_document
  add_document-IsCoherent d s h =
      store_document-IsCoherent t d (made_room d s) (lookup-made_room d s) (
        made_room-keeps (IsCoherent t) d s (λ id u k. remove_document-IsCoherent t id u k)
          (remove_document-IsCoherent t d.id s h))

  remove_all-IsCoherent :
      (ids : List String) (s : Index) → IsCoherent t s → IsCoherent t (remove_all t ids s)
  unfolding remove_all
  remove_all-IsCoherent [] s h = h
  remove_all-IsCoherent (id ∷ ids) s h =
      remove_all-IsCoherent ids _ (remove_document-IsCoherent t id s h)

  lookup-remove_all :
      (ids : List String) (j : String) (s : Index)
      → lookup j (remove_all t ids s).docs ≡ (if has j ids then none else lookup j s.docs)
  unfolding remove_all has
  lookup-remove_all [] j s = refl
  lookup-remove_all (id ∷ ids) j s =
      rw (lookup-remove_all ids j (remove_document t id s), lookup-remove_document id j s)
        (ground arith)

  -- No document of a channel is left once all of its set are removed.
  cleared :
      (channel j : String) (ids : List String) (s : Index)
      → lookup channel s.channel_docs ≡ some ids
      → IsCoherent t s
      → lies_in channel (lookup j (remove_all t ids s).docs) ≡ false
  cleared channel j ids s e h =
      let placed : has j ids ≡ lies_in channel (lookup j s.docs) = rw e at (h.placed channel j) in
      rw (lookup-remove_all ids j s)
        (elim (Bool-cases (has j ids)) [ inl f ↦ rw f refl | inr f ↦ rw f (sym placed ∙ f) ])

  pub clear_channel-IsCoherent :
      (channel : String) (s : Index) → IsCoherent t s → IsCoherent t (clear_channel t channel s)
  unfolding clear_channel
  clear_channel-IsCoherent channel s h = elim (Option-cases (lookup channel s.channel_docs)) [
    | inl e ↦ rw (e, clear_channel) h
    | inr (ids, e) ↦
        rw (e, clear_channel)
          (let k = remove_all-IsCoherent ids s h in
            record {
              indexed = k.indexed;
              placed = λ other j. set_of-placed other j ids e k;
              named = k.named;
              distinct = k.distinct;
              filled = k.filled;
              separate = k.separate;
            })
  ]
    where
      set_of-placed :
          (other j : String) (ids : List String)
          → lookup channel s.channel_docs ≡ some ids
          → IsCoherent t (remove_all t ids s)
          → has j (set_of other (delete channel (remove_all t ids s).channel_docs))
            ≡ lies_in other (lookup j (remove_all t ids s).docs)
      set_of-placed other j ids e k =
          rw (set_of-delete channel other (remove_all t ids s).channel_docs)
            (elim (Bool-cases (str_eq channel other)) [
              | inl same ↦
                  unfold has in
                  rw (same, sym ((eq_iff channel other).0 same)) (sym (cleared channel j ids s e h))
              | inr differs ↦ rw differs (k.placed other j)
            ])

  pub step-IsCoherent : (op : Op) (s : Index) → IsCoherent t s → IsCoherent t (step op s)
  unfolding step
  step-IsCoherent (adds d) s h = add_document-IsCoherent d s h
  step-IsCoherent (removes id) s h = remove_document-IsCoherent t id s h
  step-IsCoherent (clears channel) s h = clear_channel-IsCoherent channel s h
  step-IsCoherent clears_all s h = empty-IsCoherent t

  run-IsCoherent_from : (ops : List Op) (s : Index) → IsCoherent t s → IsCoherent t (run ops s)
  unfolding run
  run-IsCoherent_from [] s h = h
  run-IsCoherent_from (op ∷ ops) s h = run-IsCoherent_from ops (step op s) (step-IsCoherent op s h)

  -- After any sequence of additions, removals and clearings, from the empty index: under each token stand
  -- exactly the stored documents whose text has it, under each channel exactly its stored documents, every
  -- document is stored once, under its own id, and no token is kept twice or without a document.
  pub run-IsCoherent : (ops : List Op) → IsCoherent t (run ops empty)
  run-IsCoherent ops = run-IsCoherent_from ops empty (empty-IsCoherent t)

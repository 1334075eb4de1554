-- ===== src/Web/SearchIndex/Coherent.antt =====
-- The three maps of the index agree: a set of a token has the documents whose text has it, and a set of a
-- channel has the documents of the channel.
use vortex_reloaded.Base.{
  String, ◌≡◌, refl, sym, ◌∙◌, ap, inl, inr, Bool, false, not, ◌&&◌, ◌||◌, Option, none, some,
  arith, str_eq, eq_iff, Bool-cases, Option-cases, some_injective,
}
use vortex_reloaded.Base.Dict.{
  Dict, lookup, insert, delete, lookup-insert, lookup-delete, IsMap, insert-IsMap, delete-IsMap,
}
use vortex_reloaded.Base.Sets.{has, add, has-add}
use vortex_reloaded.Web.SearchIndex.{
  IndexedDocument, TextTools, Index, empty, set_of, tokenise, remove_postings, leave_channel,
  remove_document, store_document,
}
use vortex_reloaded.Web.SearchIndex.Postings.{
  set_of-insert, has-remove_postings, has-add_postings, has-leave_channel, IsFilled,
  remove_postings-IsFilled, remove_postings-IsMap, add_postings-IsMap, add_postings-IsFilled,
}

abbrev pub lies_in : (channel : String) → Option IndexedDocument → Bool
lies_in channel none = false
lies_in channel (some d) = str_eq d.channel_id channel

-- What a test says once a document is gone, and once it is there.
gone :
    (test : Option IndexedDocument → Bool) (id j : String) (d : IndexedDocument)
    (docs : Dict IndexedDocument)
    → test none ≡ false
    → lookup id docs ≡ some d
    → (not (test (some d) && str_eq id j) && test (lookup j docs))
      ≡ test (lookup j (delete id docs))
gone test id j d docs missing e = rw (lookup-delete id j docs) (elim (Bool-cases (str_eq id j)) [
  | inl same ↦
      let there : lookup j docs ≡ some d = rw (sym ((eq_iff id j).0 same)) e in
      rw (same, there, missing) (ground arith)
  | inr differs ↦ rw differs (ground arith)
])

come :
    (test : Option IndexedDocument → Bool) (id j : String) (d : IndexedDocument)
    (docs : Dict IndexedDocument)
    → test none ≡ false
    → lookup id docs ≡ none
    → ((test (some d) && str_eq id j) || test (lookup j docs)) ≡ test (lookup j (insert id d docs))
come test id j d docs missing e = rw (lookup-insert id j d docs) (elim (Bool-cases (str_eq id j)) [
  | inl same ↦
      let absent : lookup j docs ≡ none = rw (sym ((eq_iff id j).0 same)) e in
      rw (same, absent, missing) (ground arith)
  | inr differs ↦ rw differs (ground arith)
])

joined :
    (d : IndexedDocument) (channel j : String) (s : Index)
    → has j (
        set_of channel
          (insert d.channel_id (add d.id (set_of d.channel_id s.channel_docs)) s.channel_docs))
      ≡ ((str_eq d.channel_id channel && str_eq d.id j) || has j (set_of channel s.channel_docs))
joined d channel j s =
    rw
      (set_of-insert d.channel_id channel (add d.id (set_of d.channel_id s.channel_docs))
        s.channel_docs)
      (elim (Bool-cases (str_eq d.channel_id channel)) [
        | inl same ↦
            rw
              (
                same,
                has-add d.id j (set_of d.channel_id s.channel_docs),
                (eq_iff d.channel_id channel).0 same,
              )
              refl
        | inr differs ↦ rw differs refl
      ])

module _ (t : TextTools) where
  abbrev pub mentions : (token : String) → Option IndexedDocument → Bool
  mentions token none = false
  mentions token (some d) = has token (tokenise t d.text)

  pub record IsCoherent (s : Index) : Type 0 where
    pub indexed :
        (token id : String) → has id (set_of token s.inverted) ≡ mentions token (lookup id s.docs)
    pub placed :
        (channel id : String)
        → has id (set_of channel s.channel_docs) ≡ lies_in channel (lookup id s.docs)
    pub named : (id : String) (d : IndexedDocument) → lookup id s.docs ≡ some d → d.id ≡ id
    pub distinct : IsMap s.docs
    pub filled : IsFilled s.inverted
    pub separate : IsMap s.inverted

  pub empty-IsCoherent : IsCoherent empty
  unfolding lookup has
  empty-IsCoherent = record {
    indexed = λ token id. refl;
    placed = λ channel id. refl;
    named = λ id d e. cc e;
    distinct = tt;
    filled = λ token e. cc e;
    separate = tt;
  }

  remove_document-IsCoherent_found :
      (id : String) (d : IndexedDocument) (s : Index)
      → lookup id s.docs ≡ some d
      → IsCoherent s
      → IsCoherent (record {
        inverted = remove_postings id (tokenise t d.text) s.inverted;
        docs = delete id s.docs;
        channel_docs = leave_channel id d.channel_id s.channel_docs;
      })
  remove_document-IsCoherent_found id d s e h = record {
    indexed = λ token j.
        has-remove_postings id token j (tokenise t d.text) s.inverted
        ∙ ap (λ b. not (has token (tokenise t d.text) && str_eq id j) && b) (h.indexed token j)
        ∙ gone (mentions token) id j d s.docs refl e;
    placed = λ channel j.
        has-leave_channel id d.channel_id channel j s.channel_docs
        ∙ ap (λ b. not (str_eq d.channel_id channel && str_eq id j) && b) (h.placed channel j)
        ∙ gone (lies_in channel) id j d s.docs refl e;
    named = λ j f g. elim (Bool-cases (str_eq id j)) [
      | inl same ↦ cc (rw (lookup-delete id j s.docs, same) at g)
      | inr differs ↦ h.named j f (rw (lookup-delete id j s.docs, differs) at g)
    ];
    distinct = delete-IsMap id s.docs h.distinct;
    filled = remove_postings-IsFilled id (tokenise t d.text) s.inverted h.filled;
    separate = remove_postings-IsMap id (tokenise t d.text) s.inverted h.separate;
  }

  pub remove_document-IsCoherent :
      (id : String) (s : Index) → IsCoherent s → IsCoherent (remove_document t id s)
  unfolding remove_document
  remove_document-IsCoherent id s h = elim (Option-cases (lookup id s.docs)) [
    | inl e ↦ rw (e, remove_document) h
    | inr (d, e) ↦ rw (e, remove_document) (remove_document-IsCoherent_found id d s e h)
  ]

  pub store_document-IsCoherent :
      (d : IndexedDocument) (s : Index)
      → lookup d.id s.docs ≡ none
      → IsCoherent s
      → IsCoherent (store_document t d s)
  unfolding store_document
  store_document-IsCoherent d s e h = record {
    indexed = λ token j.
        has-add_postings d.id token j (tokenise t d.text) s.inverted
        ∙ ap (λ b. (has token (tokenise t d.text) && str_eq d.id j) || b) (h.indexed token j)
        ∙ come (mentions token) d.id j d s.docs refl e;
    placed = λ channel j.
        joined d channel j s
        ∙ ap (λ b. (str_eq d.channel_id channel && str_eq d.id j) || b) (h.placed channel j)
        ∙ come (lies_in channel) d.id j d s.docs refl e;
    named = λ j f g. elim (Bool-cases (str_eq d.id j)) [
      | inl same ↦
          cc
            (some_injective (rw (lookup-insert d.id j d s.docs, same) at g), (eq_iff d.id j).0 same)
      | inr differs ↦ h.named j f (rw (lookup-insert d.id j d s.docs, differs) at g)
    ];
    distinct = insert-IsMap d.id d s.docs h.distinct;
    filled = add_postings-IsFilled d.id (tokenise t d.text) s.inverted h.filled;
    separate = add_postings-IsMap d.id (tokenise t d.text) s.inverted h.separate;
  }

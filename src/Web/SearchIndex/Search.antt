-- ===== src/Web/SearchIndex/Search.antt =====
-- What a search finds, told from the stored documents alone.
use text.Mathlib.Text.{starts_with}
use vortex_reloaded.Base.{
  Bool-ext, String, ◌≡◌, refl, sym, ◌∙◌, inl, inr, Bool, true, false, ◌&&◌, List, [], ◌∷◌, Option,
  none, some, arith, if◌then◌else◌, if-holds, str_eq, eq_refl, Bool-cases, Option-cases, any, all,
  is_some,
}
use vortex_reloaded.Base.Dict.{Dict, lookup}
use vortex_reloaded.Base.Sets.{has, has-filter}
use vortex_reloaded.Web.SearchIndex.{
  agrees, IndexedDocument, TextTools, Index, set_of, tokenise, postings_for, intersect, narrow,
  candidates, ids_of,
}
use vortex_reloaded.Web.SearchIndex.Coherent.{IsCoherent, mentions}
use vortex_reloaded.Web.SearchIndex.Matching.{
  has-prefix_postings, any-set_of, any_of_set_of, any_of_has, has_of_any, lookup_of_any,
  any_of_lookup,
}

module _ (t : TextTools) (s : Index) where
  -- Some stored document has the token.
  abbrev pub is_known : (token : String) → Bool
  is_known token = any (λ e. has token (tokenise t e.1.text)) s.docs

  -- A token that a stored document has is looked for itself, any other as the start of a word.
  abbrev pub fits : (token : String) → IndexedDocument → Bool
  fits token d =
      if is_known token
      then has token (tokenise t d.text)
      else any (λ w. starts_with w token) (tokenise t d.text)

  abbrev fits_any : (token : String) → Option IndexedDocument → Bool
  fits_any token none = false
  fits_any token (some d) = fits token d

  module _ (h : IsCoherent t s) where
    lookup-known :
        (token : String) → is_known token ≡ true → is_some (lookup token s.inverted) ≡ true
    lookup-known token e =
        let (id, d, there, own) =
          lookup_of_any (λ d. has token (tokenise t d.text)) s.docs h.distinct e in
        elim (Option-cases (lookup token s.inverted)) [
          | inr (ids, f) ↦ rw f refl
          | inl f ↦ unfold has in cc (rw (f, there, own) at (h.indexed token id))
        ]

    known_of_posting :
        (token id : String) → has id (set_of token s.inverted) ≡ true → is_known token ≡ true
    known_of_posting token id e = elim (Option-cases (lookup id s.docs)) [
      | inl f ↦ cc (rw (f, e) at (h.indexed token id))
      | inr (d, f) ↦
          any_of_lookup (λ d. has token (tokenise t d.text)) id d s.docs f
            (sym (rw (f, e) at (h.indexed token id)))
    ]

    known_of_lookup :
        (token : String) (ids : List String)
        → lookup token s.inverted ≡ some ids
        → is_known token ≡ true
    known_of_lookup token [] e = absurd (h.filled token e)
    known_of_lookup token (id ∷ ids) e =
        known_of_posting token id (unfold has in rw e (rw (eq_refl id) refl))

    -- The documents of the tokens that start so.
    prefix-fits :
        (token id : String) (found : Option IndexedDocument)
        → lookup id s.docs ≡ found
        → is_known token ≡ false
        → any (λ e. starts_with e.0 token && has id e.1) s.inverted ≡ fits_any token found
    prefix-fits token id none e k =
        elim (Bool-cases (any (λ x. starts_with x.0 token && has id x.1) s.inverted)) [
          | inr f ↦ f
          | inl f ↦
              let (key, begins, there) =
                any-set_of (λ w. starts_with w token) id s.inverted h.separate f in
              cc (rw (e, there) at (h.indexed key id))
        ]
    prefix-fits token id (some d) e k = rw k (
        Bool-ext (any (λ x. starts_with x.0 token && has id x.1) s.inverted)
          (any (λ w. starts_with w token) (tokenise t d.text))
          (λ f.
            let (key, begins, there) =
              any-set_of (λ w. starts_with w token) id s.inverted h.separate f in
            any_of_has (λ w. starts_with w token) key (tokenise t d.text)
              (sym (rw (e, there) at (h.indexed key id))) begins)
          (λ f.
            let (w, there, begins) = has_of_any (λ w. starts_with w token) (tokenise t d.text) f in
            any_of_set_of (λ x. starts_with x token) id w s.inverted begins
              (rw (e, there) at (h.indexed w id))))

    has-postings_for :
        (token id : String)
        → has id (postings_for token s.inverted) ≡ fits_any token (lookup id s.docs)
    unfolding postings_for
    has-postings_for token id = elim (Option-cases (lookup token s.inverted)) [
      | inr (ids, e) ↦
          let own : has id ids ≡ mentions t token (lookup id s.docs) =
            rw e at (h.indexed token id) in
          let known = known_of_lookup token ids e in
          elim (Option-cases (lookup id s.docs)) [
            | inl f ↦ rw (e, postings_for, f) (rw f at own)
            | inr (d, f) ↦ rw (e, postings_for, f, known) (rw f at own)
          ]
      | inl e ↦ elim (Bool-cases (is_known token)) [
        | inl k ↦ cc (rw e at (lookup-known token k))
        | inr k ↦
            rw (e, postings_for)
              (has-prefix_postings token id s.inverted []
                ∙ (unfold has in prefix-fits token id (lookup id s.docs) refl k))
      ]
    ]

    -- Whether a stored document fits all tokens.
    abbrev pub fits_all : (tokens : List String) → Option IndexedDocument → Bool
    fits_all tokens none = false
    fits_all tokens (some d) = all (λ token. fits token d) tokens

    has-narrow :
        (tokens : List String) (id : String) (ids : List String)
        → has id (narrow tokens s.inverted ids)
          ≡ (has id ids && all (λ token. fits_any token (lookup id s.docs)) tokens)
    unfolding narrow intersect
    has-narrow [] id ids = ground arith
    has-narrow (token ∷ tokens) id ids =
        has-narrow tokens id (intersect ids (postings_for token s.inverted))
        ∙ rw
            (
              has-filter (λ x. has x (postings_for token s.inverted)) id ids,
              has-postings_for token id,
            )
            (ground arith)

    abbrev in_scope : (channel : Option String) → Option IndexedDocument → Bool
    in_scope channel none = false
    in_scope channel (some d) = agrees channel d.channel_id

    has-ids_of :
        (id : String) (docs : Dict IndexedDocument)
        → has id (ids_of docs) ≡ is_some (lookup id docs)
    unfolding has lookup
    has-ids_of id [] = refl
    has-ids_of id ((key, d) ∷ docs) = ground (arith, has-ids_of id docs)

    -- A candidate that is stored, in scope, has all tokens; and such a document is a candidate.
    pub has-candidates :
        (tokens : List String) (channel : Option String) (id : String) (d : IndexedDocument)
        → lookup id s.docs ≡ some d
        → agrees channel d.channel_id ≡ true
        → has id (candidates tokens channel s) ≡ all (λ token. fits token d) tokens
    unfolding candidates
    has-candidates [] none id d e q = has-ids_of id s.docs ∙ rw e refl
    has-candidates [] (some channel) id d e q =
        if-holds (λ l. has id l ≡ true) (str_eq channel "") (λ f. has-ids_of id s.docs ∙ rw e refl)
          (λ f. h.placed channel id ∙ rw e (rw f at q))
    has-candidates (token ∷ tokens) channel id d e q =
        has-narrow tokens id (postings_for token s.inverted)
        ∙ rw (has-postings_for token id, e) refl

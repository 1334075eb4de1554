-- ===== src/Web/SearchIndex/Found.antt =====
-- The results of a search are the stored documents that fit its tokens, its scope and its filters.
use vortex_reloaded.Base.{
  &&-false, zero, suc, ◌<◌, &&-eq-true, ℕ, String, ◌≡◌, refl, sym, ◌∙◌, ap, inl, inr, Bool, true,
  false, ◌&&◌, ◌||◌, List, [], ◌∷◌, Option, none, some, arith, if-holds, str_eq, eq_iff, Bool-cases,
  Option-cases, all, length, map, take,
}
use vortex_reloaded.Base.Dict.{lookup}
use vortex_reloaded.Base.Sets.{has}
use vortex_reloaded.Web.SearchIndex.{
  empty, is_before, agrees, IndexedDocument, LocalSearchFilters, TextTools, Index, tokenise,
  candidates, is_wanted, retrieve, sort_results, insert_result, ranks_before, search,
}
use vortex_reloaded.Web.SearchIndex.Coherent.{IsCoherent}
use vortex_reloaded.Web.SearchIndex.Steps.{Op, run, run-IsCoherent}
use vortex_reloaded.Web.SearchIndex.Search.{fits, has-candidates}

module _ (t : TextTools) (s : Index) where
  -- What a search is to find: a stored document in the scope, with the filters and all tokens.
  abbrev pub is_match :
      (channel : Option String)
      → LocalSearchFilters
      → (tokens : List String) → Option IndexedDocument
      → Bool
  is_match channel f tokens none = false
  is_match channel f tokens (some d) =
      is_wanted channel f d && all (λ token. fits t s token d) tokens

abbrev pub result_ids : List IndexedDocument → List String
result_ids ds = map (λ d. d.id) ds

abbrev wanted : (channel : Option String) → LocalSearchFilters → Option IndexedDocument → Bool
wanted channel f none = false
wanted channel f (some d) = is_wanted channel f d

take_all {ℓ} : {A : Type ℓ} (n : ℕ) (xs : List A) → length (take n xs) < n → take n xs ≡ xs
take_all zero xs h = elim h [ ]
take_all (suc n) [] h = refl
take_all (suc n) (x ∷ xs) h = ap (λ l. x ∷ l) (take_all n xs (omega arith))

has-take :
    (id : String) (n : ℕ) (ds : List IndexedDocument)
    → has id (result_ids (take n ds)) ≡ true
    → has id (result_ids ds) ≡ true
unfolding has
has-take id zero ds e = cc e
has-take id (suc n) [] e = e
has-take id (suc n) (d ∷ ds) e = elim (Bool-cases (str_eq d.id id)) [
  | inl same ↦ rw same refl
  | inr differs ↦ rw differs (has-take id n ds (rw differs at e))
]

module _ (t : TextTools) (s : Index) (h : IsCoherent t s) (channel : Option String)
    (f : LocalSearchFilters) where
  has-retrieve :
      (id : String) (ids : List String)
      → has id (result_ids (retrieve channel f s ids))
        ≡ (has id ids && wanted channel f (lookup id s.docs))
  unfolding retrieve has
  has-retrieve id [] = refl
  has-retrieve id (x ∷ ids) = elim (Option-cases (lookup x s.docs)) [
    | inl e ↦
        rw (e, retrieve, has-retrieve id ids)
          (elim (Bool-cases (str_eq x id)) [
            | inr differs ↦ rw differs refl
            | inl same ↦
                let gone : lookup id s.docs ≡ none = rw (sym ((eq_iff x id).0 same)) e in
                rw (same, gone) (ground arith)
          ])
    | inr (d, e) ↦ elim (Bool-cases (is_wanted channel f d)) [
      | inl w ↦
          rw (e, w, retrieve, has-retrieve id ids, h.named x d e)
            (elim (Bool-cases (str_eq x id)) [
              | inr differs ↦ rw differs refl
              | inl same ↦
                  let there : lookup id s.docs ≡ some d = rw (sym ((eq_iff x id).0 same)) e in
                  rw (same, there, w) refl
            ])
      | inr w ↦
          rw (e, w, retrieve, has-retrieve id ids)
            (elim (Bool-cases (str_eq x id)) [
              | inr differs ↦ rw differs refl
              | inl same ↦
                  let there : lookup id s.docs ≡ some d = rw (sym ((eq_iff x id).0 same)) e in
                  rw (same, there, w) (ground arith)
            ])
    ]
  ]

  has-insert_result :
      (tokens : List String) (id : String) (d : IndexedDocument) (ds : List IndexedDocument)
      → has id (result_ids (insert_result t tokens d ds))
        ≡ (str_eq d.id id || has id (result_ids ds))
  unfolding insert_result has
  has-insert_result tokens id d [] = refl
  has-insert_result tokens id d (e ∷ es) =
      if-holds
        (λ l.
          has id (result_ids l) ≡ (str_eq d.id id || (str_eq e.id id || has id (result_ids es))))
        (ranks_before t tokens e d) (λ k. rw (has-insert_result tokens id d es) (ground arith))
        (λ k. refl)

  has-sort_results :
      (tokens : List String) (id : String) (ds : List IndexedDocument)
      → has id (result_ids (sort_results t tokens ds)) ≡ has id (result_ids ds)
  unfolding sort_results has
  has-sort_results tokens id [] = refl
  has-sort_results tokens id (d ∷ ds) =
      has-insert_result tokens id d (sort_results t tokens ds)
      ∙ ap (λ b. str_eq d.id id || b) (has-sort_results tokens id ds)

  has-found :
      (tokens : List String) (id : String)
      → (has id (candidates tokens channel s) && wanted channel f (lookup id s.docs))
        ≡ is_match t s channel f tokens (lookup id s.docs)
  unfolding is_wanted
  has-found tokens id = elim (Option-cases (lookup id s.docs)) [
    | inl e ↦ rw e (&&-false (has id (candidates tokens channel s)))
    | inr (d, e) ↦ elim (Bool-cases (is_wanted channel f d)) [
      | inr w ↦ rw (e, w) (&&-false (has id (candidates tokens channel s)))
      | inl w ↦
          let scope =
            (&&-eq-true (agrees channel d.channel_id)
              (agrees f.from_author_id d.author_id && is_before f.before d.created_at) w).0 in
          rw (e, w, has-candidates t s h tokens channel id d e scope) (ground arith)
    ]
  ]

  has-sorted :
      (tokens : List String) (id : String)
      → has id
          (result_ids (sort_results t tokens (retrieve channel f s (candidates tokens channel s))))
        ≡ is_match t s channel f tokens (lookup id s.docs)
  has-sorted tokens id =
      has-sort_results tokens id (retrieve channel f s (candidates tokens channel s))
      ∙ has-retrieve id (candidates tokens channel s)
      ∙ has-found tokens id

-- After any sequence of operations: what a search gives is a stored document that lies in the scope, passes the
-- filters and fits all tokens of the query, where a token that some stored document has stands for itself
-- and any other for the words that start with it.
pub search-is_match :
    (t : TextTools) (ops : List Op) (channel : Option String) (f : LocalSearchFilters)
    (query : String) (limit : ℕ) (id : String)
    → has id (result_ids (search t query f channel limit (run t ops empty))) ≡ true
    → is_match t (run t ops empty) channel f (tokenise t query) (lookup id (run t ops empty).docs)
      ≡ true
unfolding search
search-is_match t ops channel f query limit id e =
    let s = run t ops empty in
    sym (has-sorted t s (run-IsCoherent t ops) channel f (tokenise t query) id)
    ∙ has-take id limit
        (sort_results t (tokenise t query)
          (retrieve channel f s (candidates (tokenise t query) channel s)))
        e

-- After any sequence of operations: a search that gives fewer results than its limit gives exactly the stored
-- documents that lie in the scope, pass the filters and fit all tokens of the query, where a token that some
-- stored document has stands for itself and any other for the words that start with it.
pub search-finds :
    (t : TextTools) (ops : List Op) (channel : Option String) (f : LocalSearchFilters)
    (query : String) (limit : ℕ) (id : String)
    → length (search t query f channel limit (run t ops empty)) < limit
    → has id (result_ids (search t query f channel limit (run t ops empty)))
      ≡ is_match t (run t ops empty) channel f (tokenise t query) (lookup id (run t ops empty).docs)
unfolding search
search-finds t ops channel f query limit id few =
    let s = run t ops empty in
    let sorted =
      sort_results t (tokenise t query)
        (retrieve channel f s (candidates (tokenise t query) channel s)) in
    ap (λ l. has id (result_ids l)) (take_all limit sorted few)
    ∙ has-sorted t s (run-IsCoherent t ops) channel f (tokenise t query) id

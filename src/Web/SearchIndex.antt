-- ===== src/Web/SearchIndex.antt =====
-- apps/web/lib/local-search-index.ts: the index of decrypted messages in the memory of the browser. The
-- lowering and splitting of a text, its length, and which of two scores is higher are parameters; so is
-- the reading of `from:` and `before:`, whose result a search takes.
pub mod Postings
pub mod Coherent
pub mod Steps
pub mod Size
pub mod Bounds
pub mod Matching
pub mod Search
pub mod Found
use Prim.Native.Nat.{Ordering}
use Prim.Native.String.{compare}
use text.Mathlib.Text.{starts_with}
use vortex_reloaded.Base.{
  ℕ, String, Bool, true, false, not, ◌&&◌, ◌||◌, List, [], ◌∷◌, Option, none, some, filter, any,
  length, take, map, leb, if◌then◌else◌, str_eq, or_else,
}
use vortex_reloaded.Base.Dict.{Dict, lookup, insert, delete}
use vortex_reloaded.Base.Sets.{has, add, remove, add_all}

pub record IndexedDocument : Type 0 where
  pub id : String
  pub channel_id : String
  pub author_id : String
  pub author_name : String
  pub avatar_url : Option String
  pub text : String
  pub created_at : String

pub record LocalSearchFilters : Type 0 where
  pub from_author_id : Option String
  pub before : Option String

abbrev pub max_docs_per_channel : ℕ
max_docs_per_channel = 2000

abbrev pub max_docs_global : ℕ
max_docs_global = 10000

abbrev pub stop_words : List String
stop_words =
    "a" ∷ "an" ∷ "and" ∷ "are" ∷ "as" ∷ "at" ∷ "be" ∷ "but" ∷ "by" ∷ "for" ∷ "from" ∷ "has" ∷ "have"
    ∷ "he" ∷ "her" ∷ "him" ∷ "his" ∷ "how" ∷ "i" ∷ "if" ∷ "in" ∷ "is" ∷ "it" ∷ "its" ∷ "me" ∷ "my"
    ∷ "no" ∷ "not" ∷ "of" ∷ "on" ∷ "or" ∷ "our" ∷ "out" ∷ "she" ∷ "so" ∷ "than" ∷ "that" ∷ "the"
    ∷ "their" ∷ "them" ∷ "then" ∷ "there" ∷ "they" ∷ "this" ∷ "to" ∷ "up" ∷ "us" ∷ "was" ∷ "we"
    ∷ "were" ∷ "what" ∷ "when" ∷ "who" ∷ "why" ∷ "will" ∷ "with" ∷ "you" ∷ "your" ∷ []

-- `words` lowers a text and splits it at what is neither letter nor digit, `units` is the length of a text,
-- and `outranks m a n b` says that m matched tokens at the time a score higher than n at b.
pub record TextTools : Type 0 where
  pub words : String → List String
  pub units : String → ℕ
  pub outranks : ℕ → String → ℕ → String → Bool

pub record Index : Type 0 where
  pub inverted : Dict (List String)
  pub docs : Dict IndexedDocument
  pub channel_docs : Dict (List String)

abbrev pub empty : Index
empty = record { inverted = []; docs = []; channel_docs = [] }

-- `a < b` on texts.
abbrev pub text_lt : String → String → Bool
text_lt a b = elim (compare a b) [ Ordering.lt ↦ true | _ ↦ false ]

-- The set of a key, where a missing one is empty.
abbrev pub set_of : String → Dict (List String) → List String
set_of key sets = or_else (lookup key sets) []

-- A set that has become empty goes with its token.
unfoldable pub keep_posting :
    (token : String) → List String → Dict (List String) → Dict (List String)
keep_posting token [] sets = delete token sets
keep_posting token (id ∷ ids) sets = insert token (id ∷ ids) sets

unfoldable pub remove_posting : (id token : String) → Dict (List String) → Dict (List String)
remove_posting id token sets = elim (lookup token sets) [
  | none ↦ sets
  | some ids ↦ keep_posting token (remove id ids) sets
]

unfoldable pub remove_postings :
    (id : String) (tokens : List String) → Dict (List String) → Dict (List String)
remove_postings id [] sets = sets
remove_postings id (token ∷ tokens) sets = remove_postings id tokens (remove_posting id token sets)

unfoldable pub add_posting : (id token : String) → Dict (List String) → Dict (List String)
add_posting id token sets = insert token (add id (set_of token sets)) sets

unfoldable pub add_postings :
    (id : String) (tokens : List String) → Dict (List String) → Dict (List String)
add_postings id [] sets = sets
add_postings id (token ∷ tokens) sets = add_postings id tokens (add_posting id token sets)

-- The set of a channel that is there loses a document.
unfoldable pub leave_channel : (id channel : String) → Dict (List String) → Dict (List String)
leave_channel id channel sets = elim (lookup channel sets) [
  | none ↦ sets
  | some ids ↦ insert channel (remove id ids) sets
]

-- The id with the smallest time so far, and that time; the empty id is none.
unfoldable pub oldest_of : List (String × String) → (oldest : String × String) → String × String
oldest_of [] oldest = oldest
oldest_of ((id, at) ∷ more) (oldest, oldest_at) =
    oldest_of more
      (if str_eq oldest "" || text_lt at oldest_at then (id, at) else (oldest, oldest_at))

abbrev pub created : Option IndexedDocument → String
created none = ""
created (some d) = d.created_at

unfoldable pub oldest_in : (channel : String) → Index → String
unfolding oldest_of
oldest_in channel s =
    (oldest_of (map (λ id. (id, created (lookup id s.docs))) (set_of channel s.channel_docs))
      ("", "")).0

unfoldable pub oldest_globally : Index → String
unfolding oldest_of
oldest_globally s = (oldest_of (map (λ e. (e.0, e.1.created_at)) s.docs) ("", "")).0

module _ (t : TextTools) where
  unfoldable pub tokenise : String → List String
  tokenise text = filter (λ w. leb 2 (t.units w) && not (has w stop_words)) (t.words text)

  unfoldable pub remove_document : (id : String) → Index → Index
  unfolding remove_postings leave_channel
  remove_document id s = elim (lookup id s.docs) [
    | none ↦ s
    | some d ↦ record {
      inverted = remove_postings id (tokenise d.text) s.inverted;
      docs = delete id s.docs;
      channel_docs = leave_channel id d.channel_id s.channel_docs;
    }
  ]

  unfoldable pub evict : (oldest : String) → Index → Index
  evict oldest s = if str_eq oldest "" then s else remove_document oldest s

  unfoldable pub enforce_channel_cap : (channel : String) → Index → Index
  enforce_channel_cap channel s =
      if leb max_docs_per_channel (length (set_of channel s.channel_docs))
      then evict (oldest_in channel s) s
      else s

  unfoldable pub enforce_global_cap : Index → Index
  enforce_global_cap s =
      if leb max_docs_global (length s.docs) then evict (oldest_globally s) s else s

  unfoldable pub store_document : IndexedDocument → Index → Index
  unfolding add_postings
  store_document d s = record {
    inverted = add_postings d.id (tokenise d.text) s.inverted;
    docs = insert d.id d s.docs;
    channel_docs =
        insert d.channel_id (add d.id (set_of d.channel_id s.channel_docs)) s.channel_docs;
  }

  -- `remove_document` does nothing where the document is new.
  unfoldable pub add_document : IndexedDocument → Index → Index
  add_document d s =
      store_document d
        (enforce_global_cap (enforce_channel_cap d.channel_id (remove_document d.id s)))

  unfoldable pub add_documents : List IndexedDocument → Index → Index
  add_documents [] s = s
  add_documents (d ∷ ds) s = add_documents ds (add_document d s)

  unfoldable pub remove_all : List String → Index → Index
  remove_all [] s = s
  remove_all (id ∷ ids) s = remove_all ids (remove_document id s)

  unfoldable pub clear_channel : (channel : String) → Index → Index
  clear_channel channel s = elim (lookup channel s.channel_docs) [
    | none ↦ s
    | some ids ↦
        let s' = remove_all ids s in record s' { channel_docs = delete channel s'.channel_docs }
  ]

-- The documents of all tokens that start with this one.
unfoldable pub prefix_postings : (token : String) → Dict (List String) → List String → List String
prefix_postings token [] ids = ids
prefix_postings token ((other, more) ∷ sets) ids =
    prefix_postings token sets (if starts_with other token then add_all ids more else ids)

unfoldable pub postings_for : (token : String) → Dict (List String) → List String
unfolding prefix_postings
postings_for token sets = elim (lookup token sets) [
  | some ids ↦ ids
  | none ↦ prefix_postings token sets []
]

unfoldable pub intersect : List String → List String → List String
intersect ids postings = filter (λ id. has id postings) ids

-- An empty set of candidates stays empty, and the loop stops.
unfoldable pub narrow : (tokens : List String) → Dict (List String) → List String → List String
unfolding postings_for intersect
narrow [] sets ids = ids
narrow (token ∷ tokens) sets ids = narrow tokens sets (intersect ids (postings_for token sets))

abbrev pub is_given : Option String → Bool
is_given none = false
is_given (some s) = not (str_eq s "")

-- `ids_of` are the keys of a Map.
abbrev pub ids_of {ℓ} : {A : Type ℓ} → Dict A → List String
ids_of m = map (λ e. e.0) m

unfoldable pub candidates : (tokens : List String) → (channel : Option String) → Index → List String
unfolding narrow
candidates [] none s = ids_of s.docs
candidates [] (some channel) s =
    if str_eq channel "" then ids_of s.docs else set_of channel s.channel_docs
candidates (token ∷ tokens) channel s = narrow tokens s.inverted (postings_for token s.inverted)

abbrev pub agrees : Option String → String → Bool
agrees none own = true
agrees (some wanted) own = str_eq wanted "" || str_eq own wanted

abbrev pub is_before : Option String → String → Bool
is_before none at = true
is_before (some before) at = str_eq before "" || text_lt at before

-- The scope and the filters.
unfoldable pub is_wanted : (channel : Option String) → LocalSearchFilters → IndexedDocument → Bool
is_wanted channel f d =
    agrees channel d.channel_id
    && (agrees f.from_author_id d.author_id && is_before f.before d.created_at)

unfoldable pub retrieve :
    (channel : Option String) → LocalSearchFilters → Index → List String → List IndexedDocument
unfolding is_wanted
retrieve channel f s [] = []
retrieve channel f s (id ∷ ids) =
    let more = retrieve channel f s ids in
    elim (lookup id s.docs) [
      | none ↦ more
      | some d ↦ if is_wanted channel f d then d ∷ more else more
    ]

module _ (t : TextTools) where
  -- How many tokens of the query the document matches.
  unfoldable pub matched : (tokens : List String) → IndexedDocument → List String
  matched tokens d =
      let own = tokenise t d.text in
      filter (λ token. any (λ w. str_eq w token || starts_with w token) own) tokens

  -- The result `a` is before `b`.
  unfoldable pub ranks_before : (tokens : List String) → IndexedDocument → IndexedDocument → Bool
  unfolding matched
  ranks_before tokens a b =
      let m = length (matched tokens a) in
      let n = length (matched tokens b) in
      t.outranks m a.created_at n b.created_at
      || (not (t.outranks n b.created_at m a.created_at) && text_lt b.created_at a.created_at)

  -- A result goes before the first one that is not before it, so that equals keep their order.
  unfoldable pub insert_result :
      (tokens : List String) → IndexedDocument → List IndexedDocument → List IndexedDocument
  insert_result tokens d [] = d ∷ []
  insert_result tokens d (e ∷ es) =
      if ranks_before tokens e d then e ∷ insert_result tokens d es else d ∷ e ∷ es

  unfoldable pub sort_results : (tokens : List String) → List IndexedDocument → List IndexedDocument
  unfolding insert_result
  sort_results tokens [] = []
  sort_results tokens (d ∷ ds) = insert_result tokens d (sort_results tokens ds)

  -- A query with its filters read off.
  unfoldable pub search :
      (query : String) (f : LocalSearchFilters) (channel : Option String) (limit : ℕ)
      → Index
      → List IndexedDocument
  unfolding candidates retrieve sort_results
  search query f channel limit s =
      let tokens = tokenise t query in
      take limit (sort_results tokens (retrieve channel f s (candidates tokens channel s)))

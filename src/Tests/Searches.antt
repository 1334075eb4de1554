-- ===== src/Tests/Searches.antt =====
-- The search index with texts of one word.
use Prim.Native.String.{count}
use vortex_reloaded.Base.{
  String, ◌≡◌, ◌≢◌, refl, eq_refl, false, List, [], ◌∷◌, none, some, arith, ltb, str_eq,
}
use vortex_reloaded.Base.Dict.{lookup, insert, delete}
use vortex_reloaded.Base.Sets.{has, add, remove, add_all}
use vortex_reloaded.Web.SearchIndex.{
  IndexedDocument, LocalSearchFilters, TextTools, empty, tokenise, search, candidates, retrieve,
  is_wanted, sort_results, insert_result, ranks_before, matched, add_document, remove_document,
  store_document, enforce_channel_cap, enforce_global_cap, remove_postings, remove_posting,
  keep_posting, add_postings, add_posting, leave_channel, narrow, postings_for, prefix_postings,
  intersect,
}
use vortex_reloaded.Web.SearchIndex.Steps.{Op, adds, removes, run, step, run-IsCoherent}
use vortex_reloaded.Web.SearchIndex.Coherent.{IsCoherent}
use vortex_reloaded.Web.SearchIndex.Bounds.{IsBounded, run-IsBounded}
use vortex_reloaded.Web.SearchIndex.Found.{result_ids, is_match, search-finds}

abbrev tools : TextTools
tools = record { words = λ text. text ∷ []; units = count; outranks = λ m a n b. ltb n m }

abbrev message : (id channel text : String) → IndexedDocument
message id channel text = record {
  id = id;
  channel_id = channel;
  author_id = "ann";
  author_name = "Ann";
  avatar_url = none;
  text = text;
  created_at = "2026-01-01";
}

abbrev history : List Op
history =
    adds (message "m1" "c1" "hello")
    ∷ adds (message "m2" "c1" "help")
    ∷ adds (message "m3" "c2" "hello")
    ∷ removes "m3"
    ∷ []

abbrev open_filters : LocalSearchFilters
open_filters = record { from_author_id = none; before = none }

-- A start of both words.
finds_both :
    search tools "hel" open_filters (some "c1") 40 (run tools history empty)
    ≡ message "m1" "c1" "hello" ∷ message "m2" "c1" "help" ∷ []
unfolding search candidates retrieve sort_results insert_result ranks_before matched run step
    add_document remove_document store_document enforce_channel_cap enforce_global_cap tokenise
    narrow postings_for prefix_postings intersect remove_postings remove_posting keep_posting
    add_postings add_posting leave_channel lookup insert delete has add remove add_all is_wanted
finds_both = refl

search-finds_example :
    has "m2" (result_ids (search tools "hel" open_filters (some "c1") 40 (run tools history empty)))
    ≡ is_match tools
        (run tools history empty)
        (some "c1")
        open_filters
        (tokenise tools "hel")
        (lookup "m2" (run tools history empty).docs)
search-finds_example =
    search-finds tools history (some "c1") open_filters "hel" 40 "m2" (rw finds_both (omega arith))

named : (id : String) → str_eq id "" ≡ false → id ≢ ""
named id h e = cc (rw e at h, eq_refl "")

run-IsBounded_example : IsBounded tools (run tools history empty)
run-IsBounded_example =
    run-IsBounded tools history (named "m1" refl, (named "m2" refl, (named "m3" refl, (tt, tt))))

run-IsCoherent_example : IsCoherent tools (run tools history empty)
run-IsCoherent_example = run-IsCoherent tools history

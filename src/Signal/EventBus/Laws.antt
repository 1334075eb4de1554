-- ===== src/Signal/EventBus/Laws.antt =====
-- What a replay gives back.
use mathlib.Core.List.{reverse}
use vortex_reloaded.Base.{
  ℕ, zero, suc, ◌-◌, take-nil, ◌<◌, String, ◌≡◌, ◌≢◌, refl, sym, ap, ◌∙◌, subst, true, false, List,
  [], ◌∷◌, ◌++◌, Option, none, some, arith, filter, str_eq, eq_iff, eq_refl, take, All, Bool-cases,
  Option-cases, inl, inr, length, filter-none, filter-reverse, All-append_right, All-map_imp, any,
}
use vortex_reloaded.Signal.Gateway.{VortexEvent}
use vortex_reloaded.Signal.EventBus.{
  StreamId, StreamEntry, StreamRedis, Bus, id_lt, is_within, is_beyond, find_in, events_of,
  stream_key, replay, publish, max_attempts, batch_size, persisted_event_types,
  event_stream_max_length,
}
use vortex_reloaded.Signal.EventBus.Search.{
  IsDescending, IsOrdinary, id_lt_irrefl, id_lt_asymm, reach, find_stream_entry_id-find_in,
}

-- The Redis calls that a replay makes return.
abbrev pub Answers : (c : StreamRedis) → String → c.State → Type 0
Answers c key r =
    ((end : Option StreamId) → c.xrevrange key end batch_size r ≢ none)
    × ((start : Option StreamId) (limit : ℕ) → c.xrange key start limit r ≢ none)

-- Entries with no event of the id.
abbrev pub Lacks : String → List StreamEntry → Type 0
Lacks id es = All (λ e. (v : VortexEvent) → e.event ≡ some v → str_eq v.id id ≡ false) es

find_in-Lacks : (id : String) (es : List StreamEntry) → Lacks id es → find_in id es ≡ none
unfolding find_in
find_in-Lacks id [] h = refl
find_in-Lacks id (e ∷ es) h = elim (Option-cases e.event) [
  | inl n ↦ simp (n, find_in) (find_in-Lacks id es h.1)
  | inr (v, s) ↦ simp (s, find_in) (rw (h.0 v s) (find_in-Lacks id es h.1))
]

-- The entries after one in the order of their ids are those before it in the list of the newest first.
beyond-later :
    (later : List StreamEntry) (e : StreamEntry) (earlier : List StreamEntry)
    → IsDescending (later ++ e ∷ earlier)
    → filter (is_beyond (some e.id)) (later ++ e ∷ earlier) ≡ later
beyond-later [] e earlier d = rw (id_lt_irrefl e.id) (
    filter-none (is_beyond (some e.id)) earlier (
      All-map_imp (λ f. id_lt f.id e.id ≡ true) (λ f. id_lt e.id f.id ≡ false) earlier
        (λ f h. id_lt_asymm f.id e.id h) d.0))
beyond-later (l ∷ later) e earlier d =
    rw (All-append_right (λ f. id_lt f.id l.id ≡ true) later (e ∷ earlier) d.0).0
      (ap (λ x. l ∷ x) (beyond-later later e earlier d.1))

find_in-take :
    (id : String) (n : ℕ) (later : List StreamEntry) (e : StreamEntry) (v : VortexEvent)
    (earlier : List StreamEntry)
    → length later < n
    → Lacks id later
    → e.event ≡ some v
    → v.id ≡ id
    → find_in id (take n (later ++ e ∷ earlier)) ≡ some e.id
unfolding find_in
find_in-take id zero later e v earlier h k s i = absurd (omega arith)
find_in-take id (suc n) [] e v earlier h k s i = simp (s, find_in) (rw (i, eq_refl id))
find_in-take id (suc n) (l ∷ later) e v earlier h k s i = elim (Option-cases l.event) [
  | inl m ↦ simp (m, find_in) (find_in-take id n later e v earlier (omega arith) k.1 s i)
  | inr (w, m) ↦
      simp (m, find_in) (rw (k.0 w m) (find_in-take id n later e v earlier (omega arith) k.1 s i))
]

filter_within : (es : List StreamEntry) → filter (is_within none) es ≡ es
filter_within [] = refl
filter_within (e ∷ es) = ap (λ l. e ∷ l) (filter_within es)

module _ (c : StreamRedis) (channel id : String) (limit : ℕ) (b : Bus c) where
  abbrev contents : List StreamEntry
  contents = c.newest (stream_key channel) b.redis

  -- The answer, by one search of the newest thousand entries and one range.
  replay-find_in :
      b.destroyed ≡ false
      → Answers c (stream_key channel) b.redis
      → All IsOrdinary contents
      → IsDescending contents
      → replay c channel id limit b
        ≡ events_of (
            take limit (
              filter
                (is_beyond (find_in id (take (reach max_attempts batch_size) contents)))
                (reverse contents)))
  unfolding replay
  replay-find_in live a o d =
      let start = find_in id (take (reach max_attempts batch_size) contents) in
      let search =
        find_stream_entry_id-find_in c (stream_key channel) id b.redis batch_size max_attempts a.0
          (omega arith) none contents (filter_within contents) o d in
      elim (Option-cases (c.xrange (stream_key channel) start limit b.redis)) [
        | inl e ↦ absurd (a.1 start limit e)
        | inr (es, e) ↦
            rw (live, search, replay)
              (rw e (ap events_of (c.xrange_reads (stream_key channel) start limit b.redis es e)))
      ]

beyond_none : (es : List StreamEntry) → filter (is_beyond none) es ≡ es
beyond_none [] = refl
beyond_none (e ∷ es) = ap (λ l. e ∷ l) (beyond_none es)

-- A replay after an event that is still among the newest thousand of its channel's stream gives exactly
-- the events that came later, in the order of their coming, up to the limit. The bus is not destroyed, the
-- calls of Redis return, the ids of the stream are ordinary and fall from the newest entry on, and no later
-- entry repeats the event.
pub replay-later :
    (c : StreamRedis) (channel : String) (limit : ℕ) (b : Bus c) (later : List StreamEntry)
    (e : StreamEntry) (v : VortexEvent) (earlier : List StreamEntry)
    → b.destroyed ≡ false
    → Answers c (stream_key channel) b.redis
    → c.newest (stream_key channel) b.redis ≡ later ++ e ∷ earlier
    → All IsOrdinary (later ++ e ∷ earlier)
    → IsDescending (later ++ e ∷ earlier)
    → e.event ≡ some v
    → Lacks v.id later
    → length later < 1000
    → replay c channel v.id limit b ≡ events_of (take limit (reverse later))
replay-later c channel limit b later e v earlier live a s o d m k l =
    replay-find_in c channel v.id limit b live a (subst (All IsOrdinary) (sym s) o)
      (subst IsDescending (sym s) d)
    ∙ rw (s, find_in-take v.id 1000 later e v earlier l k m refl)
        (ap (λ es. events_of (take limit es))
          (filter-reverse (is_beyond (some e.id)) (later ++ e ∷ earlier)
            ∙ ap reverse (beyond-later later e earlier d)))

-- A replay after an event that the newest thousand entries do not have starts again with the oldest
-- entries of the stream, and is cut off at the limit. The other conditions are the same.
pub replay-unknown :
    (c : StreamRedis) (channel id : String) (limit : ℕ) (b : Bus c)
    → b.destroyed ≡ false
    → Answers c (stream_key channel) b.redis
    → All IsOrdinary (c.newest (stream_key channel) b.redis)
    → IsDescending (c.newest (stream_key channel) b.redis)
    → Lacks id (take 1000 (c.newest (stream_key channel) b.redis))
    → replay c channel id limit b
      ≡ events_of (take limit (reverse (c.newest (stream_key channel) b.redis)))
replay-unknown c channel id limit b live a o d k =
    replay-find_in c channel id limit b live a o d
    ∙ rw (find_in-Lacks id (take 1000 (c.newest (stream_key channel) b.redis)) k)
        (ap (λ es. events_of (take limit es)) (beyond_none _))

publish-newest :
    (c : StreamRedis) (event : VortexEvent) (b : Bus c)
    → (publish c true event b).1 ≡ true
    → any (λ k. str_eq k event.kind) persisted_event_types ≡ true
    → ((publish c true event b).0.destroyed ≡ false)
      × ((id : StreamId) × (k : ℕ) × (c.newest
              (stream_key event.channel_id)
              (publish c true event b).0.redis
            ≡ record { id = id; event = some event }
              ∷ take (suc k) (c.newest (stream_key event.channel_id) b.redis)))
unfolding publish
publish-newest c event b sent kept = elim (Bool-cases b.destroyed) [
  | inl dead ↦ cc (rw (dead, publish) at sent)
  | inr live ↦
      elim (Option-cases
        (c.xadd (stream_key event.channel_id) event_stream_max_length event b.redis)) [
          | inl t ↦ cc (rw (live, kept, t, publish) at sent)
          | inr (r, t) ↦
              let (id, k, long, stored) =
                c.xadd_stores (stream_key event.channel_id) event_stream_max_length event b.redis r
                  t in
              let e : k ≡ suc (k - 1) = omega arith in
              simp (live, kept, t, publish)
                (
                  refl,
                  (
                    id,
                    k - 1,
                    subst
                        (λ n.
                          c.newest (stream_key event.channel_id) r
                          ≡ record { id = id; event = some event }
                            ∷ take n (c.newest (stream_key event.channel_id) b.redis))
                        e stored,
                  ),
                )
        ]
]

take-one :
    (limit : ℕ) (new : StreamEntry) {event : VortexEvent}
    → 0 < limit
    → new.event ≡ some event
    → events_of (take limit (reverse (new ∷ []))) ≡ event ∷ []
unfolding events_of
take-one zero new p h = absurd (omega arith)
take-one (suc n) new p h = simp (h, events_of, take-nil)

-- An event that is published is what a replay after the event before it gives back: what the calls of
-- `publish` store, the calls of `replay` find.
pub replay-publish :
    (c : StreamRedis) (limit : ℕ) (event : VortexEvent) (b : Bus c) (e : StreamEntry)
    (v : VortexEvent) (es : List StreamEntry)
    → (publish c true event b).1 ≡ true
    → any (λ k. str_eq k event.kind) persisted_event_types ≡ true
    → Answers c (stream_key event.channel_id) (publish c true event b).0.redis
    → c.newest (stream_key event.channel_id) b.redis ≡ e ∷ es
    → All IsOrdinary (c.newest (stream_key event.channel_id) (publish c true event b).0.redis)
    → IsDescending (c.newest (stream_key event.channel_id) (publish c true event b).0.redis)
    → e.event ≡ some v
    → v.id ≢ event.id
    → 0 < limit
    → replay c event.channel_id v.id limit (publish c true event b).0 ≡ event ∷ []
replay-publish c limit event b e v es sent kept a s o d m n p =
    let (live, (id, k, stored)) = publish-newest c event b sent kept in
    let new : StreamEntry = record { id = id; event = some event } in
    let content : c.newest (stream_key event.channel_id) (publish c true event b).0.redis
        ≡ new ∷ e ∷ take k es =
      stored ∙ ap (λ l. new ∷ take (suc k) l) s in
    replay-later c event.channel_id limit (publish c true event b).0 (new ∷ []) e v (take k es) live
      a content (subst (All IsOrdinary) content o) (subst IsDescending content d) m
      ((λ w q. ground (arith, eq_iff w.id v.id)), tt) (omega arith)
    ∙ take-one limit new p refl

-- ===== src/Tests/Streams.antt =====
-- The event bus over streams that never fail and are trimmed exactly.
use mathlib.Core.List.{reverse}
use vortex_reloaded.Base.{
  ℕ, ◌+◌, String, ◌≡◌, ◌≢◌, refl, true, false, List, [], ◌∷◌, none, some, arith, str_eq, eq_refl,
  eq_iff, if◌then◌else◌, take, filter, All,
}
use vortex_reloaded.Signal.Value.{null}
use vortex_reloaded.Signal.Gateway.{VortexEvent}
use vortex_reloaded.Signal.EventBus.{
  StreamId, StreamEntry, StreamRedis, Bus, is_within, is_beyond, replay, publish, events_of,
}
use vortex_reloaded.Signal.EventBus.Search.{IsOrdinary, IsDescending}
use vortex_reloaded.Signal.EventBus.Laws.{Lacks, replay-later, replay-unknown, replay-publish}

abbrev next_id : List StreamEntry → StreamId
next_id [] = record { ms = 1; seq = 0 }
next_id (e ∷ es) = record { ms = e.id.ms + 1; seq = 0 }

abbrev add_entry : ℕ → VortexEvent → List StreamEntry → List StreamEntry
add_entry max_length v es = record { id = next_id es; event = some v } ∷ take max_length es

abbrev Streams : Type 0
Streams = String → List StreamEntry

pub some-eq : {A : Type 0} (a b : A) → some a ≡ some b → b ≡ a
some-eq a b h = cc h

pub stored :
    (key : String) (max_length : ℕ) (v : VortexEvent) (r r' : Streams)
    → some (λ j. if str_eq key j then add_entry max_length v (r key) else r j) ≡ some r'
    → r' key ≡ record { id = next_id (r key); event = some v } ∷ take max_length (r key)
stored key max_length v r r' h = rw (some-eq _ r' h, eq_refl key) refl

abbrev pub streams : StreamRedis
streams = record {
  State = Streams;
  newest = λ key r. r key;
  xadd = λ key max_length v r.
      some (λ j. if str_eq key j then add_entry max_length v (r key) else r j);
  xrange = λ key after count r. some (take count (filter (is_beyond after) (reverse (r key))));
  xrevrange = λ key end count r. some (take count (filter (is_within end) (r key)));
  xrange_reads = λ key after count r es h. some-eq _ es h;
  xrevrange_reads = λ key end count r es h. some-eq _ es h;
  xadd_stores = λ key max_length v r r' h.
      (next_id (r key), max_length, omega arith, stored key max_length v r r' h);
}

abbrev message : String → VortexEvent
message i = record {
  id = i;
  kind = "message.created";
  channel_id = "c1";
  server_id = none;
  actor_id = "ann";
  timestamp = "t";
  content = null;
}

abbrev entry_at : ℕ → String → StreamEntry
entry_at t i = record { id = record { ms = t; seq = 0 }; event = some (message i) }

-- Three events, the newest first.
abbrev three : List StreamEntry
three = entry_at 3 "e3" ∷ entry_at 2 "e2" ∷ entry_at 1 "e1" ∷ []

abbrev bus : Bus streams
bus = record { redis = λ key. three; subscriptions = []; destroyed = false }

lacks-of :
    (m v : VortexEvent) (x : String)
    → some m ≡ some v
    → str_eq m.id x ≡ false
    → str_eq v.id x ≡ false
lacks-of m v x h e = rw (some-eq m v h) e

apart : (a b : String) → str_eq a b ≡ false → a ≢ b
apart a b h e = ground (arith, eq_iff a b)

three-IsOrdinary : All IsOrdinary three
three-IsOrdinary =
    ((omega arith, omega arith), ((omega arith, omega arith), ((omega arith, omega arith), tt)))

three-IsDescending : IsDescending three
three-IsDescending = ((refl, (refl, tt)), ((refl, tt), (tt, tt)))

three-Lacks : Lacks "e0" three
three-Lacks = (
  (λ v h. lacks-of _ v "e0" h refl),
  ((λ v h. lacks-of _ v "e0" h refl), ((λ v h. lacks-of _ v "e0" h refl), tt)),
)

replay-later_example :
    replay streams "c1" "e1" 500 bus
    ≡ events_of (take 500 (reverse (entry_at 3 "e3" ∷ entry_at 2 "e2" ∷ [])))
replay-later_example =
    replay-later streams "c1" 500 bus (entry_at 3 "e3" ∷ entry_at 2 "e2" ∷ []) (entry_at 1 "e1")
      (message "e1") [] refl ((λ end e. cc e), (λ start limit e. cc e)) refl three-IsOrdinary
      three-IsDescending refl
      ((λ v h. lacks-of _ v "e1" h refl), ((λ v h. lacks-of _ v "e1" h refl), tt)) (omega arith)

replay-unknown_example : replay streams "c1" "e0" 2 bus ≡ events_of (take 2 (reverse three))
replay-unknown_example =
    replay-unknown streams "c1" "e0" 2 bus refl ((λ end e. cc e), (λ start limit e. cc e))
      three-IsOrdinary three-IsDescending three-Lacks

replay-publish_example :
    replay streams "c1" "e3" 500 (publish streams true (message "e4") bus).0 ≡ message "e4" ∷ []
replay-publish_example =
    replay-publish streams 500 (message "e4") bus (entry_at 3 "e3") (message "e3")
      (entry_at 2 "e2" ∷ entry_at 1 "e1" ∷ []) (unfold publish in refl) refl
      ((λ end e. cc e), (λ start limit e. cc e)) refl
      (unfold publish in ((omega arith, omega arith), three-IsOrdinary))
      (unfold publish in ((refl, (refl, (refl, tt))), three-IsDescending)) refl
      (apart "e3" "e4" refl) (omega arith)

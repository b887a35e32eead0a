-- ===== src/Event/Tests.antt =====
-- Runs of internal/event and the theorems about it at concrete buses and messages.
use pmmcp.Prelude.{ℕ, ◌≤◌, ◌≡◌, refl, none, List, [], ◌∷◌, ◌++◌, arith, length}
use pmmcp.Prelude.Int.{pos, add64, int64}
use pmmcp.Event.{
  Bytes, Event, Bus, new_bus, append, query, query_since, truncate, trunc_marker, utf8_rune_start,
  last_n, rune_cut, stamp, store, collect,
}
use pmmcp.Event.Cursor.{IsAscending, query_since-resume}
use pmmcp.Event.Retention.{Call, append_all, append_all-newest}

abbrev sample : ℕ → Event
sample n = record {
  seq = pos n;
  id = "evt";
  kind = "process.started";
  process_id = "proc_1";
  group_id = "";
  session_id = "";
  severity = "info";
  project_id = "";
  message = [];
  at = 5;
}

abbrev bus : Bus
bus = record (new_bus (pos 10)) { events = sample 1 ∷ sample 2 ∷ sample 3 ∷ []; seq_ctr = pos 3 }

-- "aé" is cut before the rune that the cap splits.
abbrev accented : Bytes
accented = 0x61 ∷ 0xC3 ∷ 0xA9 ∷ []

truncate-accented : truncate accented (pos 2) ≡ 0x61 ∷ trunc_marker
unfolding truncate rune_cut utf8_rune_start
truncate-accented = refl

query_newest : query bus "proc_1" (pos 2) ≡ sample 2 ∷ sample 3 ∷ []
unfolding query new_bus
query_newest = refl

query_since-resume_example :
    query_since bus (pos 0) "proc_1" (pos 1) ++ query_since bus (pos 1) "proc_1" (pos 2)
    ≡ query_since bus (pos 0) "proc_1" (pos 3)
unfolding query_since collect
query_since-resume_example =
    query_since-resume bus (pos 0) "proc_1" 0 1 [] (sample 1)
      ((refl, (refl, tt)), ((refl, tt), (tt, tt))) refl

abbrev calls : List Call
calls =
    record { event = sample 0; new_id = none; now = 7 }
    ∷ record { event = record (sample 0) { id = "" }; new_id = none; now = 8 }
    ∷ record { event = sample 0; new_id = none; now = 9 }
    ∷ []

-- The second call fails, since it needs an identifier and gets none.
append_all-calls : length (append_all (new_bus (pos 1)) calls).1 ≡ 2
unfolding append_all append stamp store new_bus add64 int64 truncate
append_all-calls = refl

append_all-newest_example :
    let (b, stored) = append_all (new_bus (pos 1)) calls in
    (b.events ≡ last_n b.max_keep stored) × (length b.events ≤ b.max_keep) × IsAscending b.events
append_all-newest_example = append_all-newest (pos 1) calls (omega arith)

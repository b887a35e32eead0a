-- ===== src/Audit/Tests.antt =====
-- A small audit log and its answers, and the witness.
use pmmcp.Prelude.{String, ◌≡◌, refl, none, List, [], ◌∷◌, map, keep}
use pmmcp.Prelude.Int.{ℤ, pos, negsuc, int64, add64}
use pmmcp.Prelude.Newest.{last_n}
use pmmcp.Audit.{
  Record, Filter, new_log, assigned, keep_record, append, is_asked, matches, limit_or_default,
  query_filter,
}
use pmmcp.Audit.Answers.{Call, append_all, query_filter-newest}

abbrev stop_by : String → String → Record
stop_by id actor = record {
  seq = pos 0;
  id = id;
  action = "stop";
  actor = actor;
  role = "agent";
  session_id = "";
  target = "web";
  outcome = "denied";
  capability = "";
  client = "mcp";
  reason = "";
  request_id = "";
  detail = "";
  at = 7;
}

abbrev by_ann : Filter
by_ann = record {
  actor = "ann";
  session_id = "";
  action = "";
  target = "";
  outcome = "denied";
  since = 5;
  until = 0;
}

abbrev call : String → String → Call
call id actor = record { given = stop_by id actor; new_id = none; now = 9 }

-- The second call fails for want of an identifier, and the first record is dropped by the fourth.
abbrev calls : List Call
calls = call "a" "ann" ∷ call "" "ann" ∷ call "b" "bob" ∷ call "c" "ann" ∷ []

answers_ann :
    map {B = ℤ × String}
      (λ r. (r.seq, r.id))
      (query_filter (append_all (new_log (pos 2)) calls).0 by_ann (pos 0))
    ≡ (pos 3, "c") ∷ []
unfolding append_all append assigned keep_record new_log query_filter matches is_asked
    limit_or_default add64 int64
answers_ann = refl

query_filter-newest_example :
    let (l, returned) = append_all (new_log (pos 2)) calls in
    query_filter l by_ann (negsuc 0)
    ≡ last_n
        (limit_or_default (negsuc 0))
        (keep (matches by_ann) (last_n (new_log (pos 2)).max_keep returned))
query_filter-newest_example = query_filter-newest (pos 2) (negsuc 0) calls by_ann

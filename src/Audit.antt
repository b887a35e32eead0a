-- ===== src/Audit.antt =====
-- internal/audit/audit.go: the audit log in memory. Its lock is held for the whole of each operation
-- that reads or changes it, so an operation is one step.
pub mod Answers
mod Tests
use pmmcp.Prelude.{
  ℕ, String, Bool, true, false, not, ◌&&◌, ◌||◌, Option, none, some, List, [], ◌∷◌, ◌++◌, str_eq,
  ltb, if◌then◌else◌, length, keep,
}
use pmmcp.Prelude.Int.{ℤ, pos, pos_part, leb_ℤ, add64}
use pmmcp.Prelude.Time.{Time, is_zero}
use pmmcp.Prelude.Newest.{last_n}

pub record Record : Type 0 where
  pub seq : ℤ
  pub id : String
  pub action : String
  pub actor : String
  pub role : String
  pub session_id : String
  pub target : String
  pub outcome : String
  pub capability : String
  pub client : String
  pub reason : String
  pub request_id : String
  pub detail : String
  pub at : Time

pub record Filter : Type 0 where
  pub actor : String
  pub session_id : String
  pub action : String
  pub target : String
  pub outcome : String
  pub since : Time
  pub until : Time

pub record Log : Type 0 where
  pub records : List Record
  pub seq_ctr : ℤ
  pub max_keep : ℕ

abbrev pub default_max_records : ℕ
default_max_records = 100000

unfoldable pub new_log : ℤ → Log
new_log max_keep = record {
  records = [];
  seq_ctr = pos 0;
  max_keep = if leb_ℤ max_keep (pos 0) then default_max_records else pos_part max_keep;
}

-- The record with its identifier, time and number; none if no identifier can be made.
unfoldable pub assigned : Log → Option String → Time → Record → Option Record
assigned l new_id now r =
    let at = if is_zero r.at then now else r.at in
    let seq = add64 l.seq_ctr (pos 1) in
    if str_eq r.id ""
    then elim new_id [ none ↦ none | some i ↦ some (record r { id = i; at = at; seq = seq }) ]
    else some (record r { at = at; seq = seq })

unfoldable pub keep_record : Log → Record → Log
keep_record l r =
    let records = l.records ++ r ∷ [] in
    record l {
      seq_ctr = r.seq;
      records = if ltb l.max_keep (length records) then last_n l.max_keep records else records;
    }

-- `Append`; `new_id` is the identifier generator's answer and `now` the time.
unfoldable pub append : Log → Option String → Time → Record → Option (Log × Record)
append l new_id now r = elim (assigned l new_id now r) [
  | none ↦ none
  | some r' ↦ some (keep_record l r', r')
]

-- One test of `matches`: an empty text asks for nothing.
unfoldable pub is_asked : String → String → Bool
is_asked wanted found = str_eq wanted "" || str_eq found wanted

unfoldable pub matches : Filter → Record → Bool
matches f r =
    if not (is_asked f.target r.target)
    then false
    else if not (is_asked f.actor r.actor)
    then false
    else if not (is_asked f.session_id r.session_id)
    then false
    else if not (is_asked f.action r.action)
    then false
    else if not (is_asked f.outcome r.outcome)
    then false
    else if not (is_zero f.since) && ltb r.at f.since
    then false
    else if not (is_zero f.until) && not (ltb r.at f.until)
    then false
    else true

unfoldable pub limit_or_default : ℤ → ℕ
limit_or_default limit = if leb_ℤ limit (pos 0) then 100 else pos_part limit

unfoldable pub query_filter : Log → Filter → ℤ → List Record
query_filter l f limit =
    let n = limit_or_default limit in
    let out = keep (matches f) l.records in if ltb n (length out) then last_n n out else out

unfoldable pub query : Log → String → ℤ → List Record
query l target limit =
    query_filter l
      (record {
        actor = "";
        session_id = "";
        action = "";
        target = target;
        outcome = "";
        since = 0;
        until = 0;
      })
      limit

-- ===== src/Event.antt =====
-- internal/event/event.go: the in-memory event bus. Texts that the bus cuts are lists of bytes.
pub mod Truncate
pub mod Retention
pub mod Cursor
mod Tests
use pmmcp.Prelude.Newest.{last_n}
use pmmcp.Prelude.{
  ℕ, zero, suc, String, Bool, not, ◌&&◌, ◌||◌, Option, none, some, List, [], ◌∷◌, ◌++◌, str_eq, ltb,
  leb, ◌==◌, if◌then◌else◌, length, take, get_or, keep,
}
use Prim.Native.Nat.{bit_and}
use pmmcp.Prelude.Int.{ℤ, pos, pos_part, ltb_ℤ, leb_ℤ, add64}
use pmmcp.Prelude.Time.{Time, is_zero}

abbrev pub Bytes : Type 0
Bytes = List ℕ

pub record Event : Type 0 where
  pub seq : ℤ
  pub id : String
  pub kind : String
  pub process_id : String
  pub group_id : String
  pub session_id : String
  pub severity : String
  pub project_id : String
  pub message : Bytes
  pub at : Time

-- The bus with no database behind it.
pub record Bus : Type 0 where
  pub events : List Event
  pub seq_ctr : ℤ
  pub max_keep : ℕ
  pub max_age : ℤ
  pub max_payload : ℤ

abbrev pub default_max_events : ℕ
default_max_events = 100000

unfoldable pub new_bus : ℤ → Bus
new_bus max_keep = record {
  events = [];
  seq_ctr = pos 0;
  max_keep = if leb_ℤ max_keep (pos 0) then default_max_events else pos_part max_keep;
  max_age = pos 604800000000000;
  max_payload = pos 16384;
}

-- The options; a value that is not positive is ignored.
pub data Setting : Type 0 where
  with_max_count with_max_age with_max_payload : ℤ → Setting

unfoldable pub configure : Setting → Bus → Bus
configure (with_max_count n) b = if ltb_ℤ (pos 0) n then record b { max_keep = pos_part n } else b
configure (with_max_age d) b = if ltb_ℤ (pos 0) d then record b { max_age = d } else b
configure (with_max_payload n) b = if ltb_ℤ (pos 0) n then record b { max_payload = n } else b

-- "…[truncated]" in UTF-8.
abbrev pub trunc_marker : Bytes
trunc_marker =
    0xE2 ∷ 0x80 ∷ 0xA6 ∷ 0x5B ∷ 0x74 ∷ 0x72 ∷ 0x75 ∷ 0x6E ∷ 0x63 ∷ 0x61 ∷ 0x74 ∷ 0x65 ∷ 0x64 ∷ 0x5D
    ∷ []

unfoldable pub utf8_rune_start : ℕ → Bool
utf8_rune_start b = not (bit_and b 0xC0 == 0x80)

-- `for cut > 0 && !utf8RuneStart(s[cut]) { cut-- }`
unfoldable pub rune_cut : Bytes → ℕ → ℕ
rune_cut s zero = 0
rune_cut s (suc cut) =
    let rest = rune_cut s cut in if utf8_rune_start (get_or s (suc cut) 0) then suc cut else rest

unfoldable pub truncate : Bytes → ℤ → Bytes
truncate s max_bytes =
    if leb_ℤ max_bytes (pos 0) || leb (length s) (pos_part max_bytes)
    then s
    else take (rune_cut s (pos_part max_bytes)) s ++ trunc_marker

-- The event as `Append` stores it; `none` if an identifier is wanted and the generator fails.
unfoldable pub stamp : Bus → Option String → Time → Event → Option Event
stamp b new_id now e =
    let e' = record e {
      at = if is_zero e.at then now else e.at;
      message = truncate e.message b.max_payload;
      seq = add64 b.seq_ctr (pos 1);
    } in
    if str_eq e.id ""
    then elim new_id [ none ↦ none | some eid ↦ some (record e' { id = eid }) ]
    else some e'

unfoldable pub store : Bus → Event → Bus
store b e =
    let events = b.events ++ e ∷ [] in
    record b {
      seq_ctr = e.seq;
      events = if ltb b.max_keep (length events) then last_n b.max_keep events else events;
    }

unfoldable pub append : Bus → Option String → Time → Event → Option (Bus × Event)
unfolding stamp store
append b new_id now e = elim (stamp b new_id now e) [
  | none ↦ none
  | some e' ↦ some (store b e', e')
]

abbrev pub is_of : String → Event → Bool
is_of pid e = str_eq pid "" || str_eq e.process_id pid

abbrev pub limit_or_default : ℤ → ℕ
limit_or_default limit = if leb_ℤ limit (pos 0) then 100 else pos_part limit

-- `Query`: the newest events of a process, oldest first.
unfoldable pub query : Bus → String → ℤ → List Event
query b pid limit =
    let n = limit_or_default limit in
    let out = keep (is_of pid) b.events in if ltb n (length out) then last_n n out else out

-- The loop of `QuerySince`, with its early `break`.
unfoldable pub collect : ℤ → String → ℕ → List Event → List Event → List Event
collect since pid limit [] out = out
collect since pid limit (e ∷ es) out =
    let rest = collect since pid limit es out in
    let more = collect since pid limit es (out ++ e ∷ []) in
    if leb_ℤ e.seq since
    then rest
    else if not (str_eq pid "") && not (str_eq e.process_id pid)
    then rest
    else if leb limit (length (out ++ e ∷ []))
    then out ++ e ∷ []
    else more

unfoldable pub query_since : Bus → ℤ → String → ℤ → List Event
unfolding collect
query_since b since pid limit = collect since pid (limit_or_default limit) b.events []

-- ===== src/Watch.antt =====
-- internal/watch/watch.go: the polling file watcher. The file system is an argument of a tick, and
-- so are the orders in which Go ranges over the two maps. The lock, the channel's receiver and the
-- ticker are outside: a tick is one call of `tick` with the lock held.
pub mod Emission
pub mod Scan
pub mod Delivery
mod Tests
use pmmcp.Prelude.{
  ℕ, String, Bool, true, false, not, ◌&&◌, ◌||◌, Option, none, some, List, [], ◌∷◌, ◌++◌, str_eq,
  ltb, ◌==◌, if◌then◌else◌, length, GoMap, put,
}
use pmmcp.Prelude.Int.{ℤ, pos, leb_ℤ, ltb_ℤ}
use pmmcp.Prelude.Time.{Time, time_sub, is_zero}

pub record FileSnap : Type 0 where
  pub modified : Time
  pub size : ℕ
  pub is_dir : Bool

-- `pendingChange`: the start of a burst and its most recent change.
pub record PendingChange : Type 0 where
  pub first : Time
  pub last : Time

pub record Event : Type 0 where
  pub path : String
  pub at : Time

-- The entries of a directory by name; a name occurs once.
abbrev pub Entries : Type 0
Entries = List (String × FileSnap)

pub record Watcher : Type 0 where
  pub debounce : ℤ
  pub poll : ℤ
  pub max_wait : ℤ
  pub paths : GoMap (Option FileSnap)
  pub dirs : GoMap Entries
  pub pending : GoMap (Option PendingChange)
  pub events : List Event
  pub closed : Bool

-- The answers of `os.Stat` and of `snapshotDir` at the time of a tick; `none` is an error.
pub record FileSystem : Type 0 where
  pub stat : String → Option FileSnap
  pub read_dir : String → Option Entries

abbrev pub event_capacity : ℕ
event_capacity = 64

-- The options; a value that is not positive is ignored.
pub data Setting : Type 0 where
  with_debounce with_poll_interval with_max_wait : ℤ → Setting

unfoldable pub configure : Setting → Watcher → Watcher
configure (with_debounce d) w = if ltb_ℤ (pos 0) d then record w { debounce = d } else w
configure (with_poll_interval d) w = if ltb_ℤ (pos 0) d then record w { poll = d } else w
configure (with_max_wait d) w = if ltb_ℤ (pos 0) d then record w { max_wait = d } else w

unfoldable pub configure_all : List Setting → Watcher → Watcher
configure_all [] w = w
configure_all (o ∷ os) w = configure_all os (configure o w)

unfoldable pub new_watcher : List Setting → Watcher
unfolding configure_all configure
new_watcher os = configure_all os (record {
  debounce = pos 300000000;
  poll = pos 200000000;
  max_wait = pos 0;
  paths = λ _. none;
  dirs = λ _. [];
  pending = λ _. none;
  events = [];
  closed = false;
})

-- `Add` of an absolute path; the answer says whether there was no error. A directory whose entries
-- cannot be read is an error, and is in `paths` nevertheless.
unfoldable pub add : FileSystem → String → Watcher → Watcher × Bool
add fs path w = elim (fs.stat path) [
  | none ↦ (w, false)
  | some info ↦
      let w' = record w { paths = put w.paths path (some info) } in
      if w.closed
      then (w, false)
      else if not info.is_dir
      then (w', true)
      else elim (fs.read_dir path) [
        | none ↦ (w', false)
        | some entries ↦ (record w' { dirs = put w.dirs path entries }, true)
      ]
]

unfoldable pub find_entry : String → Entries → Option FileSnap
find_entry name [] = none
find_entry name ((n, s) ∷ es) = if str_eq name n then some s else find_entry name es

-- Some entry is new, or has another time or size than before.
unfoldable pub entry_differs : Entries → Entries → Bool
entry_differs prev [] = false
entry_differs prev ((name, cs) ∷ cur) =
    let differs : Bool = elim (find_entry name prev) [
      | none ↦ true
      | some ps ↦ not (cs.modified == ps.modified) || not (cs.size == ps.size)
    ] in
    if differs then true else entry_differs prev cur

unfoldable pub dir_changed : FileSystem → String → Watcher → Watcher × Bool
dir_changed fs dir w = elim (fs.read_dir dir) [
  | none ↦ (w, false)
  | some cur ↦
      let prev = w.dirs dir in
      if not (length cur == length prev) || entry_differs prev cur
      then (record w { dirs = put w.dirs dir cur }, true)
      else (w, false)
]

-- The time or the size of a path is not what it was.
abbrev pub differs : FileSnap → FileSnap → Bool
differs info last = not (info.modified == last.modified) || not (info.size == last.size)

abbrev pub burst : Option PendingChange → Time → PendingChange
burst none now = record { first = now; last = now }
burst (some pc) now = record { first = if is_zero pc.first then now else pc.first; last = now }

unfoldable pub mark : Time → String → FileSnap → Watcher → Watcher
mark now path snap w = record w {
  paths = put w.paths path (some snap);
  pending = put w.pending path (some (burst (w.pending path) now));
}

-- The body of the first loop of `tick`.
unfoldable pub scan_one : FileSystem → Time → String → Watcher → Watcher
scan_one fs now path w = elim (w.paths path) [
  | none ↦ w
  | some last ↦ elim (fs.stat path) [
    | none ↦ w
    | some info ↦
        let (w', dir) : Watcher × Bool =
          if last.is_dir then dir_changed fs path w else (w, false) in
        if differs info last || dir
        then mark now path (record info { is_dir = last.is_dir }) w'
        else w'
  ]
]

unfoldable pub scan : FileSystem → Time → List String → Watcher → Watcher
scan fs now [] w = w
scan fs now (path ∷ visit) w = scan fs now visit (scan_one fs now path w)

-- The debounce window has elapsed, or the longest wait is over.
unfoldable pub is_due : Watcher → Time → PendingChange → Bool
is_due w now pc =
    leb_ℤ w.debounce (time_sub now pc.last)
    || (ltb_ℤ (pos 0) w.max_wait && leb_ℤ w.max_wait (time_sub now pc.first))

-- The body of the second loop: a full channel keeps the change for the next tick.
unfoldable pub emit_one : Time → String → Watcher → Watcher
emit_one now path w = elim (w.pending path) [
  | none ↦ w
  | some pc ↦
      if is_due w now pc
      then if ltb (length w.events) event_capacity
        then record w {
          events = w.events ++ record { path = path; at = now } ∷ [];
          pending = put w.pending path none;
        }
        else w
      else w
]

unfoldable pub emit : Time → List String → Watcher → Watcher
emit now [] w = w
emit now (path ∷ visit) w = emit now visit (emit_one now path w)

unfoldable pub tick : FileSystem → Time → List String → List String → Watcher → Watcher
tick fs now paths pending w = if w.closed then w else emit now pending (scan fs now paths w)

unfoldable pub close : Watcher → Watcher
close w = record w { closed = true }

-- The receiver takes the oldest event off the channel.
unfoldable pub receive : Watcher → Watcher
receive w = elim w.events [ [] ↦ w | e ∷ es ↦ record w { events = es } ]

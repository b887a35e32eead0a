-- ===== src/Watch/Tests.antt =====
-- Runs of internal/watch and the theorems about it at a concrete watcher.
use pmmcp.Prelude.{suc, String, ◌≡◌, refl, ◌⊎◌, false, none, some, List, [], ◌∷◌, arith, put}
use pmmcp.Prelude.Int.{pos}
use pmmcp.Prelude.Time.{time_sub}
use pmmcp.Prelude.Occurs.{occ}
use pmmcp.Watch.{
  FileSnap, PendingChange, Watcher, FileSystem, with_debounce, configure, configure_all,
  new_watcher, add, tick, scan, scan_one, mark, emit, emit_one, is_due,
}
use pmmcp.Watch.Emission.{told}
use pmmcp.Watch.Delivery.{tick-records, tick-max_wait}

abbrev before : FileSnap
before = record { modified = 10; size = 3; is_dir = false }

abbrev after : FileSnap
after = record { modified = 20; size = 4; is_dir = false }

-- A file system in which every path has the given time and size, and no directory is readable.
abbrev disk : FileSnap → FileSystem
disk s = record { stat = λ _. some s; read_dir = λ _. none }

-- A watcher of one file, debounced by 100.
abbrev watching : Watcher
watching = (add (disk before) "a.go" (new_watcher (with_debounce (pos 100) ∷ []))).0

abbrev paths : List String
paths = "a.go" ∷ []

abbrev changed : Watcher
changed = tick (disk after) 50 paths [] watching

abbrev marked : PendingChange
marked = record { first = 50; last = 50 }

told-tick : told "a.go" (tick (disk after) 200 paths paths changed).events ≡ 1
unfolding tick scan scan_one mark emit emit_one is_due told add new_watcher configure_all configure
    put time_sub
told-tick = refl

tick_early : told "a.go" (tick (disk after) 149 paths paths changed).events ≡ 0
unfolding tick scan scan_one mark emit emit_one is_due told add new_watcher configure_all configure
    put time_sub
tick_early = refl

tick-records_example :
    ((pc : PendingChange) × (changed.pending "a.go" ≡ some pc)
      × (pc.last ≡ 50)
      × (told "a.go" changed.events ≡ told "a.go" watching.events))
    ⊎ ((changed.pending "a.go" ≡ none)
        × (told "a.go" changed.events ≡ suc (told "a.go" watching.events)))
unfolding add new_watcher configure_all configure put occ
tick-records_example =
    tick-records (disk after) 50 paths [] watching "a.go" refl before after refl refl refl refl

-- The same watcher with a longest wait of 60, which is over before the debounce interval is.
abbrev hasty : Watcher
hasty = record changed { max_wait = pos 60 }

tick-max_wait_example :
    ((tick (disk after) 110 paths paths hasty).pending "a.go" ≡ none)
    × (told "a.go" (tick (disk after) 110 paths paths hasty).events
        ≡ suc (told "a.go" hasty.events))
unfolding tick scan scan_one mark emit add new_watcher configure_all configure put occ
tick-max_wait_example =
    tick-max_wait (disk after) 110 paths paths hasty "a.go" marked 59 refl refl refl (omega arith)
      (omega arith) (omega arith) (omega arith) (omega arith)

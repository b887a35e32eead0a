-- ===== src/Watch/Scan.antt =====
-- The first loop of `tick` in internal/watch/watch.go: which changes it records.
use pmmcp.Prelude.{
  ◌<◌, String, ◌≡◌, refl, ap, ◌∙◌, ◌≢◌, ◌⊎◌, inl, inr, true, Option, none, some, List, [], ◌∷◌,
  arith, str_eq, eq_iff, Bool-cases, Option-cases, put,
}
use pmmcp.Prelude.Time.{Time}
use pmmcp.Prelude.Occurs.{occ}
use pmmcp.Watch.{
  FileSnap, PendingChange, Watcher, FileSystem, dir_changed, differs, mark, scan_one, scan, burst,
}
use pmmcp.Watch.Emission.{SameClock, SameClock-trans}

-- A round of the first loop leaves the channel alone, and what it does to the pending change of a
-- path: nothing, or the burst goes on, and the last change is now.
abbrev Scans : Time → String → Watcher → Watcher → Type 0
Scans now p w w' =
    (w'.events ≡ w.events)
    × SameClock w w'
    × ((w'.pending p ≡ w.pending p) ⊎ (w'.pending p ≡ some (burst (w.pending p) now)))

dir_changed-keeps :
    (fs : FileSystem) (dir : String) (w : Watcher)
    → let w' = (dir_changed fs dir w).0 in
      (w'.events ≡ w.events) × SameClock w w' × (w'.pending ≡ w.pending) × (w'.paths ≡ w.paths)
unfolding dir_changed
dir_changed-keeps fs dir w = elim (Option-cases (fs.read_dir dir)) [
  | inl e ↦ rw (e, dir_changed) (refl, (refl, refl, refl), refl, refl)
  | inr (cur, e) ↦ rw (e, dir_changed) (ground arith)
]

scan_one_lem :
    (fs : FileSystem) (now : Time) (p q : String) (w : Watcher)
    → let w' = scan_one fs now q w in
      Scans now p w w' × (p ≢ q → (w'.pending p ≡ w.pending p) × (w'.paths p ≡ w.paths p))
unfolding scan_one mark put
scan_one_lem fs now p q w = ground (arith, eq_iff p q, dir_changed-keeps fs q w)

last-burst : (o : Option PendingChange) (now : Time) → (burst o now).last ≡ now
last-burst none now = refl
last-burst (some pc) now = refl

-- What the whole first loop does to the pending change of a path: nothing, or a change now.
abbrev pub Scanned : Time → String → Watcher → Watcher → Type 0
Scanned now p w w' =
    (w'.pending p ≡ w.pending p)
    ⊎ ((pc : PendingChange) × (w'.pending p ≡ some pc)
        × (pc.last ≡ now)
        × ((old : PendingChange) → w.pending p ≡ some old → 0 < old.first → pc.first ≡ old.first))

Scanned-step :
    (now : Time) (p : String) (a b c : Watcher)
    → (b.pending p ≡ a.pending p) ⊎ (b.pending p ≡ some (burst (a.pending p) now))
    → Scanned now p b c
    → Scanned now p a c
Scanned-step now p a b c (inl k) (inl k') = inl (k' ∙ k)
Scanned-step now p a b c (inl k) (inr (pc, e, l, f)) = inr (pc, e, l, λ old o h. f old (k ∙ o) h)
Scanned-step now p a b c (inr k) (inl k') =
    inr (
      burst (a.pending p) now,
      k' ∙ k,
      last-burst (a.pending p) now,
      λ old o h. rw o (ground arith),
    )
Scanned-step now p a b c (inr k) (inr (pc, e, l, f)) = inr (
  pc,
  e,
  l,
  λ old o h.
      let same : (burst (a.pending p) now).first ≡ old.first = rw o (ground arith) in
      f (burst (a.pending p) now) k (rw same h) ∙ same,
)

pub scan_lem :
    (fs : FileSystem) (now : Time) (p : String) (visit : List String) (w : Watcher)
    → ((scan fs now visit w).events ≡ w.events)
      × SameClock w (scan fs now visit w)
      × Scanned now p w (scan fs now visit w)
unfolding scan
scan_lem fs now p [] w = (refl, (refl, refl, refl), inl refl)
scan_lem fs now p (q ∷ visit) w =
    let w1 = scan_one fs now q w in
    let w2 = scan fs now visit w1 in
    let (events, clock, moved) = (scan_one_lem fs now p q w).0 in
    let (events', clock', moved') = scan_lem fs now p visit w1 in
    (
      events' ∙ events,
      SameClock-trans w w1 w2 clock clock',
      Scanned-step now p w w1 w2 moved moved',
    )

scan-absent :
    (fs : FileSystem) (now : Time) (p : String) (visit : List String) (w : Watcher)
    → occ p visit ≡ 0
    → (scan fs now visit w).pending p ≡ w.pending p
unfolding scan occ
scan-absent fs now p [] w h = refl
scan-absent fs now p (q ∷ visit) w h = ground (
  arith,
  scan-absent fs now p visit (scan_one fs now q w),
  (scan_one_lem fs now p q w).1,
  eq_iff p q,
)

-- A watched path whose time or size changed is marked with the present.
scan_one-marks :
    (fs : FileSystem) (now : Time) (p : String) (w : Watcher) (last info : FileSnap)
    → w.paths p ≡ some last
    → fs.stat p ≡ some info
    → differs info last ≡ true
    → (pc : PendingChange) × ((scan_one fs now p w).pending p ≡ some pc) × (pc.last ≡ now)
unfolding scan_one mark put
scan_one-marks fs now p w last info watched found changed = (
  burst (w.pending p) now,
  ground (arith, eq_iff p p, dir_changed-keeps fs p w, ap (λ f. f p) (dir_changed-keeps fs p w).2),
  last-burst (w.pending p) now,
)

pub scan-marks :
    (fs : FileSystem) (now : Time) (p : String) (visit : List String) (w : Watcher)
    (last info : FileSnap)
    → occ p visit ≡ 1
    → w.paths p ≡ some last
    → fs.stat p ≡ some info
    → differs info last ≡ true
    → (pc : PendingChange) × ((scan fs now visit w).pending p ≡ some pc) × (pc.last ≡ now)
unfolding scan occ
scan-marks fs now p [] w last info h watched found changed = absurd (omega arith)
scan-marks fs now p (q ∷ visit) w last info h watched found changed =
    elim (Bool-cases (str_eq p q)) [
      | inl same ↦
          let e : p ≡ q = (eq_iff p q).0 same in
          let (pc, marked, l) = scan_one-marks fs now p w last info watched found changed in
          (
            pc,
            rw (← e)
                (scan-absent fs now p visit (scan_one fs now p w) (ground (arith, same)) ∙ marked),
            l,
          )
      | inr other ↦
          let ne : p ≢ q = λ e. ground (arith, other, (eq_iff p q).1 e) in
          scan-marks fs now p visit (scan_one fs now q w) last info (ground (arith, other))
            (((scan_one_lem fs now p q w).1 ne).1 ∙ watched) found changed
    ]

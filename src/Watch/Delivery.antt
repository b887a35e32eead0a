-- ===== src/Watch/Delivery.antt =====
-- What the watcher promises about a path over one tick: no change is lost, none is told before it is
-- due, and a longest wait is kept.
use pmmcp.Prelude.{
  ℕ, suc, ◌+◌, ◌≤◌, ◌<◌, String, ◌≡◌, refl, sym, ap, ◌∙◌, ◌≢◌, ◌⊎◌, inl, inr, true, false, none,
  some, List, [], ◌∷◌, arith, str_eq, eq_iff, Bool-cases, length, length-append, put,
}
use pmmcp.Prelude.Int.{pos, max_int64}
use pmmcp.Prelude.Time.{Time, time_sub}
use pmmcp.Prelude.Occurs.{occ}
use pmmcp.Watch.{
  FileSnap, PendingChange, Watcher, FileSystem, differs, scan, is_due, emit_one, emit, tick,
  event_capacity,
}
use pmmcp.Watch.Emission.{told, SameClock, emit-Emits, is_due-clock}
use pmmcp.Watch.Scan.{Scanned, scan_lem, scan-marks}

module _ (fs : FileSystem) (now : Time) (paths pending : List String) (w : Watcher) (p : String)
    (live : w.closed ≡ false) where
  tick_split : tick fs now paths pending w ≡ emit now pending (scan fs now paths w)
  tick_split = unfold tick in rw live

  scanned_told : told p (scan fs now paths w).events ≡ told p w.events
  scanned_told = ap (told p) (scan_lem fs now p paths w).0

  -- A change of the time or the size of a watched path is never lost: after the tick that sees it,
  -- either it is pending, with the present as its last change, or the path has just been told of
  -- once more.
  pub tick-records :
      (last info : FileSnap)
      → occ p paths ≡ 1
      → w.paths p ≡ some last
      → fs.stat p ≡ some info
      → differs info last ≡ true
      → let w' = tick fs now paths pending w in
        ((pc : PendingChange) × (w'.pending p ≡ some pc)
          × (pc.last ≡ now)
          × (told p w'.events ≡ told p w.events))
        ⊎ ((w'.pending p ≡ none) × (told p w'.events ≡ suc (told p w.events)))
  tick-records last info once watched found changed =
      let (pc, marked, l) = scan-marks fs now p paths w last info once watched found changed in
      rw tick_split (elim (emit-Emits now p pending (scan fs now paths w)).0 [
        | inl (kept, same) ↦ inl (pc, kept ∙ marked, l, same ∙ scanned_told)
        | inr (pc', e, due, gone, more) ↦ inr (gone, more ∙ ap suc scanned_told)
      ])

  -- A pending change stays pending until the path is told of, also while the channel is full.
  pub tick-keeps :
      (pc : PendingChange)
      → w.pending p ≡ some pc
      → let w' = tick fs now paths pending w in
        ((pc' : PendingChange) × (w'.pending p ≡ some pc') × (told p w'.events ≡ told p w.events))
        ⊎ ((w'.pending p ≡ none) × (told p w'.events ≡ suc (told p w.events)))
  tick-keeps pc e =
      let (events, clock, moved) = scan_lem fs now p paths w in
      rw tick_split (elim (emit-Emits now p pending (scan fs now paths w)).0 [
        | inl (kept, same) ↦ elim moved [
          | inl k ↦ inl (pc, kept ∙ k ∙ e, same ∙ scanned_told)
          | inr (pc', k, l, f) ↦ inl (pc', kept ∙ k, same ∙ scanned_told)
        ]
        | inr (pc', k, due, gone, more) ↦ inr (gone, more ∙ ap suc scanned_told)
      ])

  -- Without a longest wait, a path is told of only when it has been quiet for the debounce interval:
  -- its change was pending before the tick, and that interval has passed since the last change.
  pub tick-quiet :
      (d : ℕ)
      → w.debounce ≡ pos (suc d)
      → w.max_wait ≡ pos 0
      → told p (tick fs now paths pending w).events ≢ told p w.events
      → (pc : PendingChange) × (w.pending p ≡ some pc) × (pc.last + suc d ≤ now)
  tick-quiet d deb cap news =
      let (events, clock, moved) = scan_lem fs now p paths w in
      elim (emit-Emits now p pending (scan fs now paths w)).0 [
        | inl (kept, same) ↦
            absurd (news (ap (λ (v : Watcher). told p v.events) tick_split ∙ same ∙ scanned_told))
        | inr (pc, e, due, gone, more) ↦ elim moved [
          | inl k ↦ (pc, sym k ∙ e, quiet_since pc (sym (is_due-clock w _ now pc clock) ∙ due))
          | inr (pc', k, l, f) ↦
              absurd
                (not_now pc (ground (arith, k, e, l)) (sym (is_due-clock w _ now pc clock) ∙ due))
        ]
      ]
    where
      quiet_since : (pc : PendingChange) → is_due w now pc ≡ true → pc.last + suc d ≤ now
      quiet_since pc due = unfold is_due time_sub in ground (arith, due, deb, cap)

      not_now : (pc : PendingChange) → pc.last ≡ now → is_due w now pc ≡ true → ⊥
      not_now pc l due = unfold is_due time_sub in ground (arith, due, deb, cap)

-- The second loop tells of a due path whenever the channel has room for all of its rounds.
length-emit_one :
    (now : Time) (q : String) (w : Watcher)
    → length (emit_one now q w).events ≤ suc (length w.events)
unfolding emit_one
length-emit_one now q w =
    ground (arith, length-append w.events (record { path = q; at = now } ∷ []))

emit_one-other :
    (now : Time) (p q : String) (w : Watcher) → p ≢ q → (emit_one now q w).pending p ≡ w.pending p
unfolding emit_one put
emit_one-other now p q w ne = ground (arith, eq_iff p q)

emit_one-due :
    (now : Time) (p : String) (w : Watcher) (pc : PendingChange)
    → w.pending p ≡ some pc
    → is_due w now pc ≡ true
    → length w.events < event_capacity
    → (emit_one now p w).pending p ≡ none
unfolding emit_one put
emit_one-due now p w pc e due room = rw (e, emit_one) (ground (arith, eq_iff p p, due))

stays_none :
    (now : Time) (p : String) (visit : List String) (w : Watcher)
    → w.pending p ≡ none
    → (emit now visit w).pending p ≡ none
stays_none now p visit w e = elim (emit-Emits now p visit w).0 [
  | inl (k, t) ↦ k ∙ e
  | inr (pc, k, due, gone, t) ↦ gone
]

emit-due :
    (now : Time) (p : String) (visit : List String) (w : Watcher) (pc : PendingChange)
    → 0 < occ p visit
    → w.pending p ≡ some pc
    → is_due w now pc ≡ true
    → length w.events + length visit ≤ event_capacity
    → (emit now visit w).pending p ≡ none
unfolding emit occ
emit-due now p [] w pc h e due room = absurd (omega arith)
emit-due now p (q ∷ visit) w pc h e due room = elim (Bool-cases (str_eq p q)) [
  | inl same ↦
      let k : p ≡ q = (eq_iff p q).0 same in
      rw (← k)
        (stays_none now p visit (emit_one now p w) (emit_one-due now p w pc e due (omega arith)))
  | inr other ↦
      let ne : p ≢ q = λ k. ground (arith, other, (eq_iff p q).1 k) in
      emit-due now p visit (emit_one now q w) pc (ground (arith, other))
        (emit_one-other now p q w ne ∙ e)
        (is_due-clock w (emit_one now q w) now pc (emit-Emits_one q) ∙ due)
        (omega (arith, length-emit_one now q w))
]
  where
    emit-Emits_one : (r : String) → SameClock w (emit_one now r w)
    emit-Emits_one r = unfold emit in (emit-Emits now r (r ∷ []) w).1

-- With a longest wait, a path that keeps changing is told of all the same: at any tick by which the
-- wait since the start of its burst is over, if the channel has room for every pending path.
pub tick-max_wait :
    (fs : FileSystem) (now : Time) (paths pending : List String) (w : Watcher) (p : String)
    (pc : PendingChange) (m : ℕ)
    → w.closed ≡ false
    → w.max_wait ≡ pos (suc m)
    → w.pending p ≡ some pc
    → 0 < pc.first
    → pc.first + suc m ≤ now
    → suc m ≤ max_int64
    → 0 < occ p pending
    → length w.events + length pending ≤ event_capacity
    → ((tick fs now paths pending w).pending p ≡ none)
      × (told p (tick fs now paths pending w).events ≡ suc (told p w.events))
tick-max_wait fs now paths pending w p pc m live cap e begun over small visited room =
    let s = scan fs now paths w in
    let (events, clock, moved) = scan_lem fs now p paths w in
    let (pc', e', f) = still moved in
    let due : is_due s now pc' ≡ true = is_due-clock w s now pc' clock ∙ capped pc' f in
    let gone = emit-due now p pending s pc' visited e' due (rw events room) in
    rw (tick_split fs now paths pending w p live) (
      gone,
      elim (emit-Emits now p pending s).0 [
        | inl (kept, same) ↦ absurd (ground (arith, gone, kept, e'))
        | inr (pc'', k, d, g, more) ↦ more ∙ ap suc (ap (told p) events)
      ],
    )
  where
    still :
        Scanned now p w (scan fs now paths w)
        → (pc' : PendingChange) × ((scan fs now paths w).pending p ≡ some pc')
          × (pc'.first ≡ pc.first)
    still (inl k) = (pc, k ∙ e, refl)
    still (inr (pc', k, l, f)) = (pc', k, f pc e begun)

    capped : (c : PendingChange) → c.first ≡ pc.first → is_due w now c ≡ true
    capped c f = unfold is_due time_sub in ground (arith, cap, f)

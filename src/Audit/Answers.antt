-- ===== src/Audit/Answers.antt =====
-- What a query of the audit log (internal/audit) answers after any appended records.
use pmmcp.Prelude.{
  ℕ, ◌-◌, ◌<◌, String, ◌≡◌, refl, sym, ◌∙◌, inl, inr, Option, none, some, List, [], ◌∷◌, ◌++◌,
  arith, ltb, if◌then◌else◌, Bool-cases, Option-cases, length, keep,
}
use pmmcp.Prelude.Int.{ℤ}
use pmmcp.Prelude.Time.{Time}
use pmmcp.Prelude.Newest.{last_n, last_n-snoc, drop-zero, drop-nil}
use pmmcp.Audit.{
  Record, Filter, Log, new_log, assigned, keep_record, append, matches, limit_or_default,
  query_filter,
}
use mathlib.Core.List.{append-nil, append_assoc}
use mathlib.Core.Path.{subst}

-- A call of `Append`, with the identifier generator's answer and the time.
pub record Call : Type 0 where
  pub given : Record
  pub new_id : Option String
  pub now : Time

-- The calls in order, and the records that they return; a call that fails appends nothing.
unfoldable pub append_all : Log → List Call → Log × List Record
append_all l [] = (l, [])
append_all l (c ∷ cs) = elim (append l c.new_id c.now c.given) [
  | none ↦ append_all l cs
  | some (l', r) ↦ let (l'', rs) = append_all l' cs in (l'', r ∷ rs)
]

-- A log of n records holds the newest of the history h.
record Holds (n : ℕ) (l : Log) (h : List Record) : Type 0 where
  capacity : 0 < n
  kept : l.max_keep ≡ n
  newest : l.records ≡ last_n n h

-- A cut to the newest n of a list that may be short enough is the newest n.
last_n-cut :
    {A : Type 0} (n : ℕ) (xs : List A)
    → (if ltb n (length xs) then last_n n xs else xs) ≡ last_n n xs
last_n-cut n xs = elim (Bool-cases (ltb n (length xs))) [
  | inl full ↦ rw full refl
  | inr room ↦ rw room (sym (drop-zero (length xs - n) xs (ground arith)))
]

keep_record-Holds :
    (n : ℕ) (l : Log) (h : List Record) (r : Record)
    → Holds n l h
    → Holds n (keep_record l r) (h ++ r ∷ [])
unfolding keep_record
keep_record-Holds n l h r w = record {
  capacity = w.capacity;
  kept = w.kept;
  newest =
      last_n-cut l.max_keep (l.records ++ r ∷ [])
      ∙ (λ i. last_n (w.kept i) (w.newest i ++ r ∷ []))
      ∙ last_n-snoc n h r w.capacity;
}

append_all-Holds :
    (n : ℕ) (cs : List Call) (l : Log) (h : List Record)
    → Holds n l h
    → Holds n (append_all l cs).0 (h ++ (append_all l cs).1)
unfolding append_all append
append_all-Holds n [] l h w = subst (Holds n l) (sym (append-nil h)) w
append_all-Holds n (c ∷ cs) l h w = elim (Option-cases (assigned l c.new_id c.now c.given)) [
  | inl e ↦ rw (append_all, append, e) (append_all-Holds n cs l h w)
  | inr (r, e) ↦
      let l' = keep_record l r in
      let rest = append_all-Holds n cs l' (h ++ r ∷ []) (keep_record-Holds n l h r w) in
      rw (append_all, append, e)
        (subst (Holds n (append_all l' cs).0) (append_assoc h (r ∷ []) (append_all l' cs).1) rest)
]

new_log-Holds : (max_keep : ℤ) → Holds (new_log max_keep).max_keep (new_log max_keep) []
unfolding new_log
new_log-Holds max_keep = record {
  capacity = ground arith;
  kept = refl;
  newest = sym (drop-nil (0 - (new_log max_keep).max_keep));
}

-- A query of a new log, after any calls of `Append`, answers with the newest of the records that match
-- its filter, in order: of the records that the calls returned the log looks at the newest, as many as
-- it was made for, and of those that match it returns the newest, as many as the limit says.
pub query_filter-newest :
    (max_keep limit : ℤ) (cs : List Call) (f : Filter)
    → let (l, returned) = append_all (new_log max_keep) cs in
      query_filter l f limit
      ≡ last_n
          (limit_or_default limit)
          (keep (matches f) (last_n (new_log max_keep).max_keep returned))
unfolding query_filter
query_filter-newest max_keep limit cs f =
    let l = (append_all (new_log max_keep) cs).0 in
    let w =
      append_all-Holds (new_log max_keep).max_keep cs (new_log max_keep) []
        (new_log-Holds max_keep) in
    last_n-cut (limit_or_default limit) (keep (matches f) l.records)
    ∙ (λ i. last_n (limit_or_default limit) (keep (matches f) (w.newest i)))

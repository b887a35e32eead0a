-- ===== src/Daemon/Paging.antt =====
-- internal/daemon/server.go: a list that is asked for in pages (`doList`).
use pmmcp.Prelude.{
  ℕ, zero, suc, ◌+◌, String, ◌≡◌, refl, sym, ap, ◌∙◌, ◌≢◌, ◌⊎◌, inl, inr, true, false, List, [],
  ◌∷◌, ◌++◌, arith, str_eq, eq_iff, Bool-cases,
}
use mathlib.Core.Path.{subst}
use pmmcp.Domain.{Process}
use pmmcp.Store.{Filter, list, has_id}
use pmmcp.Store.Unique.{IsTable}
use pmmcp.Daemon.{to_view, Host, Server}
use pmmcp.Daemon.Read.{ListPayload, is_shown, collect_views, list_limit, list_project, do_list}
use pmmcp.Daemon.Apart.{AllApart, has_id-list, list-AllApart, has_id-blank}
use pmmcp.Daemon.Cursor.{
  last_id, last_id-any, List-cases, views_of, page, collect-past, collect-shown, collect-hidden,
  last_id-known, collect-seek, collect-found, collect-beyond,
}

-- A page, and the page behind its last view, are one longer page.
collect-pages :
    (pl : ListPayload) (limit n m : ℕ) (ps : List Process)
    → AllApart ps
    → collect_views pl n true ps ≢ []
    → collect_views pl n true ps
        ++ collect_views (page pl (last_id "" (collect_views pl n true ps)) limit) (suc m) false ps
      ≡ collect_views pl (n + suc m) true ps
unfolding to_view
collect-pages pl limit n m [] w full = absurd (full (unfold collect_views in refl))
collect-pages pl limit zero m (p ∷ ps) w full = absurd (full (unfold collect_views in refl))
collect-pages pl limit (suc n) m (p ∷ ps) (apart, w) full = elim (Bool-cases (is_shown pl p)) [
  | inr hidden ↦
      let step = collect-hidden pl n p ps hidden in
      let more : collect_views pl (suc n) true ps ≢ [] = λ e. full (step ∙ e) in
      subst
        (λ vs.
          vs ++ collect_views (page pl (last_id "" vs) limit) (suc m) false (p ∷ ps)
          ≡ collect_views pl (suc n + suc m) true (p ∷ ps))
        (sym step)
        (ap (λ vs. collect_views pl (suc n) true ps ++ vs)
            (collect-seek pl (last_id "" (collect_views pl (suc n) true ps)) limit m p ps apart
              (last_id-known pl (suc n) ps more))
          ∙ (collect-pages pl limit (suc n) m ps w more
              ∙ sym (
                  subst (λ x. collect_views pl x true (p ∷ ps) ≡ collect_views pl x true ps)
                    (sym moved) (collect-hidden pl (n + suc m) p ps hidden))))
  | inl shown ↦
      subst
        (λ vs.
          vs ++ collect_views (page pl (last_id "" vs) limit) (suc m) false (p ∷ ps)
          ≡ collect_views pl (suc n + suc m) true (p ∷ ps))
        (sym (collect-shown pl n p ps shown))
        ((ap (λ vs. to_view p ∷ vs)
            (tail_pages (λ more. collect-pages pl limit n m ps w more)
              (List-cases (collect_views pl n true ps)))
          ∙ sym (
              subst
                (λ x.
                  collect_views pl x true (p ∷ ps)
                  ≡ to_view p ∷ collect_views pl (n + suc m) true ps)
                (sym moved) (collect-shown pl (n + suc m) p ps shown))))
]
  where
    moved : suc n + suc m ≡ suc (n + suc m)
    moved = omega arith

    tail_pages :
        (collect_views pl n true ps ≢ []
          → collect_views pl n true ps
              ++ collect_views
                  (page pl (last_id "" (collect_views pl n true ps)) limit)
                  (suc m)
                  false
                  ps
            ≡ collect_views pl (n + suc m) true ps)
        → (collect_views pl n true ps ≡ []) ⊎ (collect_views pl n true ps ≢ [])
        → collect_views pl n true ps
            ++ collect_views
                (page pl (last_id p.id (collect_views pl n true ps)) limit)
                (suc m)
                false
                (p ∷ ps)
          ≡ collect_views pl (n + suc m) true ps
    tail_pages behind (inl none_left) =
        subst
          (λ vs.
            vs ++ collect_views (page pl (last_id p.id vs) limit) (suc m) false (p ∷ ps)
            ≡ collect_views pl (n + suc m) true ps)
          (sym none_left) (collect-found pl limit m p ps ∙ collect-beyond pl n m ps none_left)
    tail_pages behind (inr more) =
        subst
          (λ i.
            collect_views pl n true ps ++ collect_views (page pl i limit) (suc m) false (p ∷ ps)
            ≡ collect_views pl (n + suc m) true ps)
          (last_id-any "" p.id (collect_views pl n true ps) more)
          (ap (λ vs. collect_views pl n true ps ++ vs)
              (collect-seek pl (last_id "" (collect_views pl n true ps)) limit m p ps apart
                (last_id-known pl n ps more))
            ∙ behind more)

-- A list can be read in pages: what a request answers, followed by what the same request answers
-- with the last identifier of that page as its cursor, is what one request with both limits answers.
-- No record is told of twice and none is passed over, whatever the filters. (The store keeps its
-- constraints and does not change in between, and the first page is not empty.)
pub do_list-pages :
    (h : Host) (pl : ListPayload) (s : Server) (n m : ℕ)
    → IsTable s.store
    → views_of (do_list h (page pl "" (suc n)) s).1 ≢ []
    → views_of (do_list h (page pl "" (suc n)) s).1
        ++ views_of
            (do_list h
              (page pl (last_id "" (views_of (do_list h (page pl "" (suc n)) s).1)) (suc m))
              s).1
      ≡ views_of (do_list h (page pl "" (suc n + suc m)) s).1
do_list-pages h pl s n m w full =
    subst
      (λ vs.
        vs ++ views_of (do_list h (page pl (last_id "" vs) (suc m)) s).1
        ≡ views_of (do_list h (page pl "" (suc n + suc m)) s).1)
      (sym (first_page n))
      (ap (λ vs. collect_views pl (suc n) true rows ++ vs)
          (answered (last_id "" (collect_views pl (suc n) true rows)) m
            ∙ ap
                (λ b.
                  collect_views (page pl (last_id "" (collect_views pl (suc n) true rows)) (suc m))
                    (suc m) b rows)
                (is_set (last_id "" (collect_views pl (suc n) true rows))
                  (last_id-known pl (suc n) rows some_shown)))
        ∙ (collect-pages pl (suc m) (suc n) m rows (list-AllApart filter s.store w) some_shown
            ∙ sym whole))
  where
    filter : Filter
    filter = record { project_id = list_project h pl; status = pl.status; name = "" }

    rows : List Process
    rows = list filter s.store

    answered :
        (c : String) (k : ℕ)
        → views_of (do_list h (page pl c (suc k)) s).1
          ≡ collect_views (page pl c (suc k)) (suc k) (str_eq c "") rows
    answered c k =
        unfold do_list views_of list_project in
        ap (λ x. collect_views (page pl c (suc k)) x (str_eq c "") rows) limited
      where
        limited : list_limit (page pl c (suc k)) ≡ suc k
        limited = unfold list_limit in ground arith

    first_page :
        (k : ℕ) → views_of (do_list h (page pl "" (suc k)) s).1 ≡ collect_views pl (suc k) true rows
    first_page k = answered "" k ∙ collect-past pl "" (suc k) (suc k) rows

    some_shown : collect_views pl (suc n) true rows ≢ []
    some_shown e = full (first_page n ∙ e)

    whole :
        views_of (do_list h (page pl "" (suc n + suc m)) s).1
        ≡ collect_views pl (suc n + suc m) true rows
    whole =
        subst (λ k. views_of (do_list h (page pl "" k) s).1 ≡ collect_views pl k true rows)
          (sym moved) (first_page (n + suc m))
      where
        moved : suc n + suc m ≡ suc (n + suc m)
        moved = omega arith

    is_set : (c : String) → has_id c rows ≡ true → str_eq c "" ≡ false
    is_set c known = elim (Bool-cases (str_eq c "")) [
      | inr e ↦ e
      | inl e ↦ absurd (
          ground (
            arith,
            ap (λ i. has_id i rows) ((eq_iff c "").0 e),
            known,
            has_id-list "" filter s.store (has_id-blank s.store w),
          ))
    ]

-- ===== src/Daemon/Cursor.antt =====
-- internal/daemon/server.go: the loop of `doList` and its cursor.
use pmmcp.Prelude.{
  ℕ, zero, suc, ◌+◌, String, ◌≡◌, refl, sym, ap, ◌∙◌, ◌≢◌, ◌⊎◌, inl, inr, true, false, List, [],
  ◌∷◌, arith, str_eq, eq_iff, if◌then◌else◌, Bool-cases,
}
use mathlib.Core.Path.{subst}
use pmmcp.Prelude.Int.{pos}
use pmmcp.Domain.{Process}
use pmmcp.Store.{has_id}
use pmmcp.Daemon.{ProcessView, to_view, views, Response, answer}
use pmmcp.Daemon.Read.{ListPayload, is_shown, collect_views}

-- The identifier of the last view of a page.
abbrev pub last_id : String → List ProcessView → String
last_id i [] = i
last_id i (v ∷ vs) = last_id v.id vs

unfoldable pub views_of : Response → List ProcessView
views_of (answer (views vs)) = vs
views_of other = []

pub last_id-any : (i j : String) (vs : List ProcessView) → vs ≢ [] → last_id i vs ≡ last_id j vs
last_id-any i j [] full = absurd (full refl)
last_id-any i j (v ∷ vs) full = refl

pub List-cases : (vs : List ProcessView) → (vs ≡ []) ⊎ (vs ≢ [])
List-cases [] = inl refl
List-cases (v ∷ vs) = inr (λ e. cc)

-- A request with another cursor and another limit.
abbrev pub page : ListPayload → String → ℕ → ListPayload
page pl cursor limit = record pl { cursor = cursor; limit = pos limit }

module _ (pl : ListPayload) where
  pub collect-past :
      (cursor : String) (limit n : ℕ) (ps : List Process)
      → collect_views (page pl cursor limit) n true ps ≡ collect_views pl n true ps
  unfolding collect_views is_shown
  collect-past cursor limit zero [] = refl
  collect-past cursor limit (suc n) [] = refl
  collect-past cursor limit zero (p ∷ ps) = refl
  collect-past cursor limit (suc n) (p ∷ ps) = λ i.
      if is_shown pl p
      then to_view p ∷ collect-past cursor limit n ps i
      else collect-past cursor limit (suc n) ps i

  pub collect-nothing :
      (k j : ℕ) (ps : List Process)
      → collect_views pl (suc k) true ps ≡ []
      → collect_views pl j true ps ≡ []
  unfolding collect_views
  collect-nothing k j [] e = refl
  collect-nothing k zero (p ∷ ps) e = refl
  collect-nothing k (suc j) (p ∷ ps) e = elim (Bool-cases (is_shown pl p)) [
    | inl shown ↦ absurd (ground (arith, shown, e))
    | inr hidden ↦ ground (arith, hidden, collect-nothing k (suc j) ps (ground (arith, hidden, e)))
  ]

  pub collect-shown :
      (n : ℕ) (p : Process) (ps : List Process)
      → is_shown pl p ≡ true
      → collect_views pl (suc n) true (p ∷ ps) ≡ to_view p ∷ collect_views pl n true ps
  unfolding collect_views
  collect-shown n p ps shown = ground (arith, shown)

  pub collect-hidden :
      (n : ℕ) (p : Process) (ps : List Process)
      → is_shown pl p ≡ false
      → collect_views pl (suc n) true (p ∷ ps) ≡ collect_views pl (suc n) true ps
  unfolding collect_views
  collect-hidden n p ps hidden = ground (arith, hidden)

  pub last_id-known :
      (n : ℕ) (ps : List Process)
      → collect_views pl n true ps ≢ []
      → has_id (last_id "" (collect_views pl n true ps)) ps ≡ true
  unfolding has_id to_view
  last_id-known n [] full = absurd (full (unfold collect_views in refl))
  last_id-known zero (p ∷ ps) full = absurd (full (unfold collect_views in refl))
  last_id-known (suc n) (p ∷ ps) full = elim (Bool-cases (is_shown pl p)) [
    | inr hidden ↦
        let step = collect-hidden n p ps hidden in
        ground (
          arith,
          ap (λ vs. has_id (last_id "" vs) ps) step,
          last_id-known (suc n) ps (λ e. full (step ∙ e)),
        )
    | inl shown ↦ elim (List-cases (collect_views pl n true ps)) [
      | inl none_left ↦
          subst (λ vs. has_id (last_id "" vs) (p ∷ ps) ≡ true)
            (sym (collect-shown n p ps shown ∙ ap (λ vs. to_view p ∷ vs) none_left))
            (ground (arith, eq_iff p.id p.id))
      | inr more ↦
          subst (λ vs. has_id (last_id "" vs) (p ∷ ps) ≡ true) (sym (collect-shown n p ps shown))
            (subst (λ i. has_id i (p ∷ ps) ≡ true)
              (last_id-any "" p.id (collect_views pl n true ps) more)
              (ground (arith, last_id-known n ps more)))
    ]
  ]

  -- The search for the cursor goes past a record that is not the one.
  pub collect-seek :
      (cursor : String) (limit m : ℕ) (p : Process) (ps : List Process)
      → has_id p.id ps ≡ false
      → has_id cursor ps ≡ true
      → collect_views (page pl cursor limit) (suc m) false (p ∷ ps)
        ≡ collect_views (page pl cursor limit) (suc m) false ps
  unfolding collect_views
  collect-seek cursor limit m p ps apart known =
      ap (λ b. collect_views (page pl cursor limit) (suc m) b ps) other
    where
      other : str_eq p.id cursor ≡ false
      other = elim (Bool-cases (str_eq p.id cursor)) [
        | inr e ↦ e
        | inl e ↦
            absurd (ground (arith, ap (λ i. has_id i ps) ((eq_iff p.id cursor).0 e), apart, known))
      ]

  pub collect-found :
      (limit m : ℕ) (p : Process) (ps : List Process)
      → collect_views (page pl p.id limit) (suc m) false (p ∷ ps) ≡ collect_views pl (suc m) true ps
  unfolding collect_views
  collect-found limit m p ps =
      ap (λ b. collect_views (page pl p.id limit) (suc m) b ps) ((eq_iff p.id p.id).1 refl)
      ∙ collect-past p.id limit (suc m) ps

  -- Behind an empty page there is nothing, unless it was empty by its limit.
  pub collect-beyond :
      (n m : ℕ) (ps : List Process)
      → collect_views pl n true ps ≡ []
      → collect_views pl (suc m) true ps ≡ collect_views pl (n + suc m) true ps
  collect-beyond zero m ps e = ap (λ x. collect_views pl x true ps) (omega arith)
  collect-beyond (suc n) m ps e =
      collect-nothing n (suc m) ps e ∙ sym (collect-nothing n (suc n + suc m) ps e)

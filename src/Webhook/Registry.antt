-- ===== src/Webhook/Registry.antt =====
-- The operations of the registry in internal/webhook/webhook.go. A hook is copied on its way in and
-- out, so values model it.
use pmmcp.Prelude.{
  String, ◌≡◌, refl, ◌≢◌, ◌⊎◌, inl, inr, Option, none, some, List, [], ◌∷◌, arith, str_eq, eq_iff,
  if◌then◌else◌, Bool-cases, Option-cases, GoMap, put,
}
use pmmcp.Prelude.Runes.{Runes}
use pmmcp.Prelude.Result.{Result, ok, err}
use pmmcp.Webhook.{Net, Hook, WebhookError, empty_id, not_found, admit}

pub record Registry : Type 0 where
  pub hooks : GoMap (Option Hook)
  pub allow : List Runes

-- `NewRegistry` with the patterns of all its `WithAllowlist` options in order.
unfoldable pub new_registry : List Runes → Registry
new_registry allow = record { hooks = λ _. none; allow = allow }

unfoldable pub get : String → Registry → Result WebhookError Hook
get i r = elim (r.hooks i) [ none ↦ err not_found | some h ↦ ok h ]

unfoldable pub delete : String → Registry → Result WebhookError Registry
delete i r = elim (r.hooks i) [
  | none ↦ err not_found
  | some h ↦ ok (record r { hooks = put r.hooks i none })
]

-- A call that changes the registry.
pub data Call : Type 0 where
  creates : Hook → Call
  deletes : String → Call

module _ (net : Net) where
  unfoldable pub create : Hook → Registry → Result WebhookError Registry
  create h r = if str_eq h.id "" then err empty_id else elim (admit net h.url r.allow) [
    | some e ↦ err e
    | none ↦ ok (record r { hooks = put r.hooks h.id (some h) })
  ]

  -- The registry after a call, and after a sequence of calls; a call that fails changes nothing.
  abbrev pub or_same : Registry → Result WebhookError Registry → Registry
  or_same r (ok r') = r'
  or_same r (err e) = r

  unfoldable pub after_call : Call → Registry → Registry
  unfolding create delete
  after_call (creates h) r = or_same r (create h r)
  after_call (deletes i) r = or_same r (delete i r)

  unfoldable pub after_calls : List Call → Registry → Registry
  after_calls [] r = r
  after_calls (c ∷ cs) r = after_calls cs (after_call c r)

  -- Every hook is stored under its identifier, which is not empty, and its URL is admitted.
  abbrev pub IsAdmitted : Registry → Type 0
  IsAdmitted r =
      (i : String) (h : Hook)
      → r.hooks i ≡ some h
      → (h.id ≡ i) × (i ≢ "") × (admit net h.url r.allow ≡ none)

  after_delete :
      (j : String) (r : Registry)
      → (after_call (deletes j) r ≡ r)
        ⊎ (after_call (deletes j) r ≡ record r { hooks = put r.hooks j none })
  unfolding after_call delete
  after_delete j r = elim (Option-cases (r.hooks j)) [
    | inl e ↦ inl (ground (arith, e))
    | inr (h, e) ↦ inr (ground (arith, e))
  ]

  after_call-IsAdmitted :
      (c : Call) (r : Registry)
      → IsAdmitted r
      → IsAdmitted (after_call c r) × ((after_call c r).allow ≡ r.allow)
  unfolding after_call put
  after_call-IsAdmitted (creates h) r a = elim (Bool-cases (str_eq h.id "")) [
    | inl e ↦ rw (e, after_call) (a, refl)
    | inr e ↦ elim (Option-cases (admit net h.url r.allow)) [
      | inr (x, f) ↦ rw (e, f, after_call) (a, refl)
      | inl f ↦
          rw (e, f, after_call)
            ((λ i k g. ground (arith, eq_iff i h.id, eq_iff h.id "", a i k)), refl)
    ]
  ]
  after_call-IsAdmitted (deletes j) r a = elim (after_delete j r) [
    | inl e ↦ rw e (a, refl)
    | inr e ↦ rw e ((λ i k g. ground (arith, eq_iff i j, a i k)), refl)
  ]

  after_calls-from : (cs : List Call) (r : Registry) → IsAdmitted r → IsAdmitted (after_calls cs r)
  unfolding after_calls
  after_calls-from [] r a = a
  after_calls-from (c ∷ cs) r a =
      after_calls-from cs (after_call c r) (after_call-IsAdmitted c r a).0

  -- Whatever is created and deleted, in a registry that starts empty every hook is stored under its
  -- identifier, which is not empty, and its URL passes the admission checks under the allowlist of
  -- the registry.
  pub after_calls-IsAdmitted :
      (allow : List Runes) (cs : List Call) → IsAdmitted (after_calls cs (new_registry allow))
  after_calls-IsAdmitted allow cs =
      after_calls-from cs (new_registry allow) (λ i h e. absurd (unfold new_registry in cc))

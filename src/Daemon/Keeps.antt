-- ===== src/Daemon/Keeps.antt =====
-- internal/daemon/server.go: what the helpers that the handlers share keep and refuse.
use pmmcp.Prelude.{
  ℕ, String, ◌≡◌, refl, ◌⊎◌, inl, inr, none, some, arith, ◌==◌, Bool-cases, Option-cases,
}
use pmmcp.Prelude.Result.{Result-cases}
use pmmcp.Domain.{Process}
use pmmcp.Authz.{Principal, Capability}
use pmmcp.Store.{update}
use pmmcp.Daemon.{
  Host, Server, Answer, answer, Failure, sandbox_failed, invalid_spec, already_exists,
  process_not_found, domain_error, record_not_found, record_conflict, deadline_exceeded,
  other_failure, err_from,
}
use pmmcp.Daemon.Guard.{deny, authorize_target, save, record_start_time}

pub authorize_target-cases :
    (h : Host) (p : Principal) (method : String) (c : Capability) (rec : Process) (s : Server)
    → (authorize_target h p method c rec s ≡ none)
      ⊎ (authorize_target h p method c rec s ≡ some (deny h p method c s))
unfolding authorize_target
authorize_target-cases h p method c rec s = ground arith

-- The parts of the server that the time of the start does not touch.
pub record_start_time-keeps :
    (h : Host) (i : String) (pid : ℕ) (s : Server)
    → ((record_start_time h i pid s).store ≡ s.store)
      × ((record_start_time h i pid s).calls ≡ s.calls)
      × ((record_start_time h i pid s).by_name ≡ s.by_name)
unfolding record_start_time
record_start_time-keeps h i pid s = elim (Option-cases (h.start_time pid)) [
  | inl e ↦
      rw (record_start_time, e)
        (elim (Bool-cases (pid == 0)) [
          | inl z ↦ rw z (refl, refl, refl)
          | inr z ↦ rw z (refl, refl, refl)
        ])
  | inr (at, e) ↦
      rw (record_start_time, e)
        (elim (Bool-cases (pid == 0)) [
          | inl z ↦ rw z (refl, refl, refl)
          | inr z ↦ rw z (refl, refl, refl)
        ])
]

pub err_from-refuses : (x : Failure) (a : Answer) → ¬ (err_from x ≡ answer a)
unfolding err_from
err_from-refuses sandbox_failed a e = cc
err_from-refuses invalid_spec a e = cc
err_from-refuses already_exists a e = cc
err_from-refuses process_not_found a e = cc
err_from-refuses (domain_error c r) a e = cc
err_from-refuses record_not_found a e = cc
err_from-refuses record_conflict a e = cc
err_from-refuses deadline_exceeded a e = cc
err_from-refuses other_failure a e = cc

pub save-calls : (h : Host) (rec : Process) (s : Server) → (save h rec s).calls ≡ s.calls
unfolding save
save-calls h rec s = elim (Result-cases (update h.now rec s.store)) [
  | inl (t, e) ↦ rw (save, e) refl
  | inr (x, e) ↦ rw (save, e) refl
]

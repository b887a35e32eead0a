-- ===== src/Domain/Exits.antt =====
-- The exit codes of internal/domain/errors.go.
use pmmcp.Prelude.{◌≤◌, ◌<◌, ◌≡◌, refl, ◌≢◌, ◌↔◌, Option, none, some, arith, eq_iff}
use pmmcp.Domain.{Code, exit_code, GoError, wrap, find_code, exit_code_from_error}

exit_code-range : (c : Code) → c ≢ "" → (0 < exit_code c) × (exit_code c ≤ 8)
unfolding exit_code
exit_code-range c h = ground (arith, eq_iff c "")

-- The program exits with 0 exactly for the nil error: no error, however it is wrapped and whatever
-- its code, reports success. The exit code of an error lies between 1 and 8.
pub exit_code_from_error_iff :
    (e : Option GoError)
    → ((exit_code_from_error e ≡ 0) ↔ (e ≡ none)) × (exit_code_from_error e ≤ 8)
exit_code_from_error_iff none = (
  ((λ h. refl), (λ h. unfold exit_code_from_error in refl)),
  unfold exit_code_from_error in omega arith,
)
exit_code_from_error_iff (some e) = (
  ((λ h. absurd (omega (arith, (bounds (find_code e) refl).0, h))), (λ h. cc)),
  (bounds (find_code e) refl).1,
)
  where
    bounds :
        (c : Option Code)
        → find_code e ≡ c
        → (0 < exit_code_from_error (some e)) × (exit_code_from_error (some e) ≤ 8)
    bounds none h = unfold exit_code_from_error in ground (arith, h)
    bounds (some c) h =
        unfold exit_code_from_error in ground (arith, h, exit_code-range c, eq_iff c "")

-- Wrapping an error in other errors does not change its exit code.
pub exit_code-wrap :
    (e : GoError) → exit_code_from_error (some (wrap e)) ≡ exit_code_from_error (some e)
unfolding exit_code_from_error
exit_code-wrap e = refl

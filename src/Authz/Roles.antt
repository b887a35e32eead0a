-- ===== src/Authz/Roles.antt =====
-- The role packs of internal/authz/authz.go: their order, the default deny, and the default role.
use pmmcp.Prelude.{
  ℕ, zero, suc, ◌+◌, ◌-◌, ◌≤◌, String, ◌≡◌, ◌≢◌, true, Option, none, some, List, [], arith, str_eq,
  eq_iff, if◌then◌else◌, elem, elem-append_left,
}
use pmmcp.Authz.{
  Capability, Role, role_full, role_operator, role_agent, role_readonly, role_logs,
  cap_secrets_read_values, Principal, OsUser, caps_readonly, caps_logs, caps_agent, caps_operator,
  caps_full, caps, allow, current_user_from,
}

-- The place of a role in the order of the packs; 0 for a name that is no role.
unfoldable pub rank : Role → ℕ
rank role =
    if str_eq role role_full
    then 5
    else if str_eq role role_operator
    then 4
    else if str_eq role role_agent
    then 3
    else if str_eq role role_logs
    then 2
    else if str_eq role role_readonly
    then 1
    else 0

pack : ℕ → List Capability
pack zero = []
pack (suc zero) = caps_readonly
pack (suc (suc zero)) = caps_logs
pack (suc (suc (suc zero))) = caps_agent
pack (suc (suc (suc (suc zero)))) = caps_operator
pack _ = caps_full

caps-rank : (r : Role) → caps r ≡ pack (rank r)
unfolding caps rank pack
caps-rank r = ground arith

pack-suc : (c : Capability) (n : ℕ) → elem c (pack n) ≡ true → elem c (pack (suc n)) ≡ true
unfolding pack
pack-suc c zero h = unfold elem in ground arith
pack-suc c (suc zero) h = elem-append_left c caps_readonly _ h
pack-suc c (suc (suc zero)) h = elem-append_left c caps_logs _ h
pack-suc c (suc (suc (suc zero))) h = elem-append_left c caps_agent _ h
pack-suc c (suc (suc (suc (suc zero)))) h = elem-append_left c caps_operator _ h
pack-suc c (suc (suc (suc (suc (suc n))))) h = h

pack-add :
    (c : Capability) (k n m : ℕ) → n + k ≡ m → elem c (pack n) ≡ true → elem c (pack m) ≡ true
pack-add c zero n m e h = let e' : n ≡ m = omega arith in rw (← e') h
pack-add c (suc k) n m e h = pack-add c k (suc n) m (omega arith) (pack-suc c n h)

-- Roles are ordered readonly, logs, agent, operator, full: what a role allows, every role at the
-- same place or above it allows too. A name that is no role stands below all of them.
pub allow_mono :
    (p q : Principal) (c : Capability)
    → rank p.role ≤ rank q.role
    → allow p c ≡ true
    → allow q c ≡ true
unfolding allow
allow_mono p q c le h = rw (caps-rank q.role) (
    pack-add c (rank q.role - rank p.role) (rank p.role) (rank q.role) (omega arith)
      (rw (caps-rank p.role) at h))

-- A role whose name is none of the five allows nothing.
pub allow-unknown : (p : Principal) (c : Capability) → rank p.role ≡ 0 → allow p c ≢ true
unfolding allow caps rank elem
allow-unknown p c e h = ground arith

secrets_need_full : (r : Role) → elem cap_secrets_read_values (caps r) ≡ true → r ≡ role_full
unfolding caps elem
secrets_need_full r h = (eq_iff r role_full).0 (ground arith)

-- Raw secret values are read by the full role alone, and the user that `CurrentUser` builds has
-- that role only if the caller asked for it by name: an unset role is never privileged.
pub current_user_secrets :
    (u : Option OsUser) (role : Role) (session : String) (p : Principal)
    → current_user_from u role session ≡ some p
    → allow p cap_secrets_read_values ≡ true
    → role ≡ role_full
unfolding current_user_from
current_user_secrets none role session p e h = cc
current_user_secrets (some u) role session p e h = ground (arith, unset_role, full)
  where
    full : p.role ≡ role_full
    full = unfold allow in secrets_need_full p.role h

    unset_role : role_agent ≢ role_full
    unset_role q = cc ((eq_iff role_agent role_full).1 q)

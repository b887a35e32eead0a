-- ===== src/Sandbox.antt =====
-- internal/sandbox/policy.go: the platform-agnostic policy of a sandboxed process, which says what
-- it may read and write. The temporary directory and the home directory are the host's.
pub mod Contained
mod Grants
mod Tests
use pmmcp.Prelude.{
  String, Bool, true, false, not, ◌&&◌, ◌||◌, Option, none, some, List, [], ◌∷◌, ◌++◌, map, str_eq,
  ◌==◌, if◌then◌else◌, elem,
}
use pmmcp.Prelude.Runes.{
  Runes, codes, eq_runes, has_prefix, has_suffix, has_part, is_empty, trim_space,
}
use pmmcp.Prelude.Result.{Result, ok, err}
use pmmcp.Path.{is_abs, clean, join}

pub data SandboxError : Type 0 where
  unknown_profile : SandboxError

abbrev pub known_profiles : List String
known_profiles = "strict" ∷ "standard" ∷ "permissive" ∷ "off" ∷ []

unfoldable pub is_valid : String → Bool
is_valid p = elem p known_profiles

pub record Policy : Type 0 where
  pub profile : String
  pub writable_roots : List Runes
  pub read_deny : List Runes

unfoldable pub normalize_path : Runes → Runes
normalize_path path =
    let trimmed = trim_space path in if is_empty trimmed then [] else clean trimmed

-- Both kinds of separator as '/'.
unfoldable pub slashy : Runes → Runes
slashy path = map (λ c. if c == b'\\' then b'/' else c) path

unfoldable pub is_ssh_style_path : Runes → Bool
is_ssh_style_path path =
    let n = slashy path in
    has_part n (codes "/.ssh/")
    || (has_suffix n (codes "/.ssh") || (has_prefix n (codes ".ssh/") || eq_runes n (codes ".ssh")))

-- A cleaned root with the separator behind it.
unfoldable pub root_prefix : Runes → Runes
root_prefix root = if has_suffix root (codes "/") then root else root ++ codes "/"

unfoldable pub is_under : Runes → Runes → Bool
is_under path root =
    if is_empty root || is_empty path
    then false
    else eq_runes (clean path) (clean root) || has_prefix (clean path) (root_prefix (clean root))

unfoldable pub path_matches_deny : Runes → Runes → Bool
path_matches_deny path raw =
    let deny = trim_space raw in
    let marker =
      has_part (slashy deny) (codes "/.")
      || (has_suffix (slashy deny) (codes ".sock") || not (is_abs deny)) in
    let found = has_part (slashy path) (slashy deny) || has_suffix (slashy path) (slashy deny) in
    let d = clean deny in
    if is_empty deny then false else (marker && found) || (is_under path d || eq_runes path d)

unfoldable pub is_denied : Runes → List Runes → Bool
is_denied path [] = false
is_denied path (deny ∷ denies) = if path_matches_deny path deny then true else is_denied path denies

abbrev pub is_restrictive : String → Bool
is_restrictive profile = str_eq profile "strict" || str_eq profile "standard"

unfoldable pub allows_read : Policy → Runes → Bool
allows_read p raw =
    let path = normalize_path raw in
    if not (is_valid p.profile)
    then false
    else if str_eq p.profile "off"
    then true
    else if is_empty path
    then false
    else if is_restrictive p.profile && is_ssh_style_path path
    then false
    else not (is_denied path p.read_deny)

unfoldable pub is_writable : Runes → List Runes → Bool
is_writable path [] = false
is_writable path (root ∷ roots) =
    let rest = is_writable path roots in
    if is_empty root then rest else if is_under path (normalize_path root) then true else rest

unfoldable pub allows_write : Policy → Runes → Bool
allows_write p raw =
    let path = normalize_path raw in
    if not (is_valid p.profile)
    then false
    else if str_eq p.profile "off"
    then true
    else if is_empty path
    then false
    else if not (allows_read p path)
    then false
    else is_writable path p.writable_roots

unfoldable pub contains_path : List Runes → Runes → Bool
contains_path [] p = false
contains_path (r ∷ roots) p = if eq_runes (clean r) (clean p) then true else contains_path roots p

unfoldable pub roots_of : Runes → Runes → List Runes
roots_of project_root temp =
    let roots = if is_empty project_root then [] else project_root ∷ [] in
    if not (is_empty temp) && not (contains_path roots temp) then roots ++ temp ∷ [] else roots

abbrev pub deny_markers : List Runes
deny_markers =
    codes "/.ssh/" ∷ codes "/.ssh" ∷ codes "/.gnupg/" ∷ codes "/.aws/" ∷ codes "/docker.sock" ∷ []

-- `os.TempDir` and what `os.UserHomeDir` returns without an error.
module _ (temp_dir : Runes) (home_dir : Option Runes) where
  unfoldable pub default_read_deny : List Runes
  default_read_deny = elim home_dir [
    | none ↦ deny_markers
    | some home ↦
        if is_empty home then deny_markers else deny_markers ++ join home (codes ".ssh") ∷ []
  ]

  unfoldable pub with_home : List Runes → List Runes
  with_home roots = elim home_dir [
    | none ↦ roots
    | some raw ↦
        let home = clean raw in
        if is_empty raw
        then roots
        else if contains_path roots home
        then roots
        else roots ++ home ∷ []
  ]

  unfoldable pub default_policy : String → Runes → Result SandboxError Policy
  default_policy profile raw =
      let trimmed = trim_space raw in
      let project_root = if is_empty trimmed then [] else clean trimmed in
      let roots = roots_of project_root (clean temp_dir) in
      if not (is_valid profile)
      then err unknown_profile
      else if str_eq profile "off"
      then ok (record { profile = profile; writable_roots = []; read_deny = [] })
      else if is_restrictive profile
      then ok (record { profile = profile; writable_roots = roots; read_deny = default_read_deny })
      else ok (record { profile = profile; writable_roots = with_home roots; read_deny = [] })

  unfoldable pub has_other_root : List Runes → Bool
  has_other_root [] = false
  has_other_root (raw ∷ roots) =
      let r = trim_space raw in
      if is_empty r
      then has_other_root roots
      else if not (eq_runes (clean r) (clean temp_dir))
      then true
      else has_other_root roots

  unfoldable pub has_project_root : Policy → Bool
  has_project_root p = has_other_root p.writable_roots

-- ===== src/Authz/Share.antt =====
-- internal/authz/share.go: the book of explicit shares, and what its three operations tell about
-- one another.
use pmmcp.Prelude.{
  ℕ, suc, ◌+◌, String, ◌≡◌, refl, inl, inr, Bool, true, false, not, ◌&&◌, ◌||◌, List, [], ◌∷◌, ◌++◌,
  arith, str_eq, eq_iff, if◌then◌else◌, Bool-cases, length,
}
use pmmcp.Authz.{Capability}

pub record Grant : Type 0 where
  pub target : String
  pub cap : Capability
  pub to_session : String
  pub grantor : String

abbrev pub ShareBook : Type 0
ShareBook = List Grant

-- The test on (Target, ToSession, Cap) that `Share` and `Allowed` make.
unfoldable pub is_for : String → String → Capability → Grant → Bool
is_for target session c g =
    str_eq g.target target && (str_eq g.to_session session && str_eq g.cap c)

unfoldable pub allowed : String → String → Capability → ShareBook → Bool
allowed target session c [] = false
allowed target session c (g ∷ b) =
    if is_for target session c g then true else allowed target session c b

unfoldable pub share : Grant → ShareBook → ShareBook
share g b = if allowed g.target g.to_session g.cap b then b else b ++ g ∷ []

-- An empty capability matches every one.
unfoldable pub is_unshared : String → String → Capability → Grant → Bool
is_unshared target session c g =
    str_eq g.target target && (str_eq g.to_session session && (str_eq c "" || str_eq g.cap c))

-- The book that is left, and the number of grants removed.
unfoldable pub unshare : String → String → Capability → ShareBook → ShareBook × ℕ
unshare target session c [] = ([], 0)
unshare target session c (g ∷ b) =
    let (out, n) = unshare target session c b in
    if is_unshared target session c g then (out, suc n) else (g ∷ out, n)

allowed-append :
    (t s : String) (c : Capability) (b d : ShareBook)
    → allowed t s c (b ++ d) ≡ (allowed t s c b || allowed t s c d)
unfolding allowed
allowed-append t s c [] d = refl
allowed-append t s c (g ∷ b) d = ground (arith, allowed-append t s c b d)

allowed_one : (t s : String) (c : Capability) (g : Grant) → allowed t s c (g ∷ []) ≡ is_for t s c g
unfolding allowed
allowed_one t s c g = ground arith

-- After a share, exactly the shared triple is allowed besides what was allowed before.
pub allowed-share :
    (t s : String) (c : Capability) (g : Grant) (b : ShareBook)
    → allowed t s c (share g b) ≡ (is_for t s c g || allowed t s c b)
unfolding share
allowed-share t s c g b = elim (Bool-cases (allowed g.target g.to_session g.cap b)) [
  | inl held ↦ rw held (allowed_again held)
  | inr new ↦
      rw (new, allowed-append t s c b (g ∷ []), allowed_one t s c g)
        (or_comm (allowed t s c b) (is_for t s c g))
]
  where
    or_comm : (x y : Bool) → (x || y) ≡ (y || x)
    or_comm x y = ground arith

    allowed_again :
        allowed g.target g.to_session g.cap b ≡ true
        → allowed t s c b ≡ (is_for t s c g || allowed t s c b)
    allowed_again held =
        unfold is_for in
        ground (arith, eq_iff g.target t, eq_iff g.to_session s, eq_iff g.cap c, held)

-- The same test on a triple in place of a grant.
abbrev names : String → String → Capability → String → String → Capability → Bool
names t s c t' s' c' = str_eq t' t && (str_eq s' s && (str_eq c "" || str_eq c' c))

is_unshared-is_for :
    (t s : String) (c : Capability) (t' s' : String) (c' : Capability) (g : Grant)
    → is_for t' s' c' g ≡ true
    → is_unshared t s c g ≡ names t s c t' s' c'
unfolding is_for is_unshared
is_unshared-is_for t s c t' s' c' g h =
    let target : g.target ≡ t' = (eq_iff g.target t').0 (ground arith) in
    let session : g.to_session ≡ s' = (eq_iff g.to_session s').0 (ground arith) in
    let capability : g.cap ≡ c' = (eq_iff g.cap c').0 (ground arith) in
    rw (target, session, capability) refl

-- An unshare takes away exactly the triples of its target and session whose capability it names,
-- or all of them if it names none; every other triple is allowed as before.
pub allowed-unshare :
    (t s : String) (c : Capability) (t' s' : String) (c' : Capability) (b : ShareBook)
    → allowed t' s' c' (unshare t s c b).0
      ≡ (not (str_eq t' t && (str_eq s' s && (str_eq c "" || str_eq c' c))) && allowed t' s' c' b)
unfolding allowed unshare
allowed-unshare t s c t' s' c' [] = ground arith
allowed-unshare t s c t' s' c' (g ∷ b) =
    ground (arith, allowed-unshare t s c t' s' c' b, is_unshared-is_for t s c t' s' c' g)

-- The number that an unshare returns is the number of grants that left the book.
pub length-unshare :
    (t s : String) (c : Capability) (b : ShareBook)
    → length (unshare t s c b).0 + (unshare t s c b).1 ≡ length b
unfolding unshare
length-unshare t s c [] = refl
length-unshare t s c (g ∷ b) = ground (arith, length-unshare t s c b)

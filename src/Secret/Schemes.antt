-- ===== src/Secret/Schemes.antt =====
-- The schemes of references to secrets (uri.go of internal/secret).
use pmmcp.Prelude.{ℕ, ◌≡◌, refl, sym, inl, inr, true, false, map, arith, Bool-cases}
use pmmcp.Prelude.Runes.{
  lower_rune, Runes, codes, eq_runes, eq_runes_iff, contains, is_empty, is_space, trim_left,
  trim_space,
}
use pmmcp.Secret.{is_scheme}
use mathlib.Core.Path.{subst}

-- A scheme that is known, in lower case and without a separator in it.
pub record IsPlainScheme (lower_wide : ℕ → ℕ) (scheme : Runes) : Type 0 where
  pub lower : map (lower_rune lower_wide) scheme ≡ scheme
  pub trimmed : trim_space scheme ≡ scheme
  pub full : is_empty scheme ≡ false
  pub no_colon : contains b':' scheme ≡ false
  pub no_slash : contains b'/' scheme ≡ false
  pub no_hash : contains b'#' scheme ≡ false

module _ (lower_wide : ℕ → ℕ) where
  all_plain :
      IsPlainScheme lower_wide (codes "keyring")
      × IsPlainScheme lower_wide (codes "sops")
      × IsPlainScheme lower_wide (codes "file")
      × IsPlainScheme lower_wide (codes "env")
  unfolding lower_rune trim_space trim_left is_space contains codes
  all_plain = (
    record {
      lower = refl;
      trimmed = refl;
      full = refl;
      no_colon = refl;
      no_slash = refl;
      no_hash = refl;
    },
    record {
      lower = refl;
      trimmed = refl;
      full = refl;
      no_colon = refl;
      no_slash = refl;
      no_hash = refl;
    },
    record {
      lower = refl;
      trimmed = refl;
      full = refl;
      no_colon = refl;
      no_slash = refl;
      no_hash = refl;
    },
    record {
      lower = refl;
      trimmed = refl;
      full = refl;
      no_colon = refl;
      no_slash = refl;
      no_hash = refl;
    },
  )

  pub plain_scheme : (s : Runes) → is_scheme s ≡ true → IsPlainScheme lower_wide s
  unfolding is_scheme
  plain_scheme s h =
      let (keyring, sops, file, env) = all_plain in
      let at : (t : Runes)
          → IsPlainScheme lower_wide t
          → eq_runes s t ≡ true
          → IsPlainScheme lower_wide s =
        λ t p e. subst (IsPlainScheme lower_wide) (sym ((eq_runes_iff s t).0 e)) p in
      elim (Bool-cases (eq_runes s (codes "keyring"))) [
        | inl e ↦ at (codes "keyring") keyring e
        | inr k ↦ elim (Bool-cases (eq_runes s (codes "sops"))) [
          | inl e ↦ at (codes "sops") sops e
          | inr o ↦ elim (Bool-cases (eq_runes s (codes "file"))) [
            | inl e ↦ at (codes "file") file e
            | inr f ↦ at (codes "env") env (ground (arith, h, k, o, f))
          ]
        ]
      ]

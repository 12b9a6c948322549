-- ===== src/Main/Limits.antt =====
-- Laws of the settings of main.go.
use consent_owner_resolver.Prelude.{
  ◌≡◌, ◌⊎◌, ◌↔◌, sym, inl, inr, refl, ap, ◌∙◌, true, Option, none, some, [], Bytes, ◌==◌, eq_iff,
  Bool-cases, if◌then◌else◌,
}
use consent_owner_resolver.Prelude.Exec.{Exec}
use consent_owner_resolver.Prelude.Int.{ℤ, pos, is_positive}
use consent_owner_resolver.Go.Strconv.{atoi}
use consent_owner_resolver.Types.{ResolveRequest, ResolveResult}
use consent_owner_resolver.Api.Handler.{default_max_body_bytes, new_handler}
use consent_owner_resolver.Main.{
  env_max_body_bytes, getenv_int, parsed_int, settings_from_env, new_server,
}

-- The limit for the bodies of requests that a text of the environment stands for.
abbrev pub limit_of : Option ℤ → ℤ
limit_of none = default_max_body_bytes
limit_of (some n) = if is_positive n then n else default_max_body_bytes

limit_of-positive : (o : Option ℤ) → is_positive (limit_of o) ≡ true
limit_of-positive none = refl
limit_of-positive (some n) = elim (Bool-cases (is_positive n)) [
  | inl fine ↦ rw fine fine
  | inr other ↦ rw other refl
]

module _ (quote : Bytes → Bytes) (env : Bytes → Bytes) where
  parsed-limit :
      (o : Option ℤ)
      → (let n = (parsed_int env quote env_max_body_bytes (pos 0) o).0 in
          (if is_positive n then n else default_max_body_bytes) ≡ limit_of o)
  unfolding parsed_int
  parsed-limit none = refl
  parsed-limit (some n) = refl

  parsed-log :
      (o : Option ℤ)
      → ((parsed_int env quote env_max_body_bytes (pos 0) o).1 ≡ []) ↔ ((n : ℤ) × (o ≡ some n))
  unfolding parsed_int
  parsed-log none = (λ e. cc, λ h. cc (h.1))
  parsed-log (some n) = (λ e. (n, refl), λ h. refl)

  asked-limit :
      (let n = (getenv_int env quote env_max_body_bytes (pos 0)).0 in
        (if is_positive n then n else default_max_body_bytes)
        ≡ limit_of (atoi (env env_max_body_bytes)))
  unfolding getenv_int atoi
  asked-limit = elim (Bool-cases (env env_max_body_bytes == [])) [
    | inl unset ↦ rw (unset, (eq_iff (env env_max_body_bytes) []).0 unset) refl
    | inr set ↦ rw set (parsed-limit (atoi (env env_max_body_bytes)))
  ]

  asked-log :
      ((getenv_int env quote env_max_body_bytes (pos 0)).1 ≡ [])
      ↔ ((env env_max_body_bytes ≡ []) ⊎ ((n : ℤ) × (atoi (env env_max_body_bytes) ≡ some n)))
  unfolding getenv_int
  asked-log = elim (Bool-cases (env env_max_body_bytes == [])) [
    | inl unset ↦ rw unset (λ e. inl ((eq_iff (env env_max_body_bytes) []).0 unset), λ h. refl)
    | inr set ↦ rw set (
      λ e. inr ((parsed-log (atoi (env env_max_body_bytes))).0 e),
      λ h. elim h [
        | inl empty ↦ cc (sym set ∙ (eq_iff (env env_max_body_bytes) []).1 empty)
        | inr number ↦ (parsed-log (atoi (env env_max_body_bytes))).1 number
      ],
    )
  ]

  -- Whatever the environment holds, the server limits the bodies of requests to a positive number of
  -- bytes: the number of MAX_BODY_BYTES, if that is a positive number of 64 bits, and 5 MiB in every
  -- other case. Something is logged about it exactly if it is set, and no number.
  pub new_server-limit :
      {S : Type 0} (res : ResolveRequest → Exec S ResolveResult)
      → let (s, log) = settings_from_env env quote in
        (is_positive (new_server s res).handler.max_body_bytes ≡ true)
        × ((new_server s res).handler.max_body_bytes ≡ limit_of (atoi (env env_max_body_bytes)))
        × ((log ≡ []) ↔ (
            (env env_max_body_bytes ≡ []) ⊎ ((n : ℤ) × (atoi (env env_max_body_bytes) ≡ some n))))
  unfolding new_server new_handler settings_from_env
  new_server-limit res = (
    ap is_positive asked-limit ∙ limit_of-positive (atoi (env env_max_body_bytes)),
    asked-limit,
    asked-log,
  )

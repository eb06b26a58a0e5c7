-- ===== src/Storage/Signing.antt =====
-- Who signs an upload's URL.
use limon_backend.Base.{
  String, true, false, Option, none, some, ◌≡◌, ◌⊎◌, arith, truthy, is_none, option_eq, ◌||◌,
  if◌then◌else◌,
}
use limon_backend.Runtime.Errors.{Error, storage_not_configured, library_error}
use limon_backend.Runtime.Ends.{Ends}
use limon_backend.Runtime.Wire.{Signer, impersonated, attached}
use limon_backend.Runtime.World.{Env, World, ◌>>=◌}
use limon_backend.Storage.{signing_kwargs, signer_or_attached}

module _ (e : Env) (w : World) where
  -- No account is set to be impersonated, and the credentials were refreshed to this email.
  abbrev Refreshed : Option String → Type 0
  Refreshed email =
      (e.settings.gcs_signer_service_account ≡ none) × (e.attached_email w.trace ≡ some email)

  -- The attached account's email: the metadata server's, where the credentials have none or the
  -- placeholder.
  abbrev known : Option String → Option String
  known email =
      if is_none email || option_eq email (some "default") then e.metadata_email w.trace else email

  abbrev pub SignsAs : Signer → Type 0
  SignsAs (impersonated account) =
      (e.default_credentials w.trace ≡ true)
      × (e.settings.gcs_signer_service_account ≡ some account)
  SignsAs (attached email) =
      (e.default_credentials w.trace ≡ true)
      × (given : Option String) × Refreshed given
      × (known given ≡ some email)
      × (truthy (some email) ≡ true)

  -- Why nobody signs: no credentials, or ones that cannot be refreshed, or no email is known.
  abbrev pub Refuses : Error → Type 0
  Refuses library_error =
      (e.default_credentials w.trace ≡ false)
      ⊎ ((e.settings.gcs_signer_service_account ≡ none) × (e.attached_email w.trace ≡ none))
  Refuses storage_not_configured =
      (given : Option String) × Refreshed given × (truthy (known given) ≡ false)
  Refuses _ = ⊥

  -- An upload is signed as the account that is set. Where none is set, it is signed as the attached
  -- account, by the email of the refreshed credentials, or the metadata server's where those have
  -- none or the placeholder, and only by one that is not empty. It is refused with
  -- StorageNotConfiguredError only where that email is missing or empty, and raises a library's
  -- exception only where there are no credentials, or no account is set and they cannot be refreshed.
  pub signing_kwargs-SignsAs : Ends (λ s _. SignsAs s) (λ x _. Refuses x) (signing_kwargs e w)
  unfolding signing_kwargs signer_or_attached ◌>>=◌
  signing_kwargs-SignsAs = ground arith

-- ===== src/Tests/Secret.antt =====
-- The redaction of a map.
use gxo.Prelude.{true, false, ◌≡◌, ◌↔◌, refl, [], ◌∷◌, some}
use gxo.Prelude.Text.{has_substring}
use gxo.Value.{Value, str, strings, dict, field, end}
use gxo.Secrets.{
  SecretTracker, contains_tracked_secret, redacted_secret_value, redact_tracked_secrets,
}
use gxo.Secrets.Clean.{
  IsClean, IsSeenClean, IsHiddenClean, redact_tracked_secrets-IsClean, redact_tracked_secrets_exact,
}

abbrev pub tracker : SecretTracker
tracker = record { resolved_secrets = "hunter2" ∷ [] }

abbrev registered : Value
registered = dict (field "url" (str "db://u:hunter2@h") (field "port" (str "5432") end))

redaction :
    redact_tracked_secrets registered (some tracker)
    ≡ (dict (field "url" (str redacted_secret_value) (field "port" (str "5432") end)), true)
unfolding redact_tracked_secrets has_substring
redaction = refl

pub harmless : contains_tracked_secret tracker redacted_secret_value ≡ false
unfolding contains_tracked_secret has_substring
harmless = refl

redact_tracked_secrets-IsClean_example :
    IsClean tracker (redact_tracked_secrets registered (some tracker)).0
    ↔ IsHiddenClean tracker registered
redact_tracked_secrets-IsClean_example = redact_tracked_secrets-IsClean tracker registered harmless

-- A secret in a list of texts is neither redacted nor reported.
hidden_secret :
    redact_tracked_secrets (strings ("hunter2" ∷ [])) (some tracker)
    ≡ (strings ("hunter2" ∷ []), false)
unfolding redact_tracked_secrets
hidden_secret = refl

redact_tracked_secrets_exact_example :
    (((redact_tracked_secrets registered (some tracker)).1 ≡ false)
      ↔ IsSeenClean tracker registered)
    × (IsSeenClean tracker registered
        → (redact_tracked_secrets registered (some tracker)).0 ≡ registered)
    × (IsClean tracker registered ↔ (
        ((redact_tracked_secrets registered (some tracker)).1 ≡ false)
        × IsHiddenClean tracker registered))
redact_tracked_secrets_exact_example = redact_tracked_secrets_exact tracker registered

-- ===== src/Secrets.antt =====
-- internal/secrets/tracker.go and internal/template/redaction.go: the secrets that a task has seen, and
-- their redaction in what it registers. A nil tracker is `none`; a map or slice is never nil here.
pub mod Clean
use gxo.Prelude.{
  String, Bool, true, false, List, [], ◌∷◌, ◌||◌, Option, none, some, if◌then◌else◌, ◌==◌, contains,
}
use gxo.Prelude.Text.{has_substring}
use gxo.Value.{Value, null, str, list, dict, Items, nil, cons, Fields, end, field}

-- resolvedSecrets, a set
pub record SecretTracker : Type 0 where
  pub resolved_secrets : List String

-- NewSecretTracker
abbrev pub new_secret_tracker : SecretTracker
new_secret_tracker = record { resolved_secrets = [] }

-- Add
unfoldable pub add : String → SecretTracker → SecretTracker
add secret t =
    if secret == ""
    then t
    else if contains secret t.resolved_secrets
    then t
    else record { resolved_secrets = secret ∷ t.resolved_secrets }

-- IsTracked
unfoldable pub is_tracked : SecretTracker → String → Bool
is_tracked t value = if value == "" then false else contains value t.resolved_secrets

-- for secret := range t.resolvedSecrets
unfoldable pub holds_any : List String → String → Bool
holds_any [] input = false
holds_any (secret ∷ secrets) input = has_substring input secret || holds_any secrets input

-- ContainsTrackedSecret
unfoldable pub contains_tracked_secret : SecretTracker → String → Bool
unfolding holds_any
contains_tracked_secret t input = if input == "" then false else holds_any t.resolved_secrets input

abbrev pub redacted_secret_value : String
redacted_secret_value = "[REDACTED_SECRET]"

module _ (t : SecretTracker) where
  unfoldable mutual
    unfolding contains_tracked_secret

    -- redactRecursive
    pub redact_recursive : Value → Value × Bool
    redact_recursive (str v) =
        if contains_tracked_secret t v then (str redacted_secret_value, true) else (str v, false)
    redact_recursive (dict fields) =
        let (fields', redacted) = redact_fields fields in (dict fields', redacted)
    redact_recursive (list items) =
        let (items', redacted) = redact_items items in (list items', redacted)
    redact_recursive v = (v, false)

    -- for key, val := range v
    pub redact_fields : Fields → Fields × Bool
    redact_fields end = (end, false)
    redact_fields (field key val fields) =
        let (val', redacted) = redact_recursive val in
        let (fields', others) = redact_fields fields in (field key val' fields', redacted || others)

    -- for i, val := range v
    pub redact_items : Items → Items × Bool
    redact_items nil = (nil, false)
    redact_items (cons val items) =
        let (val', redacted) = redact_recursive val in
        let (items', others) = redact_items items in (cons val' items', redacted || others)

-- RedactTrackedSecrets
unfoldable pub redact_tracked_secrets : Value → Option SecretTracker → Value × Bool
unfolding redact_recursive
redact_tracked_secrets null t = (null, false)
redact_tracked_secrets v none = (v, false)
redact_tracked_secrets v (some t) = redact_recursive t v

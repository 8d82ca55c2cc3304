-- ===== src/Security/Redaction.antt =====
-- backend/app/security/redaction.py: secrets and sensitive headers taken out of log records.
use recon_ledger.Prelude.{
  ℕ, zero, suc, ◌-◌, Option, none, some, List, [], ◌∷◌, ◌++◌, map, length, if◌then◌else◌,
  starts_with, mem_text, add_text, Text, codes,
}

abbrev pub sensitive_header_names : List Text
sensitive_header_names =
    codes "authorization"
    ∷ codes "cookie"
    ∷ codes "set-cookie"
    ∷ codes "x-api-key"
    ∷ codes "api-key"
    ∷ codes "proxy-authorization"
    ∷ []

abbrev pub redacted : Text
redacted = codes "[redacted]"

abbrev redact_header : (Text → Text) → Text × Text → Text × Text
redact_header lower (key, value) =
    (key, if mem_text (lower key) sensitive_header_names then redacted else value)

-- `lower` is Python's
unfoldable pub redact_headers : (Text → Text) → List (Text × Text) → List (Text × Text)
unfolding mem_text
redact_headers lower headers = map (redact_header lower) headers

-- What `replace` leaves, from left to right; the number says how much of an occurrence is still to be
-- passed over.
unfoldable pub replace_from : Text → Text → ℕ → Text → Text
unfolding starts_with
replace_from old new n [] = []
replace_from old new (suc n) (c ∷ s) = replace_from old new n s
replace_from old new zero (c ∷ s) =
    let hit = starts_with (c ∷ s) old in
    let rest = replace_from old new (if hit then length old - 1 else 0) s in
    if hit then new ++ rest else c ∷ rest

-- `text.replace(old, new)`, of a text `old` that is not empty
unfoldable pub replace : Text → Text → Text → Text
unfolding replace_from
replace old new s = replace_from old new 0 s

abbrev redact_secret : Text → Text → Text
redact_secret [] text = text
redact_secret (c ∷ secret) text = replace (c ∷ secret) redacted text

unfoldable pub redact_secrets : Text → List Text → Text
unfolding replace
redact_secrets text [] = text
redact_secrets text (secret ∷ secrets) = redact_secrets (redact_secret secret text) secrets

-- `SecretRegistry.register`, on the set of secrets
unfoldable pub register : Option Text → List Text → List Text
unfolding add_text
register none secrets = secrets
register (some []) secrets = secrets
register (some (c ∷ value)) secrets = add_text (c ∷ value) secrets

-- `SecretRegistry.redact`
unfoldable pub redact : List Text → Text → Text
unfolding redact_secrets
redact secrets text = redact_secrets text secrets

-- ===== src/Security/Errors.antt =====
-- backend/app/security/errors.py: one constructor for each error class, with its attributes.
use recon_ledger.Prelude.{ℕ, Option, ◌++◌, Text, codes}

pub data GatewayError : Type 0 where
  disallowed_host : Text → GatewayError
  blocked_destination : Text → Text → Text → GatewayError
  redirect_rejected : Text → Text → Text → GatewayError
  response_too_large : Text → ℕ → GatewayError
  malformed_response : Text → Text → GatewayError
  provider_rate_limited : Text → Option ℕ → GatewayError
  provider_timeout : Text → GatewayError
  deny_list_unpopulated : GatewayError

-- How Python writes values into a message: `repr` of a text, and a number in decimal.
pub record Formatting : Type 0 where
  pub repr : Text → Text
  pub decimal : ℕ → Text

-- The class attribute `safe_error_code`.
unfoldable pub gateway_error_code : GatewayError → Text
gateway_error_code (disallowed_host host) = codes "disallowed_host"
gateway_error_code (blocked_destination host ip reason) = codes "blocked_destination"
gateway_error_code (redirect_rejected from to reason) = codes "redirect_rejected"
gateway_error_code (response_too_large host limit) = codes "response_too_large"
gateway_error_code (malformed_response host detail) = codes "malformed_response"
gateway_error_code (provider_rate_limited host after) = codes "rate_limited"
gateway_error_code (provider_timeout host) = codes "provider_timeout"
gateway_error_code deny_list_unpopulated = codes "deny_list_unpopulated"

module _ (f : Formatting) where
  -- `str(exc)`
  unfoldable pub gateway_error_text : GatewayError → Text
  gateway_error_text (disallowed_host host) =
      codes "Host " ++ f.repr host ++ codes " is not on the declared provider allowlist."
  gateway_error_text (blocked_destination host ip reason) =
      codes "Destination "
      ++ ip
      ++ codes " for host "
      ++ f.repr host
      ++ codes " is blocked: "
      ++ reason
  gateway_error_text (redirect_rejected from to reason) =
      codes "Redirect from " ++ from ++ codes " to " ++ to ++ codes " rejected: " ++ reason
  gateway_error_text (response_too_large host limit) =
      codes "Response from "
      ++ f.repr host
      ++ codes " exceeded the "
      ++ f.decimal limit
      ++ codes "-byte cap."
  gateway_error_text (malformed_response host detail) =
      codes "Response from " ++ f.repr host ++ codes " is malformed: " ++ detail
  gateway_error_text (provider_rate_limited host after) =
      codes "Provider " ++ f.repr host ++ codes " rate-limited the request."
  gateway_error_text (provider_timeout host) =
      codes "Provider " ++ f.repr host ++ codes " timed out after all retry attempts."
  gateway_error_text deny_list_unpopulated = codes ""

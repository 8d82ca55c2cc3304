-- ===== src/Collectors/Errors.antt =====
-- backend/app/collectors/errors.py: the outcomes that a collector may raise, and how a gateway error
-- becomes one of them.
use recon_ledger.Prelude.{◌≡◌, refl, true, ◌++◌, Text, codes}
use recon_ledger.Models.Enums.{CollectorStatus, is_terminal_collector}
use recon_ledger.Models.Db.{Message}
use recon_ledger.Security.Errors.{
  GatewayError, disallowed_host, blocked_destination, response_too_large, malformed_response,
  provider_rate_limited, provider_timeout, Formatting, gateway_error_text,
}

pub data CollectorError : Type 0 where
  target_not_applicable credential_missing : Text → Text → CollectorError
  credential_invalid : Text → CollectorError
  provider_unavailable provider_schema_error : Text → Text → CollectorError
  collector_timeout_budget_exceeded collector_cancelled : Text → CollectorError
  -- the base class, raised with a message of the collector's own
  collector_error : Text → CollectorError

-- The class attribute `safe_error_code`.
unfoldable pub collector_error_code : CollectorError → Text
collector_error_code (target_not_applicable c t) = codes "not_applicable"
collector_error_code (credential_missing c n) = codes "skipped_no_key"
collector_error_code (credential_invalid c) = codes "invalid_credential"
collector_error_code (provider_unavailable c d) = codes "provider_unavailable"
collector_error_code (provider_schema_error c d) = codes "provider_schema_error"
collector_error_code (collector_timeout_budget_exceeded c) = codes "collector_timeout"
collector_error_code (collector_cancelled c) = codes "cancelled"
collector_error_code (collector_error m) = codes "collector_error"

-- The class attribute `resulting_status`.
unfoldable pub resulting_status : CollectorError → CollectorStatus
resulting_status (target_not_applicable c t) = CollectorStatus.not_applicable
resulting_status (credential_missing c n) = CollectorStatus.skipped_no_key
resulting_status _ = CollectorStatus.failed

-- `safe_error_message`, as the format string and its arguments.
unfoldable pub collector_error_message : CollectorError → Message
collector_error_message (target_not_applicable c t) = Message.does_not_support c t
collector_error_message (credential_missing c n) = Message.missing_credential c n
collector_error_message (credential_invalid c) = Message.credential_rejected c
collector_error_message (provider_unavailable c d) = Message.provider_is_unavailable c d
collector_error_message (provider_schema_error c d) = Message.could_not_parse c d
collector_error_message (collector_timeout_budget_exceeded c) = Message.exceeded_time_budget c
collector_error_message (collector_cancelled c) = Message.was_cancelled c
collector_error_message (collector_error m) = Message.of_text m

module _ (f : Formatting) where
  unfoldable pub translate_gateway_error : Text → GatewayError → CollectorError
  translate_gateway_error c (provider_timeout host) = collector_timeout_budget_exceeded c
  translate_gateway_error c (provider_rate_limited host after) =
      provider_unavailable c (codes "rate-limited by the provider")
  translate_gateway_error c (malformed_response host d) =
      provider_schema_error c (gateway_error_text f (malformed_response host d))
  translate_gateway_error c (response_too_large host n) =
      provider_schema_error c (gateway_error_text f (response_too_large host n))
  translate_gateway_error c (blocked_destination host ip reason) = provider_unavailable c (
      codes "blocked by the outbound safety gateway: "
      ++ gateway_error_text f (blocked_destination host ip reason))
  translate_gateway_error c (disallowed_host host) = provider_unavailable c (
      codes "blocked by the outbound safety gateway: "
      ++ gateway_error_text f (disallowed_host host))
  translate_gateway_error c e = provider_unavailable c (gateway_error_text f e)

  -- Whatever the gateway raised, the collector is recorded as failed.
  pub resulting_status-translate :
      (c : Text) (e : GatewayError)
      → resulting_status (translate_gateway_error c e) ≡ CollectorStatus.failed
  unfolding resulting_status translate_gateway_error
  resulting_status-translate c (provider_timeout host) = refl
  resulting_status-translate c (provider_rate_limited host after) = refl
  resulting_status-translate c (malformed_response host d) = refl
  resulting_status-translate c (response_too_large host n) = refl
  resulting_status-translate c (blocked_destination host ip reason) = refl
  resulting_status-translate c (disallowed_host host) = refl
  resulting_status-translate c _ = refl

-- Every error of a collector ends its run.
pub resulting_status-is_terminal :
    (e : CollectorError) → is_terminal_collector (resulting_status e) ≡ true
unfolding resulting_status
resulting_status-is_terminal (target_not_applicable c t) = refl
resulting_status-is_terminal (credential_missing c n) = refl
resulting_status-is_terminal _ = refl

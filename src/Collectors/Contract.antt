-- ===== src/Collectors/Contract.antt =====
-- backend/app/collectors/base.py: what a collector declares and what it returns.
use recon_ledger.Prelude.{ℕ, Bool, Option, List, Text}
use recon_ledger.Models.Enums.{TargetType, Category, Confidence}
use recon_ledger.Models.Json.{Json}

-- Rates and lifetimes are whole numbers of seconds in every collector.
pub record RatePolicy : Type 0 where
  pub requests_per_period : ℕ
  pub period_seconds : ℕ
  pub burst : ℕ
  pub concurrency : ℕ

pub record CachePolicy : Type 0 where
  pub positive_ttl_seconds : ℕ
  pub negative_ttl_seconds : ℕ
  pub schema_version : Text

pub record CollectorMetadata : Type 0 where
  pub name : Text
  pub display_name : Text
  pub supported_targets : List TargetType
  pub categories : List Category
  pub required_credentials : List Text
  pub provider_hosts : List Text
  pub key_help_url : Option Text
  pub rate_policy : RatePolicy
  pub cache_policy : CachePolicy
  pub request_timeout_seconds : Option ℕ
  pub test_only : Bool

pub record CollectedFinding : Type 0 where
  pub category : Category
  pub kind : Text
  pub title : Text
  pub summary : Text
  pub normalized_value : Json
  pub raw_evidence : Json
  pub source_url : Text
  pub retrieved_at : ℕ
  pub fingerprint : Text
  pub provider_observed_at : Option ℕ
  pub confidence : Option Confidence

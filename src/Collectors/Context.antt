-- ===== src/Collectors/Context.antt =====
-- What a collector's `run` works with: `CollectorContext` of backend/app/collectors/base.py, the gateway
-- it calls, and the exceptions that leave it. A run is a function on the state `Session`.
use recon_ledger.Prelude.{
  ℕ, suc, Bool, Option, none, some, List, [], ◌∷◌, ◌++◌, length, Text, codes,
}
use recon_ledger.Models.Json.{Json, str, obj, field, end}
use recon_ledger.Models.Db.{CacheEntry}
use recon_ledger.Security.Errors.{GatewayError, malformed_response}
use recon_ledger.Collectors.Errors.{CollectorError}
use recon_ledger.Services.Cache
use recon_ledger.Services.Cache.{CacheAccess, Stored}

-- The arguments of `context.gateway.get`; `none` is its default.
pub record Request : Type 0 where
  pub url : Text
  pub allowed_hosts : List Text
  pub headers : List (Text × Text)
  pub timeout_seconds : Option ℕ
  pub max_response_bytes : Option ℕ
  pub allow_redirect_to : Option (Text → Bool)

-- An `httpx.Response`, its content as bytes.
pub record Reply : Type 0 where
  pub status_code : ℕ
  pub content : Text

pub data Answer : Type 0 where
  replied : Reply → Answer
  refused : GatewayError → Answer
  -- any other exception that the gateway lets through
  broken : Answer

-- The exceptions that end a run; `uncaught` is any other.
pub data Failure : Type 0 where
  gateway_failure : GatewayError → Failure
  collector_failure : CollectorError → Failure
  uncaught : Failure

pub data Outcome {ℓ} (A : Type ℓ) : Type ℓ where
  done : A → Outcome A
  raised : Failure → Outcome A

-- What is outside: the gateway's answer to each request, the clock's readings, and Python's own
-- functions.
pub record Surroundings : Type 0 where
  pub fetch : ℕ → Request → Answer
  pub clock : ℕ → ℕ
  -- `json.loads`, `none` for its errors, with their text beside it
  pub loads : Text → Option Json
  pub loads_error : Text → Text
  -- `json.dumps(value, sort_keys=True, separators=(",", ":"), default=str)`
  pub dumps : Json → Text
  -- `hashlib.sha256(text.encode("utf-8")).hexdigest()`
  pub sha256 : Text → Text
  pub isoformat : ℕ → Text
  pub fromisoformat : Text → Option ℕ
  -- `bytes.decode("utf-8", errors="replace")`
  pub decode : Text → Text
  -- `str(value)`
  pub show : Json → Text
  pub strip : Text → Text
  pub lower : Text → Text
  -- `str(httpx.URL(url).copy_with(params=params))`
  pub with_params : Text → List (Text × Text) → Text
  -- the `CacheAccess` of the context, and its target
  pub access : CacheAccess
  pub target : Text

pub record Session : Type 0 where
  pub sent : List Request
  pub cache : List CacheEntry
  pub cache_hit : Bool
  pub readings : ℕ

-- A coroutine that returns an `A` or raises.
abbrev pub Collecting {ℓ} : Type ℓ → Type ℓ
Collecting A = Session → Outcome A × Session

infixl 5 ◌>>=◌ ◌>>◌
abbrev pub after {ℓ κ} :
    {A : Type ℓ} {B : Type κ} → (A → Collecting B) → Outcome A × Session → Outcome B × Session
after k (done a, s) = k a s
after k (raised e, s) = (raised e, s)

abbrev pub ◌>>=◌ {ℓ κ} :
    {A : Type ℓ} {B : Type κ} → Collecting A → (A → Collecting B) → Collecting B
(m >>= k) s = after k (m s)

abbrev pub ◌>>◌ {ℓ} : {B : Type ℓ} → Collecting (Unit {0}) → Collecting B → Collecting B
m >> k = m >>= λ _. k

abbrev pub pure {ℓ} : {A : Type ℓ} → A → Collecting A
pure a s = (done a, s)

abbrev pub raise {ℓ} : {A : Type ℓ} → Failure → Collecting A
raise e s = (raised e, s)

-- `try: … except GatewayError: …`, with `none` for the error
abbrev pub or_none {ℓ} : {A : Type ℓ} → Outcome A × Session → Outcome (Option A) × Session
or_none (done a, s) = (done (some a), s)
or_none (raised (gateway_failure e), s) = (done none, s)
or_none (raised e, s) = (raised e, s)

abbrev pub caught {ℓ} : {A : Type ℓ} → Collecting A → Collecting (Option A)
caught m s = or_none (m s)

-- what a function returns or raises
abbrev pub lift {ℓ} : {A : Type ℓ} → Outcome A → Collecting A
lift o s = (o, s)

abbrev pub or_uncaught {ℓ} : {A : Type ℓ} → Option A → Outcome A
or_uncaught none = raised uncaught
or_uncaught (some a) = done a

-- `compute_fingerprint` of backend/app/services/fingerprint.py
unfoldable pub compute_fingerprint : Surroundings → Text → Text → Json → Text
compute_fingerprint w collector kind identity = w.sha256 (
    w.dumps (
      obj (
        field (codes "collector") (str collector)
          (field (codes "kind") (str kind) (field (codes "identity") identity end)))))

abbrev pub or_empty : Option Text → Text
or_empty none = []
or_empty (some t) = t

-- `compute_cache_key` of backend/app/services/cache.py
unfoldable pub compute_cache_key : Surroundings → Text → Text → Text → Text → Option Text → Text
compute_cache_key w collector schema_version target variant scope = w.sha256 (
    collector
    ++ codes "|"
    ++ schema_version
    ++ codes "|"
    ++ target
    ++ codes "|"
    ++ variant
    ++ codes "|"
    ++ or_empty scope)

module _ (w : Surroundings) where
  abbrev pub answered : Answer → Outcome Reply
  answered (replied r) = done r
  answered (refused e) = raised (gateway_failure e)
  answered broken = raised uncaught

  -- `await context.gateway.get(...)`
  unfoldable pub gateway_get : Request → Collecting Reply
  gateway_get r s = (answered (w.fetch (length s.sent) r), record s { sent = s.sent ++ r ∷ [] })

  -- a reading of the clock
  unfoldable pub utcnow : Collecting ℕ
  utcnow s = (done (w.clock s.readings), record s { readings = suc s.readings })

  abbrev parsed : Text → Text → Option Json → Outcome Json
  parsed host content none =
      raised (gateway_failure (malformed_response host (w.loads_error content)))
  parsed host content (some v) = done v

  -- `parse_json_safely` of backend/app/security/gateway.py
  unfoldable pub parse_json_safely : Reply → Text → Collecting Json
  parse_json_safely r host s = (parsed host r.content (w.loads r.content), s)

  -- `context.cache.get` and `context.cache.set`, at the clock's next reading
  unfoldable pub cache_get : Text → Collecting (Option CacheEntry)
  unfolding Cache.get
  cache_get k s =
      (done (Cache.get (w.clock s.readings) k s.cache), record s { readings = suc s.readings })

  unfoldable pub cache_set : Text → Stored → Collecting (Unit {0})
  unfolding Cache.set
  cache_set k v s = (
    done tt,
    record s {
      cache = Cache.set w.access (w.clock s.readings) k v s.cache;
      readings = suc s.readings;
    },
  )

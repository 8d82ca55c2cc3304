-- ===== src/Security/Seeding.antt =====
-- How a job's deny-list comes to know its target: `seed_deny_list` of backend/app/security/gateway.py,
-- backend/app/security/doh_resolve.py and backend/app/jobs/deny_list.py. The model of the gateway keeps no
-- content of a response, so `loads` gives its JSON, by the number of the requests sent.
pub mod Answers
pub mod Kept
pub mod Covered
use recon_ledger.Prelude.{
  ℕ, true, false, Option, none, some, List, [], ◌∷◌, ◌++◌, length, Text, codes, if◌then◌else◌,
}
use recon_ledger.Models.Enums.{TargetType}
use recon_ledger.Models.Json.{Json, str, arr, obj, Items, nil, cons, Fields, get_field, truthy}
use recon_ledger.Security.Errors.{GatewayError, malformed_response}
use recon_ledger.Security.Network.{Address, Network, seed, seed_networks}
use recon_ledger.Security.Gateway
use recon_ledger.Security.Gateway.{State, Response, Got, ok, err, uncaught, follow, Call}

-- What a step returns or raises; `other_error` is no `GatewayError`.
pub data Raised : Type 0 where
  gateway_error : GatewayError → Raised
  other_error : Raised

pub data Seeding {ℓ} (A : Type ℓ) : Type ℓ where
  done : A → Seeding A
  raised : Raised → Seeding A

-- `ipaddress` and JSON, with `none` for their errors; the call that httpx builds for a record type; and
-- the text of a JSON error.
pub record Resolving : Type 0 where
  pub ip_address : Json → Option Address
  pub ip_network : Text → Option Network
  pub loads : ℕ → Response → Option Json
  pub loads_error : ℕ → Response → Text
  pub url_for : Text → Text → Text
  pub call : Call

abbrev google_doh_host : Text
google_doh_host = codes "dns.google"

abbrev pub doh_call : Call → Call
doh_call c = record c { allowed_hosts = google_doh_host ∷ []; allow_redirect_to = none }

module _ (net : Gateway.Network) (r : Resolving) where
  abbrev pub with_address : Option Address → List Address → List Address
  with_address none rest = rest
  with_address (some a) rest = a ∷ rest

  abbrev pub address_in : Fields → Option Address
  address_in answer = elim (get_field (codes "data") answer) [
    | none ↦ none
    | some v ↦ r.ip_address v
  ]

  abbrev pub and_address : Option Address → Seeding (List Address) → Seeding (List Address)
  and_address a (done rest) = done (with_address a rest)
  and_address a (raised e) = raised e

  -- the loop over the answers: what is no address is passed over
  unfoldable pub addresses_in : Items → Seeding (List Address)
  unfolding get_field
  addresses_in nil = done []
  addresses_in (cons (obj answer) rest) = and_address (address_in answer) (addresses_in rest)
  addresses_in (cons _ rest) = raised other_error

  -- `data.get("Answer") or []`
  abbrev pub answers_of : Option Json → Seeding (List Address)
  answers_of none = done []
  answers_of (some (arr answers)) = addresses_in answers
  answers_of (some v) = if truthy v then raised other_error else done []

  abbrev pub read_reply : Text → Option Json → Seeding (List Address)
  read_reply detail none = raised (gateway_error (malformed_response google_doh_host detail))
  read_reply detail (some (obj fs)) = answers_of (get_field (codes "Answer") fs)
  read_reply detail (some v) = raised other_error

  abbrev pub on_got : Got × State → Seeding (List Address) × State
  on_got (ok response, s) =
      (read_reply (r.loads_error (length s.sent) response) (r.loads (length s.sent) response), s)
  on_got (err e, s) = (raised (gateway_error e), s)
  on_got (uncaught, s) = (raised other_error, s)
  on_got (follow location, s) = (raised other_error, s)

  -- the body of the loop over the record types
  unfoldable pub resolve_type : Text → Text → State → Seeding (List Address) × State
  unfolding Gateway.get addresses_in get_field
  resolve_type host record_type s =
      on_got (Gateway.get net (doh_call r.call) (r.url_for host record_type) s)

  abbrev pub joined : List Address → Seeding (List Address) × State → Seeding (List Address) × State
  joined found (done more, t) = (done (found ++ more), t)
  joined found (raised e, t) = (raised e, t)

  abbrev pub and_more :
      (State → Seeding (List Address) × State)
      → Seeding (List Address) × State
      → Seeding (List Address) × State
  and_more next (raised e, s) = (raised e, s)
  and_more next (done found, s) = joined found (next s)

  -- `resolve_addresses_via_google_doh`
  unfoldable pub resolve_addresses : Text → State → Seeding (List Address) × State
  unfolding resolve_type
  resolve_addresses host s =
      and_more (resolve_type host (codes "AAAA")) (resolve_type host (codes "A") s)

  -- the `finally`, and the seeding
  abbrev pub seed_with : Seeding (List Address) × State → Seeding (Unit {0}) × State
  seed_with (done found, s) =
      (done tt, record s { bootstrapping = false; deny_list = seed found s.deny_list })
  seed_with (raised e, s) = (raised e, record s { bootstrapping = false })

  -- `OutboundGateway.seed_deny_list`
  unfoldable pub seed_deny_list : Text → State → Seeding (Unit {0}) × State
  unfolding resolve_addresses seed
  seed_deny_list host s = seed_with (resolve_addresses host (record s { bootstrapping = true }))

  abbrev pub seed_address : Option Address → State → Seeding (Unit {0}) × State
  seed_address none s = (raised other_error, s)
  seed_address (some a) s = (done tt, record s { deny_list = seed (a ∷ []) s.deny_list })

  abbrev pub seed_network : Option Network → State → Seeding (Unit {0}) × State
  seed_network none s = (raised other_error, s)
  seed_network (some n) s = (done tt, record s { deny_list = seed_networks (n ∷ []) s.deny_list })

  -- `seed_deny_list_for_target`
  unfoldable pub seed_deny_list_for_target : TargetType → Text → State → Seeding (Unit {0}) × State
  unfolding seed_deny_list seed seed_networks
  seed_deny_list_for_target TargetType.ip target s = seed_address (r.ip_address (str target)) s
  seed_deny_list_for_target TargetType.cidr target s = seed_network (r.ip_network target) s
  seed_deny_list_for_target TargetType.domain target s = seed_deny_list target s
  seed_deny_list_for_target TargetType.organization target s = (raised other_error, s)

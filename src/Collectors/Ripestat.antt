-- ===== src/Collectors/Ripestat.antt =====
-- backend/app/collectors/ripestat.py: the routing context of an address or a network.
use recon_ledger.Prelude.{
  ℕ, Bool, false, not, Option, none, some, List, [], ◌∷◌, ◌++◌, map, join, if◌then◌else◌, ◌==◌,
  Text, codes, text_eq,
}
use recon_ledger.Models.Enums.{Category}
use recon_ledger.Models.Json.{
  Json, null, bool, str, arr, obj, Items, nil, cons, Fields, end, field, get_field, truthy,
}
use recon_ledger.Security.Errors.{Formatting}
use recon_ledger.Collectors.Contract.{CollectedFinding}
use recon_ledger.Collectors.Errors.{CollectorError, provider_unavailable, provider_schema_error}
use recon_ledger.Collectors.Context.{
  Surroundings, Request, Reply, collector_failure, Collecting, ◌>>=◌, pure, raise, lift,
  or_uncaught, gateway_get, parse_json_safely, utcnow, compute_fingerprint, compute_cache_key,
}
use recon_ledger.Collectors.Caching.Access.{cached_or_asked}

abbrev pub ripestat_host : Text
ripestat_host = codes "stat.ripe.net"

abbrev or_null : Option Json → Json
or_null none = null
or_null (some v) = v

-- An autonomous system and its holder.
pub record Asn : Type 0 where
  pub asn : Json
  pub holder : Json

-- the entries that are dictionaries
unfoldable pub asns_in : Items → List Asn
unfolding get_field
asns_in nil = []
asns_in (cons (obj entry) entries) =
    record {
      asn = or_null (get_field (codes "asn") entry);
      holder = or_null (get_field (codes "holder") entry);
    }
    ∷ asns_in entries
asns_in (cons _ entries) = asns_in entries

-- the loop over `value or []`: texts and dictionaries have no dictionaries as elements
abbrev pub asns_if : Option Json → Option (List Asn)
asns_if none = some []
asns_if (some (arr entries)) = some (asns_in entries)
asns_if (some (str t)) = some []
asns_if (some (obj fs)) = some []
asns_if (some v) = if truthy v then none else some []

-- `value or {}`
abbrev pub fields_if : Option Json → Option Fields
fields_if none = some end
fields_if (some (obj fs)) = some fs
fields_if (some v) = if truthy v then none else some end

abbrev or_value : Json → Option Json → Json
or_value default none = default
or_value default (some v) = if truthy v then v else default

-- The normalized record.
pub record Normalized : Type 0 where
  pub queried_resource : Text
  pub resource : Json
  pub announced : Bool
  pub asns : List Asn
  pub related_prefixes : Json
  pub block_resource : Json
  pub block_description : Json
  pub block_registry_name : Json

abbrev pub normalized_of : Fields → Text → Option (List Asn) → Option Fields → Option Normalized
normalized_of fs queried_resource (some asns) (some block) = some (record {
  queried_resource = queried_resource;
  resource = or_value (str queried_resource) (get_field (codes "resource") fs);
  announced = truthy (or_null (get_field (codes "announced") fs));
  asns = asns;
  related_prefixes = or_value (arr nil) (get_field (codes "related_prefixes") fs);
  block_resource = or_null (get_field (codes "resource") block);
  block_description = or_null (get_field (codes "desc") block);
  block_registry_name = or_null (get_field (codes "name") block);
})
normalized_of fs queried_resource _ _ = none

-- `_normalize`, `none` for an exception
unfoldable pub normalize : Fields → Text → Option Normalized
unfolding get_field asns_in
normalize fs queried_resource =
    normalized_of fs queried_resource (asns_if (get_field (codes "asns") fs))
      (fields_if (get_field (codes "block") fs))

abbrev asn_value : Asn → Json
asn_value a = obj (field (codes "asn") a.asn (field (codes "holder") a.holder end))

abbrev items_of : List Json → Items
items_of [] = nil
items_of (x ∷ xs) = cons x (items_of xs)

unfoldable pub normalized_value : Normalized → Json
normalized_value n = obj (
    field (codes "queried_resource") (str n.queried_resource) (
      field (codes "resource") n.resource (
        field (codes "announced") (bool n.announced) (
          field (codes "asns") (arr (items_of (map asn_value n.asns))) (
            field (codes "related_prefixes") n.related_prefixes (
              field (codes "block_resource") n.block_resource (
                field (codes "block_description") n.block_description
                  (field (codes "block_registry_name") n.block_registry_name end))))))))

module _ (w : Surroundings) (f : Formatting) where
  abbrev text_of : Json → Text
  text_of (str t) = t
  text_of v = w.show v

  abbrev holder_text : Asn → Text
  holder_text a =
      if truthy a.holder
      then codes "AS" ++ text_of a.asn ++ codes " (" ++ text_of a.holder ++ codes ")"
      else codes "AS" ++ text_of a.asn

  abbrev not_announced : Normalized → Text
  not_announced n =
      text_of n.resource
      ++ codes " is not currently announced. Registry block: "
      ++ text_of (
          or_value (str (codes "no registry block information available"))
            (some n.block_description))
      ++ codes "."

  abbrev announced_by : Normalized → List Asn → Text
  announced_by n [] = not_announced n
  announced_by n (a ∷ as') =
      codes "Announced as "
      ++ text_of n.resource
      ++ codes ", originated by "
      ++ join (codes "; ") (map holder_text (a ∷ as'))
      ++ codes "."

  unfoldable pub summary_of : Normalized → Text
  summary_of n = if n.announced then announced_by n n.asns else not_announced n

  -- `_build_finding`
  unfoldable pub build_finding : ℕ → Normalized → Json → Text → CollectedFinding
  unfolding summary_of normalized_value compute_fingerprint
  build_finding now n raw source_url = record {
    category = Category.network_footprint;
    kind = codes "ripestat.prefix_overview";
    title = codes "Routing context for " ++ w.target;
    summary = summary_of n;
    normalized_value = normalized_value n;
    raw_evidence = raw;
    source_url = source_url;
    retrieved_at = now;
    fingerprint =
        compute_fingerprint w (codes "ripestat") (codes "ripestat.prefix_overview")
          (obj (field (codes "resource") n.resource end));
    provider_observed_at = none;
    confidence = none;
  }

  abbrev pub request : Request
  request = record {
    url =
        w.with_params (codes "https://stat.ripe.net/data/prefix-overview/data.json")
          ((codes "resource", w.target) ∷ (codes "sourceapp", codes "ReconLedger") ∷ []);
    allowed_hosts = ripestat_host ∷ [];
    headers = [];
    timeout_seconds = none;
    max_response_bytes = none;
    allow_redirect_to = none;
  }

  abbrev refuse {ℓ} : {A : Type ℓ} → (Text → Text → CollectorError) → Text → Collecting A
  refuse error detail = raise (collector_failure (error (codes "ripestat") detail))

  abbrev if_found : Reply → Collecting Json
  if_found r =
      let body = parse_json_safely w r ripestat_host in
      let failure =
        refuse provider_unavailable (codes "unexpected status " ++ f.decimal r.status_code) in
      if not (r.status_code == 200) then failure else body

  abbrev is_ok : Option Json → Bool
  is_ok (some (str t)) = text_eq t (codes "ok")
  is_ok _ = false

  abbrev repr_of : Option Json → Text
  repr_of (some (str t)) = f.repr t
  repr_of v = w.show (or_null v)

  abbrev with_payload : Option Json → Collecting Fields
  with_payload (some (obj fs)) = pure fs
  with_payload _ = refuse provider_schema_error (codes "response missing a 'data' object")

  abbrev payload_of : Json → Collecting Fields
  payload_of (obj fs) =
      let payload = with_payload (get_field (codes "data") fs) in
      let failure =
        refuse provider_unavailable
          (codes "API status " ++ repr_of (get_field (codes "status") fs)) in
      if is_ok (get_field (codes "status") fs) then payload else failure
  payload_of _ = refuse provider_schema_error (codes "response was not a JSON object")

  -- `run`, once nothing is cached
  unfoldable pub ask : Collecting (List CollectedFinding × Json)
  unfolding gateway_get parse_json_safely get_field text_eq normalize utcnow build_finding
  ask = do
    response ← gateway_get w request
    body ← if_found response
    payload ← payload_of body
    n ← lift (or_uncaught (normalize payload w.target))
    now ← utcnow w
    pure (build_finding now n body request.url ∷ [], body)

  unfoldable pub run : Collecting (List CollectedFinding)
  unfolding compute_cache_key cached_or_asked ask
  run =
      cached_or_asked w (compute_cache_key w (codes "ripestat") (codes "1") w.target [] none) 86400
        3600 ask

-- ===== src/Collectors/Technology/Rules.antt =====
-- The rules of backend/app/collectors/technology.py, one function for each kind of evidence.
use recon_ledger.Prelude.{
  Bool, false, ◌||◌, Option, none, some, List, [], ◌∷◌, ◌++◌, map, any, if◌then◌else◌, Text, codes,
  text_eq, contains_text, ◌>>=◌,
}
use recon_ledger.Models.Enums.{Confidence}
use recon_ledger.Models.Json.{
  Json, str, arr, obj, Items, nil, cons, Fields, end, field, get_field, truthy,
}
use recon_ledger.Models.Db.{Finding}
use recon_ledger.Services.Diff.{put, lookup}
use recon_ledger.Collectors.Technology.{Detection, merge_fired}

abbrev pub Rules : Type 0
Rules = List (Bool × Detection)

abbrev pub applied : Finding → List Detection → Option Rules → Option (List Detection)
applied f ds none = none
applied f ds (some rules) = some (merge_fired f rules ds)

abbrev detection : Text → Text → Confidence → Text → Detection
detection rule_id technology confidence explanation = record {
  rule_id = rule_id;
  technology = technology;
  confidence = confidence;
  explanation = explanation;
  supporting_ids = [];
  source_url = [];
}

-- Python's functions: `generator` is the first group of `_GENERATOR_META_RE`, where it is found.
pub record Strings : Type 0 where
  pub lower : Text → Text
  pub strip : Text → Text
  pub show : Json → Text
  pub repr : Text → Text
  pub generator : Text → Option Text

abbrev pub ns_patterns : List (Text × Text × Text)
ns_patterns =
    (codes "ns.cloudflare_dns", codes "cloudflare.com", codes "Cloudflare (DNS/CDN)")
    ∷ (codes "ns.route53", codes "awsdns", codes "Amazon Route 53")
    ∷ (codes "ns.godaddy_dns", codes "domaincontrol.com", codes "GoDaddy DNS")
    ∷ (codes "ns.azure_dns", codes "azure-dns", codes "Azure DNS")
    ∷ []

abbrev pub mx_patterns : List (Text × List Text × Text)
mx_patterns =
    (
      codes "mx.google_workspace",
      codes "google.com" ∷ codes "googlemail.com" ∷ [],
      codes "Google Workspace (Gmail)",
    )
    ∷ (
      codes "mx.microsoft_365",
      codes "outlook.com" ∷ codes "protection.outlook.com" ∷ [],
      codes "Microsoft 365",
    )
    ∷ []

abbrev pub header_rules : List (Text × Text × Text × Text × Confidence)
header_rules =
    (
      codes "header.server_cloudflare",
      codes "server",
      codes "cloudflare",
      codes "Cloudflare",
      Confidence.medium,
    )
    ∷ (codes "header.server_nginx", codes "server", codes "nginx", codes "nginx", Confidence.low)
    ∷ (
      codes "header.server_apache",
      codes "server",
      codes "apache",
      codes "Apache HTTP Server",
      Confidence.low,
    )
    ∷ (
      codes "header.server_gws",
      codes "server",
      codes "gws",
      codes "Google Web Server",
      Confidence.low,
    )
    ∷ (
      codes "header.powered_by_php",
      codes "x-powered-by",
      codes "php",
      codes "PHP",
      Confidence.medium,
    )
    ∷ (
      codes "header.powered_by_express",
      codes "x-powered-by",
      codes "express",
      codes "Express (Node.js)",
      Confidence.medium,
    )
    ∷ (
      codes "header.powered_by_aspnet",
      codes "x-powered-by",
      codes "asp.net",
      codes "ASP.NET",
      Confidence.medium,
    )
    ∷ []

-- The explanations name the first needle.
abbrev pub body_rules : List (Text × Text × List Text × Text)
body_rules =
    (
      codes "body.wordpress_paths",
      codes "wp-content/",
      codes "wp-includes/" ∷ [],
      codes "WordPress",
    )
    ∷ (codes "body.shopify", codes "cdn.shopify.com", codes ".myshopify.com" ∷ [], codes "Shopify")
    ∷ (codes "body.wix", codes "static.wixstatic.com", [], codes "Wix")
    ∷ []

module _ (p : Strings) where
  -- `str(value)`
  abbrev pub text_of : Json → Text
  text_of (str t) = t
  text_of v = p.show v

  -- `value or []`, of a list: another value that counts as true ends in an exception here
  abbrev pub items_or_none : Option Json → Option Items
  items_or_none none = some nil
  items_or_none (some (arr xs)) = some xs
  items_or_none (some v) = if truthy v then none else some nil

  abbrev pub lowered_texts : Items → List Text
  lowered_texts nil = []
  lowered_texts (cons v vs) = p.lower (text_of v) ∷ lowered_texts vs

  -- `.get` of a dictionary; other values have none
  abbrev pub field_of : Text → Json → Option (Option Json)
  field_of k (obj fs) = some (get_field k fs)
  field_of k _ = none

  abbrev or_empty_text : Option Json → Text
  or_empty_text none = []
  or_empty_text (some v) = text_of v

  -- `[str(r.get("exchange", "")).lower() for r in records]`
  unfoldable pub exchanges_of : Items → Option (List Text)
  unfolding get_field
  exchanges_of nil = some []
  exchanges_of (cons r rs) = do
    exchange ← field_of (codes "exchange") r
    exchanges ← exchanges_of rs
    some (p.lower (or_empty_text exchange) ∷ exchanges)

  abbrev ns_rule : List Text → Text × Text × Text → Bool × Detection
  ns_rule nameservers (rule_id, needle, technology) = (
    any (λ ns. contains_text ns needle) nameservers,
    detection rule_id technology Confidence.medium
        (codes "A nameserver contained " ++ p.repr needle ++ codes "."),
  )

  -- the rules on the nameservers, `none` for an exception
  unfoldable pub ns_rules : Finding → Option Rules
  unfolding get_field any contains_text
  ns_rules f = do
    value ← field_of (codes "nameservers") f.normalized_value
    items ← items_or_none value
    some (map (ns_rule (lowered_texts items)) ns_patterns)

  unfoldable pub rules_from_nameservers : Finding → List Detection → Option (List Detection)
  unfolding ns_rules merge_fired
  rules_from_nameservers f ds = applied f ds (ns_rules f)

  abbrev mx_rule : List Text → Text × List Text × Text → Bool × Detection
  mx_rule exchanges (rule_id, needles, technology) = (
    any (λ exchange. any (contains_text exchange) needles) exchanges,
    detection rule_id technology Confidence.medium
        (codes "A mail exchanger record matched a known provider."),
  )

  unfoldable pub mx_rules : Finding → Option Rules
  unfolding get_field any contains_text exchanges_of
  mx_rules f = do
    value ← field_of (codes "records") f.normalized_value
    items ← items_or_none value
    exchanges ← exchanges_of items
    some (map (mx_rule exchanges) mx_patterns)

  unfoldable pub rules_from_mx : Finding → List Detection → Option (List Detection)
  unfolding mx_rules merge_fired
  rules_from_mx f ds = applied f ds (mx_rules f)

  -- `{str(k).lower(): str(v).lower() for k, v in value.items()}`
  unfoldable pub lowered_headers : List (Text × Text) → Fields → List (Text × Text)
  unfolding put
  lowered_headers headers end = headers
  lowered_headers headers (field k v fs) =
      lowered_headers (put (p.lower k) (p.lower (text_of v)) headers) fs

  -- `(value or {}).items()`; a value with no items ends in an exception
  abbrev pub fields_or_none : Option Json → Option Fields
  fields_or_none none = some end
  fields_or_none (some (obj fs)) = some fs
  fields_or_none (some v) = if truthy v then none else some end

  abbrev header_has : Text → Option Text → Bool
  header_has needle none = false
  header_has needle (some value) = contains_text value needle

  abbrev header_rule :
      List (Text × Text) → Text × Text × Text × Text × Confidence → Bool × Detection
  header_rule headers (rule_id, name, needle, technology, confidence) = (
    header_has needle (lookup name headers),
    detection rule_id technology confidence (
        codes "The "
        ++ p.repr name
        ++ codes " response header contained "
        ++ p.repr needle
        ++ codes "."),
  )

  abbrev body_rule : Text → Text × Text × List Text × Text → Bool × Detection
  body_rule body (rule_id, needle, needles, technology) = (
    any (contains_text body) (needle ∷ needles),
    detection rule_id technology Confidence.high
        (codes "Archived HTML referenced " ++ p.repr needle ++ codes "."),
  )

  abbrev generator_rule : Option Text → List (Bool × Detection)
  generator_rule none = []
  generator_rule (some g) =
      let generator = p.strip g in
      (
        contains_text (p.lower generator) (codes "wordpress"),
        detection (codes "body.generator_wordpress") (codes "WordPress") Confidence.high
            (codes "<meta name=generator> declared " ++ p.repr generator ++ codes "."),
      )
      ∷ []

  -- `(raw or {}).get("body_snippet") or ""`
  abbrev snippet_of : Json → Option Text
  snippet_of (obj fs) = elim (get_field (codes "body_snippet") fs) [
    | none ↦ some []
    | some v ↦ some (if truthy v then text_of v else [])
  ]
  snippet_of v = if truthy v then none else some []

  unfoldable pub sample_rules : Finding → Option Rules
  unfolding get_field lowered_headers lookup any contains_text
  sample_rules f = do
    value ← field_of (codes "headers") f.normalized_value
    fields ← fields_or_none value
    body ← snippet_of f.raw_evidence
    some (
        map (header_rule (lowered_headers [] fields)) header_rules
        ++ map (body_rule (p.lower body)) body_rules
        ++ generator_rule (p.generator body))

  unfoldable pub rules_from_archived_sample : Finding → List Detection → Option (List Detection)
  unfolding sample_rules merge_fired
  rules_from_archived_sample f ds = applied f ds (sample_rules f)

  -- the loop's body
  unfoldable pub take_finding : Finding → List Detection → Option (List Detection)
  unfolding text_eq rules_from_nameservers rules_from_mx rules_from_archived_sample
  take_finding f ds =
      if text_eq f.kind (codes "dns.ns")
      then rules_from_nameservers f ds
      else if text_eq f.kind (codes "dns.mx")
      then rules_from_mx f ds
      else if text_eq f.kind (codes "wayback.sample") || text_eq f.kind (codes "commoncrawl.sample")
      then rules_from_archived_sample f ds
      else some ds

  unfoldable pub take_findings : List Finding → List Detection → Option (List Detection)
  unfolding take_finding
  take_findings [] ds = some ds
  take_findings (f ∷ fs) ds = take_finding f ds >>= take_findings fs

-- ===== src/Collectors/Rdap/Record.antt =====
-- `_normalize_rdap_record` and `_build_finding` of backend/app/collectors/rdap.py. An exception is `none`;
-- a list of another type than the registry's also ends in one here.
use recon_ledger.Prelude.{
  Bool, true, false, ◌&&◌, Option, none, some, List, [], ◌∷◌, any, if◌then◌else◌, Text, codes,
  text_eq, contains_text, ◌>>=◌,
}
use recon_ledger.Models.Json.{
  Json, null, str, arr, obj, Items, nil, cons, Fields, field, get_field, truthy,
}
use recon_ledger.Services.Diff.{put}
use recon_ledger.Collectors.Wayback.{mem_item}

-- `value.get(key)`, `none` for a value that is no dictionary
abbrev pub field_of : Text → Json → Option (Option Json)
field_of k (obj fs) = some (get_field k fs)
field_of k _ = none

-- `value or []`, of a list
abbrev pub items_or_none : Option Json → Option Items
items_or_none none = some nil
items_or_none (some (arr xs)) = some xs
items_or_none (some v) = if truthy v then none else some nil

abbrev pub or_null : Option Json → Json
or_null none = null
or_null (some v) = v

-- `value or []`
abbrev pub or_no_items : Option Json → Json
or_no_items none = arr nil
or_no_items (some v) = if truthy v then v else arr nil

abbrev text_if : Json → Option Text
text_if (str t) = some t
text_if _ = none

abbrev value_of : Items → Option Json
value_of (cons label (cons parameters (cons kind (cons value rest)))) = some value
value_of _ = none

abbrev is_fn : Json → Bool
is_fn (arr (cons (str name) rest)) = text_eq name (codes "fn")
is_fn _ = false

abbrev fn_text : Json → Option Text
fn_text (arr items) = value_of items >>= text_if
fn_text _ = none

abbrev is_long : Json → Bool
is_long (arr (cons a (cons b (cons c (cons d rest))))) = true
is_long _ = false

unfoldable pub find_fn : Items → Option Text
unfolding text_eq
find_fn nil = none
find_fn (cons prop props) =
    let rest = find_fn props in if is_long prop && is_fn prop then fn_text prop else rest

-- `_extract_vcard_fn`
unfoldable pub extract_vcard_fn : Option Json → Option Text
unfolding find_fn
extract_vcard_fn (some (arr (cons kind (cons (arr props) rest)))) = find_fn props
extract_vcard_fn _ = none

abbrev pub redaction_markers : List Text
redaction_markers = codes "redacted" ∷ codes "not disclosed" ∷ codes "withheld" ∷ []

abbrev pub not_disclosed : Text
not_disclosed = codes "not disclosed by registrar"

-- An entity of the normalized record.
pub record Entity : Type 0 where
  pub roles : Json
  pub name : Text

module _ (lower : Text → Text) where
  abbrev named_or_not : Option Text → Text
  named_or_not none = not_disclosed
  named_or_not (some []) = not_disclosed
  named_or_not (some (c ∷ name)) =
      if any (contains_text (lower (c ∷ name))) redaction_markers then not_disclosed else c ∷ name

  -- `_entity_display_name`
  unfoldable pub entity_display_name : Fields → Text
  unfolding extract_vcard_fn get_field any contains_text
  entity_display_name entity =
      named_or_not (extract_vcard_fn (get_field (codes "vcardArray") entity))

  unfoldable pub entities_of : Items → Option (List Entity)
  unfolding entity_display_name get_field
  entities_of nil = some []
  entities_of (cons (obj entity) entities) = do
    rest ← entities_of entities
    some (
        record {
          roles = or_no_items (get_field (codes "roles") entity);
          name = entity_display_name entity;
        }
        ∷ rest)
  entities_of (cons _ entities) = none

-- `events[action] = event.get("eventDate")`
abbrev with_event : Option Json → Json → List (Text × Json) → Option (List (Text × Json))
with_event none date events = some events
with_event (some (str [])) date events = some events
with_event (some (str (c ∷ action))) date events = some (put (c ∷ action) date events)
with_event (some v) date events = if truthy v then none else some events

unfoldable pub events_from : Items → List (Text × Json) → Option (List (Text × Json))
unfolding put get_field
events_from nil events = some events
events_from (cons (obj event) rest) events =
    with_event (get_field (codes "eventAction") event)
      (or_null (get_field (codes "eventDate") event)) events
    >>= events_from rest
events_from (cons _ rest) events = none

-- `"registrar" in roles`
abbrev has_registrar : Json → Option Bool
has_registrar (arr roles) = some (mem_item (codes "registrar") roles)
has_registrar (str roles) = some (contains_text roles (codes "registrar"))
has_registrar (obj (field k v fs)) =
    some (elim (get_field (codes "registrar") (field k v fs)) [ none ↦ false | some w ↦ true ])
has_registrar _ = none

-- the first registrar's name
unfoldable pub registrar_of : List Entity → Option Text
unfolding mem_item contains_text get_field
registrar_of [] = some not_disclosed
registrar_of (e ∷ es) = do
  found ← has_registrar e.roles
  if found then some e.name else registrar_of es

unfoldable pub nameservers_of : Items → Option (List Json)
unfolding get_field
nameservers_of nil = some []
nameservers_of (cons (obj ns) rest) = do
  names ← nameservers_of rest
  let name = or_null (get_field (codes "ldhName") ns)
  some (if truthy name then name ∷ names else names)
nameservers_of (cons _ rest) = none

-- The normalized record.
pub record Normalized : Type 0 where
  pub target : Text
  pub handle : Json
  pub ldh_name : Json
  pub status : Json
  pub nameservers : List Json
  pub events : List (Text × Json)
  pub entities : List Entity
  pub registrar : Text

-- `_normalize_rdap_record`
unfoldable pub normalize_rdap_record : (Text → Text) → Fields → Text → Option Normalized
unfolding get_field events_from entities_of registrar_of nameservers_of
normalize_rdap_record lower fs target = do
  event_items ← items_or_none (get_field (codes "events") fs)
  events ← events_from event_items []
  entity_items ← items_or_none (get_field (codes "entities") fs)
  entities ← entities_of lower entity_items
  registrar ← registrar_of entities
  ns_items ← items_or_none (get_field (codes "nameservers") fs)
  nameservers ← nameservers_of ns_items
  some (record {
    target = target;
    handle = or_null (get_field (codes "handle") fs);
    ldh_name = or_null (get_field (codes "ldhName") fs);
    status = or_no_items (get_field (codes "status") fs);
    nameservers = nameservers;
    events = events;
    entities = entities;
    registrar = registrar;
  })

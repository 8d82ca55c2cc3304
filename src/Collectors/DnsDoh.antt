-- ===== src/Collectors/DnsDoh.antt =====
-- backend/app/collectors/dns_doh.py: the queries, and the records in their answers. A value of another type
-- than DNS over HTTPS gives it ends in an exception here.
pub mod Mail
pub mod Queries
pub mod Run
use recon_ledger.Prelude.{
  ℕ, Bool, true, false, ◌&&◌, not, Option, none, some, List, [], ◌∷◌, ◌++◌, map, length, join,
  starts_with, sort_texts, add_text, if◌then◌else◌, ◌==◌, Text, codes, text_eq, ◌>>=◌,
}
use recon_ledger.Models.Json.{Json, str, arr, obj, Items, nil, cons, Fields, get_field, truthy}
use recon_ledger.Collectors.Crtsh.{rstrip}
use recon_ledger.Security.Redaction.{replace}

abbrev pub primary_host : Text
primary_host = codes "dns.google"

abbrev pub secondary_host : Text
secondary_host = codes "cloudflare-dns.com"

abbrev pub items_if : Option Json → Option Items
items_if none = some nil
items_if (some (arr answers)) = some answers
items_if (some v) = if truthy v then none else some nil

-- `data.get("Answer") or []`
unfoldable pub answers_of : Json → Option Items
unfolding get_field
answers_of (obj fs) = items_if (get_field (codes "Answer") fs)
answers_of _ = none

abbrev with_datum : Option Json → Option (List Text) → Option (List Text)
with_datum none rest = rest
with_datum (some (str t)) (some rest) = some (t ∷ rest)
with_datum _ _ = none

-- `[a["data"] for a in answers if "data" in a]`
unfoldable pub data_texts : Items → Option (List Text)
unfolding get_field
data_texts nil = some []
data_texts (cons (obj a) rest) = with_datum (get_field (codes "data") a) (data_texts rest)
data_texts (cons _ rest) = none

abbrev pub texts_in : Json → Option (List Text)
texts_in value = answers_of value >>= data_texts

-- the set of these texts
abbrev pub set_of : List Text → List Text
set_of [] = []
set_of (t ∷ ts) = add_text t (set_of ts)

-- `_addresses_from_answer`
unfoldable pub addresses_from_answer : Json → Option (List Text)
unfolding answers_of data_texts add_text sort_texts
addresses_from_answer value = texts_in value >>= λ ts. some (sort_texts (set_of ts))

-- `… if data else []`, of a query that may have failed
abbrev pub addresses_if : Option Json → Option (List Text)
addresses_if none = some []
addresses_if (some value) = if truthy value then addresses_from_answer value else some []

abbrev pub is_data : Option Json → Bool
is_data none = false
is_data (some value) = truthy value

unfoldable pub same_texts : List Text → List Text → Bool
unfolding text_eq
same_texts [] [] = true
same_texts (s ∷ ss) (t ∷ ts) = text_eq s t && same_texts ss ts
same_texts _ _ = false

-- A start of authority: its seven fields.
pub record Soa : Type 0 where
  pub mname : Text
  pub rname : Text
  pub serial : Text
  pub refresh : Text
  pub retry : Text
  pub expire : Text
  pub minimum : Text

-- Python's functions on texts: `quoted` is the `findall` of the quoted parts, `words` is `split()`,
-- `word_and_rest` is `split(None, 1)`, `to_number` is `int` where `isdigit` holds and `none` elsewhere.
pub record Strings : Type 0 where
  pub lower : Text → Text
  pub strip : Text → Text
  pub quoted : Text → List Text
  pub words : Text → List Text
  pub word_and_rest : Text → List Text
  pub to_number : Text → Option ℕ
  pub show : Json → Text

module _ (p : Strings) where
  -- `_parse_txt_datum`
  unfoldable pub parse_txt_datum : Text → Text
  unfolding starts_with replace
  parse_txt_datum raw =
      if starts_with raw (34 ∷ [])
      then replace (92 ∷ 34 ∷ []) (34 ∷ []) (join [] (p.quoted raw))
      else raw

  -- `_txt_values`
  unfoldable pub txt_values : Json → Option (List Text)
  unfolding answers_of data_texts parse_txt_datum
  txt_values value = texts_in value >>= λ ts. some (map parse_txt_datum ts)

  -- `str(value)`, and `""` for a missing one
  abbrev pub text_of : Option Json → Text
  text_of none = []
  text_of (some (str t)) = t
  text_of (some v) = p.show v

  abbrev with_exchange : Option ℕ → Text → List (ℕ × Text) → List (ℕ × Text)
  with_exchange none exchange rest = rest
  with_exchange (some preference) exchange rest = (preference, rstrip 46 exchange) ∷ rest

  abbrev with_mx : List Text → List (ℕ × Text) → List (ℕ × Text)
  with_mx (preference ∷ exchange ∷ []) rest = with_exchange (p.to_number preference) exchange rest
  with_mx _ rest = rest

  -- the mail exchangers with their preferences
  unfoldable pub mx_records : Items → Option (List (ℕ × Text))
  unfolding get_field rstrip
  mx_records nil = some []
  mx_records (cons (obj answer) rest) = mx_records rest >>= λ records.
      some (with_mx (p.word_and_rest (text_of (get_field (codes "data") answer))) records)
  mx_records (cons _ rest) = none

  abbrev soa_fields : List Text → Option Soa
  soa_fields (a ∷ b ∷ c ∷ d ∷ e ∷ f ∷ g ∷ []) = some (record {
    mname = rstrip 46 a;
    rname = rstrip 46 b;
    serial = c;
    refresh = d;
    retry = e;
    expire = f;
    minimum = g;
  })
  soa_fields _ = none

  abbrev soa_if : Option Json → Option Soa
  soa_if none = none
  soa_if (some v) = soa_fields (p.words (text_of (some v)))

  -- the first answer's start of authority; the outer `none` is an exception
  unfoldable pub soa_of : Items → Option (Option Soa)
  unfolding get_field rstrip
  soa_of nil = some none
  soa_of (cons (obj answer) rest) = some (soa_if (get_field (codes "data") answer))
  soa_of (cons v rest) = if truthy v then none else some none

-- ===== src/Security/Targets.antt =====
-- backend/app/security/targets.py: what a user may assess, and under which canonical name. Python's
-- Unicode tables (`strip`, `split`, `lower`, IDNA) and its parser of addresses are arguments.
pub mod Validity
use recon_ledger.Prelude.{
  ℕ, ◌<◌, zero, suc, Bool, true, false, ◌&&◌, ◌||◌, not, Option, none, some, List, [], ◌∷◌, ◌++◌,
  length, any, all, ltb, leb, ◌==◌, if◌then◌else◌, ◌⊎◌, inl, inr, Text, codes, contains_text,
}
use recon_ledger.Models.Enums.{TargetType}
use recon_ledger.Security.Network.{Address, AddressClasses, is_forbidden_address}
use recon_ledger.Security.Network

-- What `reason` says: the fixed messages, and those with an argument.
pub data TargetValidationError : Type 0 where
  too_long control_characters is_empty : TargetValidationError
  has_scheme has_credentials has_wildcard has_port : TargetValidationError
  not_a_network wide_ipv4 wide_ipv6 : TargetValidationError
  forbidden_address : Text → TargetValidationError
  empty_label bad_domain_length one_label numeric_domain : TargetValidationError
  bad_label : Text → TargetValidationError
  bad_organization : TargetValidationError

pub record ClassifiedTarget : Type 0 where
  pub target_type : TargetType
  pub original_input : Text
  pub normalized : Text
  pub assessable : Bool

pub data Classified : Type 0 where
  ok : ClassifiedTarget → Classified
  err : TargetValidationError → Classified

pub record Unicode : Type 0 where
  pub classes : AddressClasses
  -- `s.strip()`, `s.split()` and `s.lower()`
  pub strip : Text → Text
  pub words : Text → List Text
  pub lower : Text → Text
  -- `label.encode("idna").decode("ascii")`, with `none` for a UnicodeError
  pub idna : Text → Option Text
  -- `ipaddress.ip_address` and `ip_network`, with `none` for a ValueError
  pub ip_address : Text → Option Address
  pub ip_network : Text → Option Network.Network
  pub show_address : Address → Text
  pub show_network : Network.Network → Text

-- an accepted target that can be assessed
abbrev pub target : TargetType → Text → Text → Classified
target t stripped normalized = ok (record {
  target_type = t;
  original_input = stripped;
  normalized = normalized;
  assessable = true;
})

-- `_reject_universal_patterns`
unfoldable pub reject_universal_patterns : Text → Option TargetValidationError
unfolding contains_text
reject_universal_patterns s =
    if contains_text s (codes "://")
    then some has_scheme
    else if contains_text s (codes "@")
    then some has_credentials
    else if contains_text s (codes "*")
    then some has_wildcard
    else none

-- `[a-z0-9]`, and with the hyphen
abbrev pub is_alphanumeric : ℕ → Bool
is_alphanumeric c = (leb 97 c && leb c 122) || (leb 48 c && leb c 57)

abbrev pub is_label_character : ℕ → Bool
is_label_character c = is_alphanumeric c || c == 45

-- `$` also stands before a newline at the end.
unfoldable pub chomp : Text → Text
chomp [] = []
chomp (c ∷ []) = if c == 10 then [] else c ∷ []
chomp (c ∷ d ∷ s) = c ∷ chomp (d ∷ s)

-- `[a-z0-9-]*[a-z0-9]`
unfoldable pub ends_label : Text → Bool
ends_label [] = false
ends_label (c ∷ []) = is_alphanumeric c
ends_label (c ∷ d ∷ s) = is_label_character c && ends_label (d ∷ s)

-- `[a-z0-9]([a-z0-9-]{0,61}[a-z0-9])?`
unfoldable pub is_label : Text → Bool
unfolding ends_label
is_label [] = false
is_label (c ∷ []) = is_alphanumeric c
is_label (c ∷ d ∷ s) = is_alphanumeric c && leb (length (d ∷ s)) 62 && ends_label (d ∷ s)

-- `_LDH_LABEL_RE.match(label)`
unfoldable pub is_ldh_label : Text → Bool
unfolding is_label chomp
is_ldh_label l = is_label (chomp l)

-- `s.rstrip(".")`
unfoldable pub strip_dots : Text → Text
strip_dots [] = []
strip_dots (c ∷ s) =
    let rest = strip_dots s in if c == 46 && leb (length rest) 0 then [] else c ∷ rest

-- `s.split(".")`: the first label, and the others
unfoldable pub split_dots : Text → Text × List Text
split_dots [] = ([], [])
split_dots (c ∷ s) =
    let (label, labels) = split_dots s in
    if c == 46 then ([], label ∷ labels) else (c ∷ label, labels)

-- `".".join(labels)`
unfoldable pub join_dots : List Text → Text
join_dots [] = []
join_dots (l ∷ []) = l
join_dots (l ∷ m ∷ ls) = l ++ 46 ∷ join_dots (m ∷ ls)

-- `labels[-1].isdigit()`, of labels that are matched already: ASCII digits, at least one
unfoldable pub last_is_digit : List Text → Bool
unfolding all
last_is_digit [] = false
last_is_digit (l ∷ []) = not (leb (length l) 0) && all (λ c. leb 48 c && leb c 57) l
last_is_digit (l ∷ m ∷ ls) = last_is_digit (m ∷ ls)

-- `any(label == "" for label in labels)`
unfoldable pub has_empty_label : List Text → Bool
unfolding any
has_empty_label ls = any (λ l. leb (length l) 0) ls

-- the first label that the pattern refuses
unfoldable pub check_labels : List Text → Option TargetValidationError
unfolding is_ldh_label
check_labels [] = none
check_labels (l ∷ ls) =
    let rest = check_labels ls in if is_ldh_label l then rest else some (bad_label l)

module _ (u : Unicode) where
  -- `_classify_cidr_or_reject_path`
  unfoldable pub network_found : Text → Option Network.Network → Classified
  network_found s none = err not_a_network
  network_found s (some (Network.net4 a p)) =
      if ltb p 16
      then err wide_ipv4
      else target TargetType.cidr s (u.show_network (Network.net4 a p))
  network_found s (some (Network.net6 a p)) =
      if ltb p 48
      then err wide_ipv6
      else target TargetType.cidr s (u.show_network (Network.net6 a p))

  unfoldable pub classify_cidr_or_reject_path : Text → Classified
  unfolding network_found
  classify_cidr_or_reject_path s = network_found s (u.ip_network s)

  -- `_classify_ip`, once the address is read
  unfoldable pub classify_address : Bool → Text → Address → Option Text → Classified
  classify_address true s a reason = target TargetType.ip s (u.show_address a)
  classify_address false s a (some reason) = err (forbidden_address reason)
  classify_address false s a none = target TargetType.ip s (u.show_address a)

  -- the labels in IDNA, or the first that has no such form
  unfoldable pub encode_label :
      Text → Option Text → (TargetValidationError ⊎ List Text) → (TargetValidationError ⊎ List Text)
  encode_label l none rest = inl (bad_label l)
  encode_label l (some e) (inl bad) = inl bad
  encode_label l (some e) (inr es) = inr (e ∷ es)

  unfoldable pub encode_labels : List Text → (TargetValidationError ⊎ List Text)
  unfolding encode_label
  encode_labels [] = inr []
  encode_labels (l ∷ ls) = encode_label l (u.idna l) (encode_labels ls)

  -- the tests on the encoded labels
  unfoldable pub accept_labels : Text → List Text → Option TargetValidationError → Classified
  unfolding last_is_digit join_dots
  accept_labels s ls (some e) = err e
  accept_labels s ls none =
      if ltb 253 (length (join_dots ls))
      then err bad_domain_length
      else if ltb (length ls) 2
      then err one_label
      else if last_is_digit ls
      then err numeric_domain
      else target TargetType.domain s (join_dots ls)

  unfoldable pub classify_encoded : Text → (TargetValidationError ⊎ List Text) → Classified
  unfolding accept_labels check_labels
  classify_encoded s (inl e) = err e
  classify_encoded s (inr ls) = accept_labels s ls (check_labels ls)

  -- `_classify_domain`, with `none` for what is no domain
  unfoldable pub classify_domain : Text → Option Classified
  unfolding strip_dots split_dots has_empty_label encode_labels classify_encoded any
  classify_domain s =
      let lowered = strip_dots (u.lower s) in
      let labels = split_dots lowered in
      if not (any (λ c. c == 46) lowered)
      then none
      else if has_empty_label (labels.0 ∷ labels.1)
      then some (err empty_label)
      else some (classify_encoded s (encode_labels (labels.0 ∷ labels.1)))

  -- `_classify_organization`
  unfoldable pub join_words : List Text → Text
  join_words [] = []
  join_words (w ∷ []) = w
  join_words (w ∷ v ∷ ws) = w ++ 32 ∷ join_words (v ∷ ws)

  unfoldable pub classify_organization : Text → Classified
  unfolding join_words
  classify_organization s =
      if ltb (length s) 2 || ltb 120 (length s)
      then err bad_organization
      else ok (record {
        target_type = TargetType.organization;
        original_input = s;
        normalized = join_words (u.words s);
        assessable = false;
      })

  unfoldable pub domain_or_organization : Text → Option Classified → Classified
  unfolding classify_organization
  domain_or_organization s (some c) = c
  domain_or_organization s none = classify_organization s

  -- what is neither a network nor an address
  unfoldable pub classify_name : Text → Option TargetValidationError → Classified
  unfolding classify_domain domain_or_organization any
  classify_name s (some e) = err e
  classify_name s none =
      if any (λ c. c == 58) s then err has_port else domain_or_organization s (classify_domain s)

  unfoldable pub address_or_name : Bool → Text → Option Address → Classified
  unfolding classify_address classify_name is_forbidden_address reject_universal_patterns
  address_or_name testing s (some a) =
      classify_address testing s a (is_forbidden_address u.classes a)
  address_or_name testing s none = classify_name s (reject_universal_patterns s)

  unfoldable pub network_or_reject : Text → Option TargetValidationError → Classified
  unfolding classify_cidr_or_reject_path
  network_or_reject s (some e) = err e
  network_or_reject s none = classify_cidr_or_reject_path s

  unfoldable pub classify_target : Bool → Text → Classified
  unfolding network_or_reject address_or_name any
  classify_target allow_private_ip_for_testing raw =
      let s = u.strip raw in
      if ltb 512 (length raw)
      then err too_long
      else if any (λ c. ltb c 0x20 || c == 0x7F) raw
      then err control_characters
      else if leb (length s) 0
      then err is_empty
      else if any (λ c. c == 47) s
      then network_or_reject s (reject_universal_patterns s)
      else address_or_name allow_private_ip_for_testing s (u.ip_address s)

-- ===== src/Security/Targets/Validity.antt =====
-- What `classify_target` has made sure of when it accepts an input.
use recon_ledger.Prelude.{
  ◌≤◌, Bool, true, false, ◌||◌, not, Option, none, some, List, [], ◌∷◌, length, any, ltb, leb, ◌==◌,
  if◌then◌else◌, ◌≡◌, ◌⊎◌, inl, inr, refl, arith, All, Text,
}
use recon_ledger.Models.Enums.{TargetType}
use recon_ledger.Security.Network.{Address, is_forbidden_address}
use recon_ledger.Security.Network
use recon_ledger.Security.Targets.{
  TargetValidationError, Classified, ok, err, Unicode, is_ldh_label, join_dots, last_is_digit,
  check_labels, network_found, classify_cidr_or_reject_path, classify_address, accept_labels,
  classify_encoded, encode_labels, classify_domain, classify_organization, domain_or_organization,
  classify_name, address_or_name, network_or_reject, classify_target, reject_universal_patterns,
  strip_dots, split_dots, has_empty_label,
}

-- "/16 or narrower" and "/48 or narrower"
abbrev pub is_narrow : Network.Network → Bool
is_narrow (Network.net4 a p) = leb 16 p
is_narrow (Network.net6 a p) = leb 48 p

-- Letters, digits and hyphens in at least two labels, the last one not a number, within 253 characters.
abbrev pub IsDomainName : Text → Type 0
IsDomainName name =
    (ls : List Text) × (name ≡ join_dots ls)
    × All (λ l. is_ldh_label l ≡ true) ls
    × (2 ≤ length ls)
    × (length name ≤ 253)
    × (last_is_digit ls ≡ false)

module _ (u : Unicode) where
  -- what is promised of an accepted target, by its type
  abbrev pub IsTarget : TargetType → Text → Text → Bool → Type 0
  IsTarget TargetType.domain input name assessable = IsDomainName name
  IsTarget TargetType.ip input name assessable =
      (a : Address) × (name ≡ u.show_address a) × (is_forbidden_address u.classes a ≡ none)
  IsTarget TargetType.cidr input name assessable =
      (n : Network.Network) × (u.ip_network input ≡ some n)
      × (name ≡ u.show_network n)
      × (is_narrow n ≡ true)
  IsTarget TargetType.organization input name assessable =
      (assessable ≡ false) × (2 ≤ length input) × (length input ≤ 120)

  abbrev pub IsValid : Classified → Type 0
  IsValid (ok t) = IsTarget t.target_type t.original_input t.normalized t.assessable
  IsValid (err e) = Unit

  IsValid-if :
      (b : Bool) (x y : Classified)
      → (b ≡ true → IsValid x)
      → (b ≡ false → IsValid y)
      → IsValid (if b then x else y)
  IsValid-if true x y h k = h refl
  IsValid-if false x y h k = k refl

  network_found-IsValid :
      (s : Text) (o : Option Network.Network) → u.ip_network s ≡ o → IsValid (network_found u s o)
  unfolding network_found
  network_found-IsValid s none e = tt
  network_found-IsValid s (some (Network.net4 a p)) e =
      IsValid-if (ltb p 16) _ _ (λ _. tt) (λ h. (Network.net4 a p, e, refl, ground arith))
  network_found-IsValid s (some (Network.net6 a p)) e =
      IsValid-if (ltb p 48) _ _ (λ _. tt) (λ h. (Network.net6 a p, e, refl, ground arith))

  classify_address-IsValid :
      (s : Text) (a : Address) (reason : Option Text)
      → is_forbidden_address u.classes a ≡ reason
      → IsValid (classify_address u false s a reason)
  unfolding classify_address
  classify_address-IsValid s a (some r) e = tt
  classify_address-IsValid s a none e = (a, refl, e)

  check_labels-All : (ls : List Text) → check_labels ls ≡ none → All (λ l. is_ldh_label l ≡ true) ls
  unfolding check_labels
  check_labels-All [] e = tt
  check_labels-All (l ∷ ls) e = ground (arith, check_labels-All ls)

  accept_labels-IsValid :
      (s : Text) (ls : List Text) (o : Option TargetValidationError)
      → check_labels ls ≡ o
      → IsValid (accept_labels u s ls o)
  unfolding accept_labels
  accept_labels-IsValid s ls (some e) h = tt
  accept_labels-IsValid s ls none h =
      IsValid-if (ltb 253 (length (join_dots ls))) _ _ (λ _. tt)
        (λ short.
          IsValid-if (ltb (length ls) 2) _ _ (λ _. tt)
            (λ two.
              IsValid-if (last_is_digit ls) _ _ (λ _. tt)
                (λ name. (ls, refl, check_labels-All ls h, ground arith, ground arith, name))))

  classify_encoded-IsValid :
      (s : Text) (o : TargetValidationError ⊎ List Text) → IsValid (classify_encoded u s o)
  unfolding classify_encoded
  classify_encoded-IsValid s (inl e) = tt
  classify_encoded-IsValid s (inr ls) = accept_labels-IsValid s ls (check_labels ls) refl

  organization-IsValid : (s : Text) → IsValid (classify_organization u s)
  unfolding classify_organization
  organization-IsValid s =
      IsValid-if (ltb (length s) 2 || ltb 120 (length s)) _ _ (λ _. tt)
        (λ h. (refl, ground arith, ground arith))

  -- a domain that was tried
  abbrev IsValidIfAny : Option Classified → Type 0
  IsValidIfAny none = Unit
  IsValidIfAny (some c) = IsValid c

  any-if :
      (b : Bool) (x y : Option Classified)
      → IsValidIfAny x
      → IsValidIfAny y
      → IsValidIfAny (if b then x else y)
  any-if true x y h k = h
  any-if false x y h k = k

  classify_domain-IsValid : (s : Text) → IsValidIfAny (classify_domain u s)
  unfolding classify_domain
  classify_domain-IsValid s =
      let lowered = strip_dots (u.lower s) in
      let labels = split_dots lowered in
      any-if (not (any (λ c. c == 46) lowered)) _ _ tt (
        any-if (has_empty_label (labels.0 ∷ labels.1)) _ _ tt
          (classify_encoded-IsValid s (encode_labels u (labels.0 ∷ labels.1))))

  domain_or_organization-IsValid :
      (s : Text) (o : Option Classified) → IsValidIfAny o → IsValid (domain_or_organization u s o)
  unfolding domain_or_organization
  domain_or_organization-IsValid s (some c) h = h
  domain_or_organization-IsValid s none h = organization-IsValid s

  classify_name-IsValid :
      (s : Text) (o : Option TargetValidationError) → IsValid (classify_name u s o)
  unfolding classify_name
  classify_name-IsValid s (some e) = tt
  classify_name-IsValid s none =
      IsValid-if (any (λ c. c == 58) s) _ _ (λ _. tt)
        (λ _. domain_or_organization-IsValid s (classify_domain u s) (classify_domain-IsValid s))

  address_or_name-IsValid : (s : Text) (o : Option Address) → IsValid (address_or_name u false s o)
  unfolding address_or_name
  address_or_name-IsValid s (some a) =
      classify_address-IsValid s a (is_forbidden_address u.classes a) refl
  address_or_name-IsValid s none = classify_name-IsValid s (reject_universal_patterns s)

  network_or_reject-IsValid :
      (s : Text) (o : Option TargetValidationError) → IsValid (network_or_reject u s o)
  unfolding network_or_reject classify_cidr_or_reject_path
  network_or_reject-IsValid s (some e) = tt
  network_or_reject-IsValid s none = network_found-IsValid s (u.ip_network s) refl

  -- What `classify_target` accepts, with private addresses not allowed: a domain is at least two labels
  -- that the pattern for labels accepts, the last one not a number, within 253 characters; an address
  -- is none of the forbidden ones; a network is /16 or narrower, /48 in IPv6; an organization has 2 to
  -- 120 characters and is not assessable.
  pub classify_target-IsValid : (raw : Text) → IsValid (classify_target u false raw)
  unfolding classify_target
  classify_target-IsValid raw =
      let s = u.strip raw in
      IsValid-if (ltb 512 (length raw)) _ _ (λ _. tt)
        (λ _.
          IsValid-if (any (λ c. ltb c 0x20 || c == 0x7F) raw) _ _ (λ _. tt)
            (λ _.
              IsValid-if (leb (length s) 0) _ _ (λ _. tt)
                (λ _.
                  IsValid-if (any (λ c. c == 47) s) _ _
                    (λ _. network_or_reject-IsValid s (reject_universal_patterns s))
                    (λ _. address_or_name-IsValid s (u.ip_address s)))))

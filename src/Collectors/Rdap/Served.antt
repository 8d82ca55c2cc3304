-- ===== src/Collectors/Rdap/Served.antt =====
-- The base URL that is chosen for a target.
use recon_ledger.Prelude.{
  Bool-cases, ◌⊎◌, split, codes, Bool, true, false, List, [], ◌∷◌, ◌≡◌, refl, inl, inr, Text,
}
use recon_ledger.Models.Enums.{TargetType}
use recon_ledger.Models.Json.{null, bool, num, arr, obj, str, Items, nil, cons}
use recon_ledger.Security.Errors.{Formatting}
use recon_ledger.Collectors.Context.{Surroundings}
use recon_ledger.Collectors.Rdap.{Service, Reading, find_dns_base_urls, find_ip_base_urls, covers}
use recon_ledger.Collectors.Rdap.Run.{base_urls_of, last_of}
use recon_ledger.Collectors.Wayback.{mem_item}

-- The bootstrap file has a service whose keys pass the test and whose first URL is this one.
abbrev pub IsServed : (Items → Bool) → List Service → Text → Type 0
IsServed test [] url = true ≡ false
IsServed test ((keys, cons (str u) urls) ∷ services) url =
    ((test keys ≡ true) × (u ≡ url)) ⊎ IsServed test services url
IsServed test (_ ∷ services) url = IsServed test services url

IsServed-later :
    (test : Items → Bool) (s : Service) (services : List Service) (url : Text)
    → IsServed test services url
    → IsServed test (s ∷ services) url
IsServed-later test (keys, nil) services url h = h
IsServed-later test (keys, cons (str u) urls) services url h = inr h
IsServed-later test (keys, cons null urls) services url h = h
IsServed-later test (keys, cons (bool b) urls) services url h = h
IsServed-later test (keys, cons (num n) urls) services url h = h
IsServed-later test (keys, cons (arr xs) urls) services url h = h
IsServed-later test (keys, cons (obj fs) urls) services url h = h

-- What holds of the first of the URLs, if it is a text.
abbrev pub IfFirst : (Text → Type 0) → Items → Type 0
IfFirst P (cons (str u) urls) = P u
IfFirst P _ = Unit

IfFirst-imp :
    (P Q : Text → Type 0) (urls : Items)
    → ((u : Text) → P u → Q u)
    → IfFirst P urls
    → IfFirst Q urls
IfFirst-imp P Q nil k h = tt
IfFirst-imp P Q (cons (str u) urls) k h = k u h
IfFirst-imp P Q (cons null urls) k h = tt
IfFirst-imp P Q (cons (bool b) urls) k h = tt
IfFirst-imp P Q (cons (num n) urls) k h = tt
IfFirst-imp P Q (cons (arr xs) urls) k h = tt
IfFirst-imp P Q (cons (obj fs) urls) k h = tt

first-IsServed :
    (test : Items → Bool) (keys urls : Items) (services : List Service)
    → test keys ≡ true
    → IfFirst (IsServed test ((keys, urls) ∷ services)) urls
first-IsServed test keys nil services h = tt
first-IsServed test keys (cons (str u) urls) services h = inl (h, refl)
first-IsServed test keys (cons null urls) services h = tt
first-IsServed test keys (cons (bool b) urls) services h = tt
first-IsServed test keys (cons (num n) urls) services h = tt
first-IsServed test keys (cons (arr xs) urls) services h = tt
first-IsServed test keys (cons (obj fs) urls) services h = tt

find_dns_base_urls-IfFirst :
    (services : List Service) (tld : Text)
    → IfFirst (IsServed (mem_item tld) services) (find_dns_base_urls services tld)
unfolding find_dns_base_urls
find_dns_base_urls-IfFirst [] tld = tt
find_dns_base_urls-IfFirst ((keys, urls) ∷ services) tld = elim (Bool-cases (mem_item tld keys)) [
  | inl g ↦ rw g (first-IsServed (mem_item tld) keys urls services g)
  | inr g ↦ rw g (
      IfFirst-imp _ _ (find_dns_base_urls services tld)
        (λ u. IsServed-later (mem_item tld) (keys, urls) services u)
        (find_dns_base_urls-IfFirst services tld))
]

find_ip_base_urls-IfFirst :
    (r : Reading) (services : List Service)
    → IfFirst (IsServed (covers r) services) (find_ip_base_urls r services)
unfolding find_ip_base_urls
find_ip_base_urls-IfFirst r [] = tt
find_ip_base_urls-IfFirst r ((keys, urls) ∷ services) = elim (Bool-cases (covers r keys)) [
  | inl g ↦ rw g (first-IsServed (covers r) keys urls services g)
  | inr g ↦ rw g (
      IfFirst-imp _ _ (find_ip_base_urls r services)
        (λ u. IsServed-later (covers r) (keys, urls) services u)
        (find_ip_base_urls-IfFirst r services))
]

-- The test on the keys of a service that the target makes.
abbrev pub is_for : Surroundings → Reading → Formatting → TargetType → Items → Bool
is_for w r f TargetType.domain keys = mem_item (last_of w r f (split (codes ".") w.target)) keys
is_for w r f _ keys = covers r keys

pub base_urls_of-IfFirst :
    (w : Surroundings) (r : Reading) (f : Formatting) (t : TargetType) (services : List Service)
    → IfFirst (IsServed (is_for w r f t) services) (base_urls_of w r f t services)
unfolding base_urls_of
base_urls_of-IfFirst w r f TargetType.domain services = find_dns_base_urls-IfFirst services _
base_urls_of-IfFirst w r f TargetType.ip services = find_ip_base_urls-IfFirst r services
base_urls_of-IfFirst w r f TargetType.cidr services = find_ip_base_urls-IfFirst r services
base_urls_of-IfFirst w r f TargetType.organization services = find_ip_base_urls-IfFirst r services

-- ===== src/Collectors/Rdap/Approved.antt =====
-- Which hosts a request to a registry may reach.
use recon_ledger.Prelude.{
  Option-cases, IfAny-imp, Bool, true, false, ◌||◌, Option, none, some, List, [], ◌∷◌, ◌++◌, ◌≡◌,
  refl, arith, inl, inr, Text, text_eq, mem_text, add_text, IfAny, IfAny-then,
}
use recon_ledger.Models.Enums.{TargetType}
use recon_ledger.Models.Json.{Json, null, bool, num, arr, obj, str, Items, nil, cons}
use recon_ledger.Security.Errors.{Formatting}
use recon_ledger.Collectors.Context.{
  Surroundings, Session, Request, Outcome, done, raised, or_uncaught,
}
use recon_ledger.Collectors.Rdap.{
  Service, Reading, bootstrap_host, add_host, url_hosts, bootstrap_hosts_from, all_bootstrap_hosts,
}
use recon_ledger.Collectors.Rdap.Served.{IsServed, IfFirst, is_for, base_urls_of-IfFirst}
use recon_ledger.Collectors.Rdap.Run.{
  request_for, request_if, with_slash, base_urls_of, request_to_registry,
}

abbrev is_host : Text → Option Text → Bool
is_host host none = false
is_host host (some h) = text_eq host h

-- One of the URLs has this host.
abbrev pub has_url_at : Reading → Items → Text → Bool
has_url_at r nil host = false
has_url_at r (cons url urls) host = is_host host (r.host_of url) || has_url_at r urls host

-- The bootstrap file lists a URL at this host.
abbrev pub is_listed : Reading → List Service → Text → Bool
is_listed r [] host = false
is_listed r ((keys, urls) ∷ services) host = has_url_at r urls host || is_listed r services host

mem_text-append :
    (k t : Text) (s : List Text) → mem_text k (s ++ t ∷ []) ≡ (mem_text k s || text_eq k t)
unfolding mem_text
mem_text-append k t [] = ground arith
mem_text-append k t (x ∷ s) = ground (arith, mem_text-append k t s)

mem_text-add_text :
    (k t : Text) (s : List Text)
    → mem_text k (add_text t s) ≡ true
    → (mem_text k s || text_eq k t) ≡ true
unfolding add_text
mem_text-add_text k t s h = ground (arith, mem_text-append k t s)

mem_text-add_host :
    (r : Reading) (k host : Text) (hosts : List Text)
    → mem_text k (add_host r host hosts) ≡ true
    → (mem_text k hosts || text_eq k host) ≡ true
mem_text-add_host r k [] hosts h = ground arith
mem_text-add_host r k (c ∷ host) hosts h = mem_text-add_text k (c ∷ host) hosts h

-- Every host in the result was there before, or passes the test.
abbrev AreFrom : List Text → (Text → Bool) → List Text → Type 0
AreFrom hosts test out = (k : Text) → mem_text k out ≡ true → (mem_text k hosts || test k) ≡ true

or_later : (a b c d : Bool) → ((a || b) ≡ true → (c || d) ≡ true) → a ≡ true → (c || d) ≡ true
or_later a b c d h e = h (ground arith)

module _ (r : Reading) where
  url_hosts-AreFrom :
      (urls : Items) (hosts : List Text)
      → IfAny (AreFrom hosts (has_url_at r urls)) (url_hosts r urls hosts)
  unfolding url_hosts
  url_hosts-AreFrom nil hosts = λ k h. ground arith
  url_hosts-AreFrom (cons url urls) hosts = elim (Option-cases (r.host_of url)) [
    | inl g ↦ rw g tt
    | inr (host, g) ↦ rw g (
        IfAny-imp (AreFrom (add_host r host hosts) (has_url_at r urls))
          (AreFrom hosts (has_url_at r (cons url urls))) (url_hosts r urls (add_host r host hosts))
          (λ out h k m. from_added host hosts url urls k g (h k m))
          (url_hosts-AreFrom urls (add_host r host hosts)))
  ]
    where
      from_added :
          (host : Text) (hosts : List Text) (url : Json) (urls : Items) (k : Text)
          → r.host_of url ≡ some host
          → (mem_text k (add_host r host hosts) || has_url_at r urls k) ≡ true
          → (mem_text k hosts || has_url_at r (cons url urls) k) ≡ true
      from_added host hosts url urls k g h = rw g (ground (arith, mem_text-add_host r k host hosts))

  bootstrap_hosts_from-AreFrom :
      (services : List Service) (hosts : List Text)
      → IfAny (AreFrom hosts (is_listed r services)) (bootstrap_hosts_from r services hosts)
  unfolding bootstrap_hosts_from
  bootstrap_hosts_from-AreFrom [] hosts = λ k h. ground arith
  bootstrap_hosts_from-AreFrom ((keys, urls) ∷ services) hosts =
      IfAny-then (AreFrom hosts (has_url_at r urls))
        (AreFrom hosts (λ k. has_url_at r urls k || is_listed r services k))
        (url_hosts r urls hosts) (bootstrap_hosts_from r services) (url_hosts-AreFrom urls hosts)
        (λ mid h.
          IfAny-imp (AreFrom mid (is_listed r services))
            (AreFrom hosts (λ k. has_url_at r urls k || is_listed r services k))
            (bootstrap_hosts_from r services mid) (λ out g k m. chained mid k (h k) (g k m))
            (bootstrap_hosts_from-AreFrom services mid))
    where
      chained :
          (mid : List Text) (k : Text)
          → (mem_text k mid ≡ true → (mem_text k hosts || has_url_at r urls k) ≡ true)
          → (mem_text k mid || is_listed r services k) ≡ true
          → (mem_text k hosts || (has_url_at r urls k || is_listed r services k)) ≡ true
      chained mid k h g = ground arith

-- The gateway would follow a redirect to this host.
abbrev pub is_followed : Option (Text → Bool) → Text → Bool
is_followed none host = false
is_followed (some test) host = test host

-- The request goes to the first base URL of a service for the target, with a slash at its end; and the
-- redirects that are followed lead to the bootstrap's host or to hosts that the bootstrap file lists.
abbrev pub IsApproved :
    Surroundings → Reading → Formatting → TargetType → List Service → Text → Request → Type 0
IsApproved w r f t services path q =
    ((url : Text) × IsServed (is_for w r f t) services url × (q.url ≡ with_slash w r f url ++ path))
    × ((host : Text)
        → is_followed q.allow_redirect_to host ≡ true
        → (text_eq host bootstrap_host || is_listed r services host) ≡ true)

-- What holds of a result, if a run returns one.
abbrev pub IfDone : (Request → Type 0) → Outcome Request → Type 0
IfDone P (done q) = P q
IfDone P (raised e) = Unit

or_uncaught-IfDone :
    (P : Request → Type 0) (o : Option Request) → IfAny P o → IfDone P (or_uncaught o)
or_uncaught-IfDone P none h = tt
or_uncaught-IfDone P (some q) h = h

module _ (w : Surroundings) (r : Reading) (f : Formatting) (services : List Service)
    (path : Text) where
  module _ (t : TargetType) where
    request_if-IsApproved :
        (url : Text) (approved : Option (List Text)) (registry : Option Text)
        → IfAny (AreFrom [] (is_listed r services)) approved
        → IsServed (is_for w r f t) services url
        → IfAny
            (IsApproved w r f t services path)
            (request_if w r f (with_slash w r f url) path approved registry)
    unfolding mem_text
    request_if-IsApproved url none registry h g = tt
    request_if-IsApproved url (some approved) none h g = tt
    request_if-IsApproved url (some approved) (some registry) h g =
        ((url, g, refl), λ host k. followed host (h host) k)
      where
        followed :
            (host : Text)
            → (mem_text host approved ≡ true
                → (mem_text host [] || is_listed r services host) ≡ true)
            → (mem_text host approved || text_eq host bootstrap_host) ≡ true
            → (text_eq host bootstrap_host || is_listed r services host) ≡ true
        followed host h k = ground arith

    request_to-IsApproved :
        (urls : Items) (s : Session)
        → IfFirst (IsServed (is_for w r f t) services) urls
        → IfDone
            (IsApproved w r f t services path)
            (request_to_registry w r f services path urls s).0
    unfolding request_to_registry request_for all_bootstrap_hosts
    request_to-IsApproved nil s h = tt
    request_to-IsApproved (cons (str url) urls) s h =
        or_uncaught-IfDone (IsApproved w r f t services path)
          (request_if w r f (with_slash w r f url) path (bootstrap_hosts_from r services [])
            (r.host_of (str (with_slash w r f url))))
          (request_if-IsApproved url (bootstrap_hosts_from r services [])
            (r.host_of (str (with_slash w r f url))) (bootstrap_hosts_from-AreFrom r services []) h)
    request_to-IsApproved (cons null urls) s h = tt
    request_to-IsApproved (cons (bool b) urls) s h = tt
    request_to-IsApproved (cons (num n) urls) s h = tt
    request_to-IsApproved (cons (arr xs) urls) s h = tt
    request_to-IsApproved (cons (obj fs) urls) s h = tt

    -- Where a registry is asked, the request goes to the first URL of a service in the bootstrap file, one
    -- that has the target's last label among its keys, or a network with the target in it; and any host to
    -- which a redirect is followed is the bootstrap's or the host of a URL in the bootstrap file.
    pub request_to_registry-IsApproved :
        (s : Session)
        → IfDone
            (IsApproved w r f t services path)
            (request_to_registry w r f services path (base_urls_of w r f t services) s).0
    request_to_registry-IsApproved s =
        request_to-IsApproved (base_urls_of w r f t services) s
          (base_urls_of-IfFirst w r f t services)

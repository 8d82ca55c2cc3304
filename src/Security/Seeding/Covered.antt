-- ===== src/Security/Seeding/Covered.antt =====
-- What the deny-list holds once it has been seeded, and what is left when the seeding fails.
use recon_ledger.Prelude.{
  Bool, true, false, ◌||◌, Option, none, some, List, [], ◌∷◌, ◌++◌, any, length, ◌≡◌, refl, arith,
  Text, codes,
}
use recon_ledger.Models.Enums.{TargetType}
use recon_ledger.Models.Json.{str}
use recon_ledger.Security.Network
use recon_ledger.Security.Network.{
  Address, TargetDenyList, address_eq, in_network, contains, seed, seed_networks,
}
use recon_ledger.Security.Gateway
use recon_ledger.Security.Gateway.{
  State, Response, Got, ok, err, uncaught, follow, Call, check_addresses, send_pinned, send_checked,
  handle_async_request, sleep, get,
}
use recon_ledger.Security.Seeding.Kept.{HasDenyList, resolve_type-HasDenyList, and_more-HasDenyList}
use recon_ledger.Security.Seeding.Answers.{is_listed, Finds, read_reply-Finds}
use recon_ledger.Security.Seeding.{
  Resolving, Seeding, done, raised, doh_call, on_got, resolve_type, joined, and_more,
  resolve_addresses, seed_with, seed_deny_list, seed_address, seed_network,
  seed_deny_list_for_target,
}

any-append {ℓ} :
    {A : Type ℓ} (p : A → Bool) (xs ys : List A) → any p (xs ++ ys) ≡ (any p xs || any p ys)
unfolding any
any-append p [] ys = refl
any-append p (x ∷ xs) ys = ground (arith, any-append p xs ys)

contains-seed :
    (found : List Address) (d : TargetDenyList) (a : Address)
    → any (address_eq a) found ≡ true
    → contains (seed found d) a ≡ true
unfolding contains seed
contains-seed found d a h = ground (arith, any-append (address_eq a) d.addresses found)

contains-seed_networks :
    (n : Network.Network) (d : TargetDenyList) (a : Address)
    → in_network a n ≡ true
    → contains (seed_networks (n ∷ []) d) a ≡ true
unfolding contains seed_networks any
contains-seed_networks n d a h = ground (arith, any-append (in_network a) d.networks (n ∷ []))

module _ (net : Gateway.Network) (r : Resolving) where
  -- DNS over HTTPS has answered the query for this host and type, in the state given and with the one
  -- after; and the deny-list contains each address that the answer lists.
  abbrev pub IsResolved : Text → Text → TargetDenyList → State → State → Type 0
  IsResolved host record_type deny s t =
      (p : Response) × (get net (doh_call r.call) (r.url_for host record_type) s ≡ (ok p, t))
      × ((a : Address)
          → is_listed r.ip_address (r.loads (length t.sent) p) a ≡ true
          → contains deny a ≡ true)

  -- What the deny-list must contain, by the type of the target.
  abbrev pub CoversTarget : TargetType → Text → State → TargetDenyList → Type 0
  CoversTarget TargetType.ip target s deny =
      (b : Address) × (r.ip_address (str target) ≡ some b)
      × ((a : Address) → address_eq a b ≡ true → contains deny a ≡ true)
  CoversTarget TargetType.cidr target s deny =
      (n : Network.Network) × (r.ip_network target ≡ some n)
      × ((a : Address) → in_network a n ≡ true → contains deny a ≡ true)
  CoversTarget TargetType.domain target s deny =
      (t : State) × (u : State) × IsResolved target (codes "A") deny
        (record s { bootstrapping = true }) t
      × IsResolved target (codes "AAAA") deny t u
  CoversTarget TargetType.organization target s deny = true ≡ false

  -- Seeded with the target; or, after an exception, the deny-list as it was.
  abbrev pub IsSettled : TargetType → Text → State → Seeding (Unit {0}) × State → Type 0
  IsSettled type target s (done _, s') =
      (s'.bootstrapping ≡ false)
      × ((s'.deny_list.seeded ≡ true) × CoversTarget type target s s'.deny_list)
  IsSettled type target s (raised e, s') = (s'.bootstrapping ≡ false) × (s'.deny_list ≡ s.deny_list)

module _ (net : Gateway.Network) (r : Resolving) where
  -- DNS over HTTPS has answered, and each address that it lists is found.
  abbrev IsFound : Text → Text → List Address → State → State → Type 0
  IsFound host record_type found s t =
      (p : Response) × (get net (doh_call r.call) (r.url_for host record_type) s ≡ (ok p, t))
      × ((a : Address)
          → is_listed r.ip_address (r.loads (length t.sent) p) a ≡ true
          → any (address_eq a) found ≡ true)

  -- For one query, and for both.
  abbrev OneFound : Text → Text → State → Seeding (List Address) × State → Type 0
  OneFound host record_type s (done found, t) = IsFound host record_type found s t
  OneFound host record_type s (raised e, t) = Unit

  abbrev BothFound : Text → State → Seeding (List Address) × State → Type 0
  BothFound host s (done found, u) =
      (t : State) × IsFound host (codes "A") found s t × IsFound host (codes "AAAA") found t u
  BothFound host s (raised e, u) = Unit

  reply-OneFound :
      (host record_type : Text) (s t : State) (p : Response) (x : Seeding (List Address))
      → get net (doh_call r.call) (r.url_for host record_type) s ≡ (ok p, t)
      → Finds net r (is_listed r.ip_address (r.loads (length t.sent) p)) x
      → OneFound host record_type s (x, t)
  reply-OneFound host record_type s t p (done found) e h = (p, e, h)
  reply-OneFound host record_type s t p (raised x) e h = tt

  on_got-OneFound :
      (host record_type : Text) (s : State) (g : Got × State)
      → get net (doh_call r.call) (r.url_for host record_type) s ≡ g
      → OneFound host record_type s (on_got net r g)
  on_got-OneFound host record_type s (ok p, t) e =
      reply-OneFound host record_type s t p _ e
        (read_reply-Finds net r (r.loads_error (length t.sent) p) (r.loads (length t.sent) p))
  on_got-OneFound host record_type s (err x, t) e = tt
  on_got-OneFound host record_type s (uncaught, t) e = tt
  on_got-OneFound host record_type s (follow location, t) e = tt

  resolve_type-OneFound :
      (host record_type : Text) (s : State)
      → OneFound host record_type s (resolve_type net r host record_type s)
  unfolding resolve_type
  resolve_type-OneFound host record_type s =
      on_got-OneFound host record_type s (get net (doh_call r.call) (r.url_for host record_type) s)
        refl

  joined-BothFound :
      (host : Text) (s t : State) (found : List Address) (x : Seeding (List Address) × State)
      → IsFound host (codes "A") found s t
      → OneFound host (codes "AAAA") t x
      → BothFound host s (joined net r found x)
  joined-BothFound host s t found (done more, u) (p, e, h) (q, f, k) = (
    t,
    (p, e, λ a i. ground (arith, any-append (address_eq a) found more, h a i)),
    (q, f, λ a i. ground (arith, any-append (address_eq a) found more, k a i)),
  )
  joined-BothFound host s t found (raised e, u) h k = tt

  and_more-BothFound :
      (host : Text) (s : State) (x : Seeding (List Address) × State)
      → OneFound host (codes "A") s x
      → BothFound host s (and_more net r (resolve_type net r host (codes "AAAA")) x)
  and_more-BothFound host s (done found, t) h =
      joined-BothFound host s t found (resolve_type net r host (codes "AAAA") t) h
        (resolve_type-OneFound host (codes "AAAA") t)
  and_more-BothFound host s (raised e, t) h = tt

  seed_with-IsSettled :
      (target : Text) (s : State) (x : Seeding (List Address) × State)
      → HasDenyList net s.deny_list x.1
      → BothFound target (record s { bootstrapping = true }) x
      → IsSettled net r TargetType.domain target s (seed_with net r x)
  unfolding seed
  seed_with-IsSettled target s (done found, u) d (t, (p, e, h), (q, f, k)) = (
    refl,
    (
      refl,
      (
        t,
        u,
        (p, e, λ a i. contains-seed found u.deny_list a (h a i)),
        (q, f, λ a i. contains-seed found u.deny_list a (k a i)),
      ),
    ),
  )
  seed_with-IsSettled target s (raised e, u) d h = (refl, d)

  seed_address-IsSettled :
      (target : Text) (s : State) (o : Option Address)
      → r.ip_address (str target) ≡ o
      → s.bootstrapping ≡ false
      → IsSettled net r TargetType.ip target s (seed_address net r o s)
  unfolding seed any
  seed_address-IsSettled target s none e h = (h, refl)
  seed_address-IsSettled target s (some b) e h =
      (h, (refl, (b, e, λ a k. contains-seed (b ∷ []) s.deny_list a (ground arith))))

  seed_network-IsSettled :
      (target : Text) (s : State) (o : Option Network.Network)
      → r.ip_network target ≡ o
      → s.bootstrapping ≡ false
      → IsSettled net r TargetType.cidr target s (seed_network net r o s)
  unfolding seed_networks
  seed_network-IsSettled target s none e h = (h, refl)
  seed_network-IsSettled target s (some n) e h =
      (h, (refl, (n, e, λ a k. contains-seed_networks n s.deny_list a k)))

  -- Seeding a job's gateway for its target either succeeds or raises. If it succeeds, the deny-list counts
  -- as seeded and contains the target's address, or all addresses of its network, or each address that
  -- the answers to the two queries for its name, one for A and then one for AAAA, list. If it raises, the
  -- deny-list is as it was, and for an organization it does. Either way the exemption for the seeding is
  -- off, if it was off before.
  pub seed_deny_list_for_target-IsSettled :
      (type : TargetType) (target : Text) (s : State)
      → s.bootstrapping ≡ false
      → IsSettled net r type target s (seed_deny_list_for_target net r type target s)
  unfolding seed_deny_list_for_target seed_deny_list resolve_addresses
  seed_deny_list_for_target-IsSettled TargetType.ip target s h =
      seed_address-IsSettled target s (r.ip_address (str target)) refl h
  seed_deny_list_for_target-IsSettled TargetType.cidr target s h =
      seed_network-IsSettled target s (r.ip_network target) refl h
  seed_deny_list_for_target-IsSettled TargetType.domain target s h =
      let s0 = record s { bootstrapping = true } in
      seed_with-IsSettled target s _
        (and_more-HasDenyList net s.deny_list r target _
          (resolve_type-HasDenyList net s.deny_list r target (codes "A") s0 refl))
        (and_more-BothFound target s0 _ (resolve_type-OneFound target (codes "A") s0))
  seed_deny_list_for_target-IsSettled TargetType.organization target s h = (h, refl)

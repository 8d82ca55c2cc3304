-- ===== src/Security/Seeding/Kept.antt =====
-- The requests of the seeding leave the deny-list as it is.
use recon_ledger.Prelude.{◌+◌, Option, none, some, List, [], ◌∷◌, ◌≡◌, Text, codes}
use recon_ledger.Security.Errors.{GatewayError}
use recon_ledger.Security.Network.{Address, TargetDenyList}
use recon_ledger.Security.Gateway
use recon_ledger.Security.Gateway.{
  State, Response, Got, ok, err, uncaught, follow, Call, check_addresses, send_pinned, send_checked,
  handle_async_request, sleep, get,
}
use recon_ledger.Security.Gateway.Rule.{IsKept, get-kept}
use recon_ledger.Security.Seeding.{
  Resolving, Seeding, done, raised, doh_call, on_got, resolve_type, joined, and_more,
}

module _ (net : Gateway.Network) (deny : TargetDenyList) where
  abbrev pub HasDenyList : State → Type 0
  HasDenyList s = s.deny_list ≡ deny

  send_pinned-HasDenyList :
      (url host : Text) (s : State) (a : Address) (o : Option GatewayError)
      → HasDenyList s
      → HasDenyList (send_pinned net url host s a o).1
  unfolding send_pinned
  send_pinned-HasDenyList url host s a none h = h
  send_pinned-HasDenyList url host s a (some e) h = h

  send_checked-HasDenyList :
      (url host : Text) (s : State) (o : Option (List Address))
      → HasDenyList s
      → HasDenyList (send_checked net url host s o).1
  unfolding send_checked
  send_checked-HasDenyList url host s none h = h
  send_checked-HasDenyList url host s (some []) h = h
  send_checked-HasDenyList url host s (some (a ∷ rest)) h =
      send_pinned-HasDenyList url host s a (check_addresses net s.deny_list host (a ∷ rest)) h

  HasDenyList-IsKept : (c : Call) → IsKept net c (λ url. Unit) HasDenyList
  unfolding sleep handle_async_request
  HasDenyList-IsKept c = record {
    sends = λ url s u h.
        send_checked-HasDenyList url (net.host_of url)
          (record s { resolutions = s.resolutions + 1 })
          (net.resolve s.resolutions (net.host_of url)) h;
    quiet = record { reads = λ s h. h; backs_off = λ attempt s h. h; waits = λ t s within h. h };
    hops_on = λ next e. tt;
  }

  get-HasDenyList :
      (c : Call) (url : Text) (s : State) → HasDenyList s → HasDenyList (get net c url s).1
  get-HasDenyList c url s h =
      get-kept net c (λ u. Unit) HasDenyList (λ t. HasDenyList-IsKept (record c { start = t })) url
        s (λ _. tt) h

  module _ (r : Resolving) where
    on_got-HasDenyList : (g : Got × State) → HasDenyList g.1 → HasDenyList (on_got net r g).1
    on_got-HasDenyList (ok response, s) h = h
    on_got-HasDenyList (err e, s) h = h
    on_got-HasDenyList (uncaught, s) h = h
    on_got-HasDenyList (follow location, s) h = h

    pub resolve_type-HasDenyList :
        (host record_type : Text) (s : State)
        → HasDenyList s
        → HasDenyList (resolve_type net r host record_type s).1
    unfolding resolve_type
    resolve_type-HasDenyList host record_type s h =
        on_got-HasDenyList (get net (doh_call r.call) (r.url_for host record_type) s)
          (get-HasDenyList (doh_call r.call) (r.url_for host record_type) s h)

    joined-HasDenyList :
        (found : List Address) (x : Seeding (List Address) × State)
        → HasDenyList x.1
        → HasDenyList (joined net r found x).1
    joined-HasDenyList found (done more, s) h = h
    joined-HasDenyList found (raised e, s) h = h

    pub and_more-HasDenyList :
        (host : Text) (x : Seeding (List Address) × State)
        → HasDenyList x.1
        → HasDenyList (and_more net r (resolve_type net r host (codes "AAAA")) x).1
    and_more-HasDenyList host (done found, s) h =
        joined-HasDenyList found (resolve_type net r host (codes "AAAA") s)
          (resolve_type-HasDenyList host (codes "AAAA") s h)
    and_more-HasDenyList host (raised e, s) h = h

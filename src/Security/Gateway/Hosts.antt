-- ===== src/Security/Gateway/Hosts.antt =====
-- Requests go only to hosts that the collector has declared, or that its validator has approved.
use recon_ledger.Prelude.{
  ◌+◌, Bool, true, false, ◌&&◌, ◌||◌, Option, none, some, List, [], ◌∷◌, ◌≡◌, refl, arith, All,
  All-append, Text, mem_text,
}
use recon_ledger.Security.Errors.{GatewayError}
use recon_ledger.Security.Network.{Address}
use recon_ledger.Security.Gateway.{
  Network, State, Call, PinnedRequest, send_pinned, send_checked, handle_async_request, sleep,
  may_follow, get, pin,
}
use recon_ledger.Security.Gateway.Rule.{IsKept, get-kept}

module _ (net : Network) where
  -- `allow_redirect_to is not None and allow_redirect_to(host)`
  abbrev pub approves : Call → Text → Bool
  approves c host = elim c.allow_redirect_to [ none ↦ false | some f ↦ f host ]

  -- A declared host, or an approved one that is asked for over HTTPS.
  abbrev pub is_permitted : Call → Text → Bool
  is_permitted c url =
      mem_text (net.host_of url) c.allowed_hosts
      || (approves c (net.host_of url) && net.is_https url)

  -- A request that carries the host of its URL, which is permitted.
  abbrev pub IsPermitted : Call → PinnedRequest → Type 0
  IsPermitted c p = (p.sni ≡ net.host_of p.url) × (is_permitted c p.url ≡ true)

  module _ (c : Call) where
    abbrev pub AllPermitted : State → Type 0
    AllPermitted s = All (IsPermitted c) s.sent

    send_pinned-AllPermitted :
        (url : Text) (s : State) (a : Address) (o : Option GatewayError)
        → is_permitted c url ≡ true
        → AllPermitted s
        → AllPermitted (send_pinned net url (net.host_of url) s a o).1
    unfolding send_pinned
    send_pinned-AllPermitted url s a none u h =
        All-append (IsPermitted c) s.sent (pin net a (net.host_of url) url ∷ []) h ((refl, u), tt)
    send_pinned-AllPermitted url s a (some e) u h = h

    send_checked-AllPermitted :
        (url : Text) (s : State) (o : Option (List Address))
        → is_permitted c url ≡ true
        → AllPermitted s
        → AllPermitted (send_checked net url (net.host_of url) s o).1
    unfolding send_checked
    send_checked-AllPermitted url s none u h = h
    send_checked-AllPermitted url s (some []) u h = h
    send_checked-AllPermitted url s (some (a ∷ rest)) u h = send_pinned-AllPermitted url s a _ u h

    AllPermitted-IsKept : IsKept net c (λ url. is_permitted c url ≡ true) AllPermitted
    unfolding sleep handle_async_request may_follow
    AllPermitted-IsKept = record {
      sends = λ url s u h.
          send_checked-AllPermitted url (record s { resolutions = s.resolutions + 1 })
            (net.resolve s.resolutions (net.host_of url)) u h;
      quiet = record { reads = λ s h. h; backs_off = λ attempt s h. h; waits = λ t s within h. h };
      hops_on = λ next e. ground arith;
    }

  -- Every request that `get` sends carries the host of its URL, and that host is declared by the
  -- collector, or its redirect validator approves it and the URL is HTTPS; if that held of the requests
  -- before.
  pub get-AllPermitted :
      (c : Call) (url : Text) (s : State) → AllPermitted c s → AllPermitted c (get net c url s).1
  get-AllPermitted c url s h =
      get-kept net c (λ u. is_permitted c u ≡ true) (AllPermitted c)
        (λ t. AllPermitted-IsKept (record c { start = t })) url s (λ e. ground arith) h

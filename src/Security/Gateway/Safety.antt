-- ===== src/Security/Gateway/Safety.antt =====
-- No request of the gateway reaches a forbidden address or an address of the assessed target.
use recon_ledger.Prelude.{
  ◌+◌, false, Option, none, some, List, [], ◌∷◌, ◌≡◌, refl, arith, All, All-append, Text,
}
use recon_ledger.Security.Errors.{GatewayError, deny_list_unpopulated}
use recon_ledger.Security.Network.{Address, TargetDenyList, is_forbidden_address, contains}
use recon_ledger.Security.Gateway.{
  Network, State, Call, err, PinnedRequest, check_addresses, send_pinned, send_checked,
  handle_async_request, sleep, get, pin,
}
use recon_ledger.Security.Gateway.Rule.{IsKept, get-kept}

module _ (net : Network) where
  -- An address that the policy lets through.
  abbrev pub IsAllowedAddress : TargetDenyList → Address → Type 0
  IsAllowedAddress deny a = (is_forbidden_address net.classes a ≡ none) × (contains deny a ≡ false)

  -- The checks pass only if every resolved address is allowed.
  pub check_addresses_sound :
      (deny : TargetDenyList) (host : Text) (found : List Address)
      → check_addresses net deny host found ≡ none
      → All (IsAllowedAddress deny) found
  unfolding check_addresses
  check_addresses_sound deny host [] h = tt
  check_addresses_sound deny host (a ∷ rest) h =
      ground (arith, check_addresses_sound deny host rest)

  module _ (deny : TargetDenyList) where
    -- what holds between two steps of a call
    abbrev pub IsSafe : State → Type 0
    IsSafe s =
        (s.deny_list ≡ deny) × All (λ (p : PinnedRequest). IsAllowedAddress deny p.address) s.sent

    send_pinned-IsSafe :
        (url host : Text) (s : State) (a : Address) (o : Option GatewayError)
        → (o ≡ none → IsAllowedAddress deny a)
        → IsSafe s
        → IsSafe (send_pinned net url host s a o).1
    unfolding send_pinned
    send_pinned-IsSafe url host s a none ok h =
        (h.0, All-append _ s.sent (pin net a host url ∷ []) h.1 (ok refl, tt))
    send_pinned-IsSafe url host s a (some e) ok h = h

    send_checked-IsSafe :
        (url host : Text) (s : State) (o : Option (List Address))
        → IsSafe s
        → IsSafe (send_checked net url host s o).1
    unfolding send_checked
    send_checked-IsSafe url host s none h = h
    send_checked-IsSafe url host s (some []) h = h
    send_checked-IsSafe url host s (some (a ∷ rest)) h =
        send_pinned-IsSafe url host s a (check_addresses net s.deny_list host (a ∷ rest))
          (λ e. rw h.0 at (check_addresses_sound s.deny_list host (a ∷ rest) e).0) h

    IsSafe-IsKept : (c : Call) → IsKept net c (λ url. Unit) IsSafe
    unfolding sleep handle_async_request
    IsSafe-IsKept c = record {
      sends = λ url s u h.
          send_checked-IsSafe url (net.host_of url) (record s { resolutions = s.resolutions + 1 })
            (net.resolve s.resolutions (net.host_of url)) h;
      quiet = record { reads = λ s h. h; backs_off = λ attempt s h. h; waits = λ t s within h. h };
      hops_on = λ next e. tt;
    }

    -- Whatever the resolver, the providers and the clock do: every request that `get` hands on, retries
    -- and redirects included, goes to an address that is not forbidden and that the deny-list does not
    -- contain, if that held of the requests before; and the deny-list stays as it is.
    pub get-IsSafe : (c : Call) (url : Text) (s : State) → IsSafe s → IsSafe (get net c url s).1
    get-IsSafe c url s h =
        get-kept net c (λ u. Unit) IsSafe (λ t. IsSafe-IsKept (record c { start = t })) url s
          (λ _. tt) h

  -- Before the deny-list is seeded, and outside the seeding itself, `get` sends nothing.
  pub get_unseeded :
      (c : Call) (url : Text) (s : State)
      → s.deny_list.seeded ≡ false
      → s.bootstrapping ≡ false
      → get net c url s ≡ (err deny_list_unpopulated, s)
  unfolding get
  get_unseeded c url s h k = rw (h, k)

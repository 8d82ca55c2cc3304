-- ===== src/Security/Gateway.antt =====
-- backend/app/security/gateway.py: `ValidatingTransport` and `OutboundGateway`. Name resolution, the
-- wrapped transport, httpx's URLs, the clock and the random numbers are arguments; the requests that
-- reach the wrapped transport are kept in `sent`, the waits in `sleeps`.
pub mod Rule
pub mod Safety
pub mod Hosts
pub mod Bounds
pub mod Results
use recon_ledger.Prelude.{
  ℕ, zero, suc, ◌+◌, ◌-◌, Bool, true, false, ◌&&◌, ◌||◌, not, Option, none, some, List, [], ◌∷◌,
  ◌++◌, length, ltb, leb, ◌==◌, if◌then◌else◌, Text, text_eq, mem_text, codes,
}
use recon_ledger.Security.Errors.{
  GatewayError, disallowed_host, blocked_destination, redirect_rejected, response_too_large,
  provider_rate_limited, provider_timeout, deny_list_unpopulated,
}
use recon_ledger.Security.Network.{
  Address, AddressClasses, TargetDenyList, is_forbidden_address, contains, seed,
}
use recon_ledger.Security.RateLimit.{
  RetryPolicy, compute_backoff, is_retryable_status, RetryAfter, parse_retry_after,
}

-- The Content-Length header; `unreadable` is one that `int` refuses.
pub data ContentLength : Type 0 where
  absent unreadable : ContentLength
  bytes : ℕ → ContentLength

pub record Response : Type 0 where
  pub status : ℕ
  pub content_length : ContentLength
  -- `len(response.content)`
  pub size : ℕ
  -- the Location header, empty if it is missing
  pub location : Text
  pub retry_after : RetryAfter

-- A request as the wrapped transport sees it: `sni` is the host that was validated.
pub record PinnedRequest : Type 0 where
  pub address : Address
  pub sni : Text
  pub url : Text

pub data Reply : Type 0 where
  -- `httpx.TimeoutException`, `httpx.TransportError`
  transport_failure : Reply
  -- any other exception
  other_failure : Reply
  response : Response → Reply

-- The surroundings of a gateway. The numbers count the resolutions, the requests and the readings.
pub record Network : Type 0 where
  pub classes : AddressClasses
  -- `none` for a resolver that raises
  pub resolve : ℕ → Text → Option (List Address)
  pub deliver : ℕ → PinnedRequest → Reply
  pub host_of : Text → Text
  pub is_https : Text → Bool
  -- `httpx.URL(current).join(location)`
  pub join : Text → Text → Text
  pub show_address : Address → Text
  pub monotonic : ℕ → ℕ
  pub random : ℕ → ℕ

pub record State : Type 0 where
  pub deny_list : TargetDenyList
  pub bootstrapping : Bool
  pub sent : List PinnedRequest
  pub sleeps : List ℕ
  pub resolutions : ℕ
  pub readings : ℕ

-- How a call ends. `uncaught` is an exception that is no `GatewayError`, `follow` the internal signal.
pub data Got : Type 0 where
  ok : Response → Got
  err : GatewayError → Got
  uncaught : Got
  follow : Text → Got

abbrev pub redirect_statuses : ℕ → Bool
redirect_statuses s = s == 301 || s == 302 || s == 303 || s == 307 || s == 308

-- `_enforce_response_caps`
unfoldable pub enforce_response_caps : Response → Text → ℕ → Got
enforce_response_caps r host max_bytes =
    let whole = if ltb max_bytes r.size then err (response_too_large host max_bytes) else ok r in
    elim r.content_length [
      | absent ↦ whole
      | unreadable ↦ uncaught
      | bytes n ↦ if ltb max_bytes n then err (response_too_large host max_bytes) else whole
    ]

-- What the caller of `get` chooses.
pub record Call : Type 0 where
  pub max_bytes : ℕ
  pub policy : RetryPolicy
  pub allowed_hosts : List Text
  -- `allow_redirect_to`
  pub allow_redirect_to : Option (Text → Bool)
  pub max_redirects : ℕ
  -- the clock when the call began
  pub start : ℕ

-- One attempt ends the loop, or the loop goes on.
pub data Step : Type 0 where
  stop : Got → Step
  again : Step

-- What came of a request: a reply, or an exception of the validating transport.
pub data Delivered : Type 0 where
  reply : Reply → Delivered
  blocked : GatewayError → Delivered
  unresolved : Delivered

module _ (net : Network) where
  -- the loop over the resolved addresses
  unfoldable pub check_addresses : TargetDenyList → Text → List Address → Option GatewayError
  unfolding is_forbidden_address contains
  check_addresses deny host [] = none
  check_addresses deny host (a ∷ rest) =
      let later = check_addresses deny host rest in
      elim (is_forbidden_address net.classes a) [
        | some reason ↦ some (blocked_destination host (net.show_address a) reason)
        | none ↦
            if contains deny a
            then some
                (blocked_destination host (net.show_address a) (codes "assessed target address"))
            else later
      ]

  abbrev pub pin : Address → Text → Text → PinnedRequest
  pin a host url = record { address = a; sni = host; url = url }

  abbrev pub log_sent : PinnedRequest → State → State
  log_sent p s = record s { sent = s.sent ++ p ∷ [] }

  -- the request, pinned to the first address, if no address has been refused
  unfoldable pub send_pinned :
      Text → Text → State → Address → Option GatewayError → Delivered × State
  send_pinned url host s a (some e) = (blocked e, s)
  send_pinned url host s a none =
      (reply (net.deliver (length s.sent) (pin a host url)), log_sent (pin a host url) s)

  unfoldable pub send_checked : Text → Text → State → Option (List Address) → Delivered × State
  unfolding check_addresses send_pinned
  send_checked url host s none = (unresolved, s)
  send_checked url host s (some []) =
      (blocked (blocked_destination host [] (codes "no addresses resolved")), s)
  send_checked url host s (some (a ∷ rest)) =
      send_pinned url host s a (check_addresses s.deny_list host (a ∷ rest))

  -- `ValidatingTransport.handle_async_request`
  unfoldable pub handle_async_request : Text → State → Delivered × State
  unfolding send_checked
  handle_async_request url s =
      send_checked url (net.host_of url) (record s { resolutions = s.resolutions + 1 })
        (net.resolve s.resolutions (net.host_of url))

  unfoldable pub sleep : ℕ → State → State
  sleep t s = record s { sleeps = s.sleeps ++ t ∷ [] }

  abbrev pub backoff : Call → ℕ → State → ℕ
  backoff c attempt s = compute_backoff attempt c.policy (net.random (length s.sleeps))

  abbrev pub delay_of : Option ℕ → ℕ → ℕ
  delay_of (some t) b = t
  delay_of none b = b

  -- the branch for status 429; it reads the clock
  unfoldable pub on_rate_limited : Call → Text → ℕ → Response → State → Step × State
  unfolding sleep
  on_rate_limited c host attempt r s =
      let retry_after = parse_retry_after r.retry_after in
      let delay = delay_of retry_after (backoff c attempt s) in
      let s' = record s { readings = s.readings + 1 } in
      if leb c.policy.max_attempts attempt
      then (stop (err (provider_rate_limited host retry_after)), s)
      else if ltb c.policy.total_budget (net.monotonic s.readings - c.start + delay)
      then (stop (err (provider_rate_limited host retry_after)), s')
      else (again, sleep delay s')

  unfoldable pub on_response : Call → Text → Text → ℕ → Response → State → Step × State
  unfolding on_rate_limited sleep enforce_response_caps
  on_response c url host attempt r s =
      if redirect_statuses r.status
      then (
        stop (elim c.allow_redirect_to [
          | some _ ↦ follow r.location
          | none ↦ err (redirect_rejected url r.location (codes "redirects disabled by default"))
        ]),
        s,
      )
      else if r.status == 429
      then on_rate_limited c host attempt r s
      else if is_retryable_status r.status && ltb attempt c.policy.max_attempts
      then (again, sleep (backoff c attempt s) s)
      else (stop (enforce_response_caps r host c.max_bytes), s)

  unfoldable pub on_delivered : Call → Text → Text → ℕ → Delivered × State → Step × State
  unfolding on_response sleep
  on_delivered c url host attempt (blocked e, s) = (stop (err e), s)
  on_delivered c url host attempt (unresolved, s) = (stop uncaught, s)
  on_delivered c url host attempt (reply other_failure, s) = (stop uncaught, s)
  on_delivered c url host attempt (reply transport_failure, s) =
      if ltb attempt c.policy.max_attempts
      then (again, sleep (backoff c attempt s) s)
      else (stop (err (provider_timeout host)), s)
  on_delivered c url host attempt (reply (response r), s) = on_response c url host attempt r s

  -- the body of the loop over the attempts
  unfoldable pub try_once : Call → Text → Text → ℕ → State → Step × State
  unfolding on_delivered handle_async_request
  try_once c url host attempt s =
      let s' = record s { readings = s.readings + 1 } in
      if ltb c.policy.total_budget (net.monotonic s.readings - c.start)
      then (stop (err (provider_timeout host)), s')
      else on_delivered c url host attempt (handle_async_request url s')

  -- what follows an attempt: the end, or the rest of the loop
  abbrev pub proceed : Step → State → Got × State → Got × State
  proceed (stop g) s rest = (g, s)
  proceed again s rest = rest

  -- `for attempt in range(1, max_attempts + 1)`, by the attempts that are left
  unfoldable pub attempts : Call → Text → Text → ℕ → ℕ → State → Got × State
  unfolding try_once
  attempts c url host zero attempt s = (err (provider_timeout host), s)
  attempts c url host (suc left) attempt s =
      let (step, s') = try_once c url host attempt s in
      let rest = attempts c url host left (attempt + 1) s' in proceed step s' rest

  -- `_request_with_retries`
  unfoldable pub request_with_retries : Call → Text → Text → State → Got × State
  unfolding attempts
  request_with_retries c url host s = attempts c url host c.policy.max_attempts 1 s

  -- the test on the next hop
  unfoldable pub may_follow : Call → Text → Bool
  may_follow c next =
      net.is_https next
      && elim c.allow_redirect_to [ none ↦ false | some approves ↦ approves (net.host_of next) ]

  abbrev pub rejection : Text → Text → GatewayError
  rejection url location =
      redirect_rejected url location (codes "redirect target not allowed or max redirects exceeded")

  -- what follows a request: its result, or the hop to the next URL
  -- `left` says whether a redirect is left
  unfoldable pub next_hop : Call → Text → Bool → Got × State → (Text → Got × State) → Got × State
  unfolding may_follow
  next_hop c url left (ok r, s) rest = (ok r, s)
  next_hop c url left (err e, s) rest = (err e, s)
  next_hop c url left (uncaught, s) rest = (uncaught, s)
  next_hop c url left (follow location, s) rest =
      if left && may_follow c (net.join url location)
      then rest (net.join url location)
      else (err (rejection url location), s)

  -- the `while True` of `get`, by the redirects that are left
  unfoldable pub hops : Call → ℕ → Text → State → Got × State
  unfolding request_with_retries next_hop
  hops c zero url s =
      let r = request_with_retries c url (net.host_of url) s in next_hop c url false r (λ next. r)
  hops c (suc left) url s =
      let r = request_with_retries c url (net.host_of url) s in
      next_hop c url true r (λ next. hops c left next r.1)

  -- `OutboundGateway.get`; `c.start` is the first reading of the clock
  unfoldable pub get : Call → Text → State → Got × State
  unfolding hops mem_text text_eq
  get c url s =
      if not s.deny_list.seeded && not s.bootstrapping
      then (err deny_list_unpopulated, s)
      else if not (mem_text (net.host_of url) c.allowed_hosts)
      then (err (disallowed_host (net.host_of url)), s)
      else hops (record c { start = net.monotonic s.readings }) c.max_redirects url
          (record s { readings = s.readings + 1 })

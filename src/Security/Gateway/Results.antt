-- ===== src/Security/Gateway/Results.antt =====
-- What a response that `get` returns has passed.
use recon_ledger.Prelude.{
  ℕ, zero, suc, ◌+◌, ◌-◌, ◌≤◌, Bool, true, false, ◌&&◌, not, Option, none, some, ◌==◌, ltb, leb,
  if◌then◌else◌, ◌≡◌, codes, refl, arith, Text, mem_text,
}
use recon_ledger.Security.Errors.{response_too_large, redirect_rejected}
use recon_ledger.Security.RateLimit.{is_retryable_status, parse_retry_after}
use recon_ledger.Security.Gateway.{
  Network, State, Call, Response, Got, ok, err, uncaught, follow, Step, stop, again, reply,
  response, transport_failure, other_failure, Delivered, blocked, unresolved, redirect_statuses,
  enforce_response_caps, absent, unreadable, bytes, ContentLength, backoff, delay_of,
  handle_async_request, on_rate_limited, on_response, on_delivered, try_once, proceed, attempts,
  request_with_retries, may_follow, next_hop, hops, get,
}

-- A response within the cap that is no redirect and no refusal for its rate.
abbrev pub IsAcceptable : ℕ → Response → Type 0
IsAcceptable max_bytes r =
    (r.size ≤ max_bytes) × (redirect_statuses r.status ≡ false) × ((r.status == 429) ≡ false)

-- the same of what an attempt gives
abbrev IsGood : ℕ → Got → Type 0
IsGood max_bytes (ok r) = IsAcceptable max_bytes r
IsGood max_bytes (err e) = Unit
IsGood max_bytes uncaught = Unit
IsGood max_bytes (follow l) = Unit

abbrev IsGoodStep : ℕ → Step → Type 0
IsGoodStep n (stop g) = IsGood n g
IsGoodStep n again = Unit

IsGoodStep-if :
    (n : ℕ) (b : Bool) (x y : Step × State)
    → (b ≡ true → IsGoodStep n x.0)
    → (b ≡ false → IsGoodStep n y.0)
    → IsGoodStep n (if b then x else y).0
IsGoodStep-if n true x y h k = h refl
IsGoodStep-if n false x y h k = k refl

IsGood-if :
    (n : ℕ) (b : Bool) (x y : Got)
    → (b ≡ true → IsGood n x)
    → (b ≡ false → IsGood n y)
    → IsGood n (if b then x else y)
IsGood-if n true x y h k = h refl
IsGood-if n false x y h k = k refl

whole-IsGood :
    (r : Response) (host : Text) (n : ℕ)
    → redirect_statuses r.status ≡ false
    → (r.status == 429) ≡ false
    → IsGood n (if ltb n r.size then err (response_too_large host n) else ok r)
whole-IsGood r host n h k = IsGood-if n (ltb n r.size) _ _ (λ _. tt) (λ e. (ground arith, h, k))

by_length-IsGood :
    (l : ContentLength) (host : Text) (n : ℕ) (whole : Got)
    → IsGood n whole
    → IsGood n (elim l [
      | absent ↦ whole
      | unreadable ↦ uncaught
      | bytes m ↦ if ltb n m then err (response_too_large host n) else whole
    ])
by_length-IsGood absent host n whole h = h
by_length-IsGood unreadable host n whole h = tt
by_length-IsGood (bytes m) host n whole h = IsGood-if n (ltb n m) _ _ (λ _. tt) (λ _. h)

caps-IsGood :
    (r : Response) (host : Text) (n : ℕ)
    → redirect_statuses r.status ≡ false
    → (r.status == 429) ≡ false
    → IsGood n (enforce_response_caps r host n)
unfolding enforce_response_caps
caps-IsGood r host n h k = by_length-IsGood r.content_length host n _ (whole-IsGood r host n h k)

module _ (net : Network) (c : Call) where
  on_rate_limited-IsGood :
      (host : Text) (attempt : ℕ) (r : Response) (s : State)
      → IsGoodStep c.max_bytes (on_rate_limited net c host attempt r s).0
  unfolding on_rate_limited
  on_rate_limited-IsGood host attempt r s =
      let delay = delay_of net (parse_retry_after r.retry_after) (backoff net c attempt s) in
      let late = ltb c.policy.total_budget (net.monotonic s.readings - c.start + delay) in
      IsGoodStep-if c.max_bytes (leb c.policy.max_attempts attempt) _ _ (λ _. tt)
        (λ _. IsGoodStep-if c.max_bytes late _ _ (λ _. tt) (λ _. tt))

  on_response-IsGood :
      (url host : Text) (attempt : ℕ) (r : Response) (s : State)
      → IsGoodStep c.max_bytes (on_response net c url host attempt r s).0
  unfolding on_response
  on_response-IsGood url host attempt r s =
      IsGoodStep-if c.max_bytes (redirect_statuses r.status) _ _
        (λ _. signal r.location c.allow_redirect_to)
        (λ h.
          IsGoodStep-if c.max_bytes (r.status == 429) _ _
            (λ _. on_rate_limited-IsGood host attempt r s)
            (λ k.
              IsGoodStep-if c.max_bytes
                (is_retryable_status r.status && ltb attempt c.policy.max_attempts) _ _ (λ _. tt)
                (λ _. caps-IsGood r host c.max_bytes h k)))
    where
      signal :
          (l : Text) (o : Option (Text → Bool))
          → IsGood c.max_bytes (elim o [
            | some _ ↦ follow l
            | none ↦ err (redirect_rejected url l (codes "redirects disabled by default"))
          ])
      signal l (some _) = tt
      signal l none = tt

  on_delivered-IsGood :
      (url host : Text) (attempt : ℕ) (d : Delivered) (s : State)
      → IsGoodStep c.max_bytes (on_delivered net c url host attempt (d, s)).0
  unfolding on_delivered
  on_delivered-IsGood url host attempt (blocked e) s = tt
  on_delivered-IsGood url host attempt unresolved s = tt
  on_delivered-IsGood url host attempt (reply other_failure) s = tt
  on_delivered-IsGood url host attempt (reply transport_failure) s =
      IsGoodStep-if c.max_bytes (ltb attempt c.policy.max_attempts) _ _ (λ _. tt) (λ _. tt)
  on_delivered-IsGood url host attempt (reply (response r)) s =
      on_response-IsGood url host attempt r s

  try_once-IsGood :
      (url host : Text) (attempt : ℕ) (s : State)
      → IsGoodStep c.max_bytes (try_once net c url host attempt s).0
  unfolding try_once
  try_once-IsGood url host attempt s =
      let d = handle_async_request net url (record s { readings = s.readings + 1 }) in
      IsGoodStep-if c.max_bytes (ltb c.policy.total_budget (net.monotonic s.readings - c.start)) _ _
        (λ _. tt) (λ _. on_delivered-IsGood url host attempt d.0 d.1)

  proceed-IsGood :
      (step : Step) (s : State) (rest : Got × State)
      → IsGoodStep c.max_bytes step
      → IsGood c.max_bytes rest.0
      → IsGood c.max_bytes (proceed net step s rest).0
  proceed-IsGood (stop g) s rest h k = h
  proceed-IsGood again s rest h k = k

  attempts-IsGood :
      (url host : Text) (left attempt : ℕ) (s : State)
      → IsGood c.max_bytes (attempts net c url host left attempt s).0
  unfolding attempts
  attempts-IsGood url host zero attempt s = tt
  attempts-IsGood url host (suc left) attempt s =
      let t = try_once net c url host attempt s in
      proceed-IsGood t.0 t.1 _ (try_once-IsGood url host attempt s)
        (attempts-IsGood url host left (attempt + 1) t.1)

  request-IsGood :
      (url host : Text) (s : State) → IsGood c.max_bytes (request_with_retries net c url host s).0
  unfolding request_with_retries
  request-IsGood url host s = attempts-IsGood url host c.policy.max_attempts 1 s

-- What a call may give: the signal that a redirect is to be followed does not come out.
abbrev pub IsFinal : ℕ → Got → Type 0
IsFinal max_bytes (ok r) = IsAcceptable max_bytes r
IsFinal max_bytes (err e) = Unit
IsFinal max_bytes uncaught = Unit
IsFinal max_bytes (follow l) = true ≡ false

IsFinal-if :
    (n : ℕ) (b : Bool) (x y : Got × State)
    → IsFinal n x.0
    → IsFinal n y.0
    → IsFinal n (if b then x else y).0
IsFinal-if n true x y h k = h
IsFinal-if n false x y h k = k

module _ (net : Network) (c : Call) where
  next_hop-IsFinal :
      (url : Text) (g : Got) (s : State) (rest : Text → Got × State)
      → IsGood c.max_bytes g
      → ((next : Text) → IsFinal c.max_bytes (rest next).0)
      → IsFinal c.max_bytes (next_hop net c url true (g, s) rest).0
  unfolding next_hop
  next_hop-IsFinal url (ok r) s rest h k = h
  next_hop-IsFinal url (err e) s rest h k = tt
  next_hop-IsFinal url uncaught s rest h k = tt
  next_hop-IsFinal url (follow l) s rest h k =
      IsFinal-if c.max_bytes (may_follow net c (net.join url l)) _ _ (k (net.join url l)) tt

  last_hop-IsFinal :
      (url : Text) (g : Got) (s : State) (rest : Text → Got × State)
      → IsGood c.max_bytes g
      → IsFinal c.max_bytes (next_hop net c url false (g, s) rest).0
  unfolding next_hop
  last_hop-IsFinal url (ok r) s rest h = h
  last_hop-IsFinal url (err e) s rest h = tt
  last_hop-IsFinal url uncaught s rest h = tt
  last_hop-IsFinal url (follow l) s rest h = tt

  hops-IsFinal : (left : ℕ) (url : Text) (s : State) → IsFinal c.max_bytes (hops net c left url s).0
  unfolding hops
  hops-IsFinal zero url s =
      let r = request_with_retries net c url (net.host_of url) s in
      last_hop-IsFinal url r.0 r.1 _ (request-IsGood net c url (net.host_of url) s)
  hops-IsFinal (suc left) url s =
      let r = request_with_retries net c url (net.host_of url) s in
      next_hop-IsFinal url r.0 r.1 _ (request-IsGood net c url (net.host_of url) s)
        (λ next. hops-IsFinal left next r.1)

-- A response that `get` returns has a body of at most `max_bytes`, and its status is neither one of the
-- redirects nor 429; the signal to follow a redirect never comes out of `get`.
pub get-IsFinal :
    (net : Network) (c : Call) (url : Text) (s : State) → IsFinal c.max_bytes (get net c url s).0
unfolding get
get-IsFinal net c url s =
    IsFinal-if c.max_bytes (not s.deny_list.seeded && not s.bootstrapping) _ _ tt (
      IsFinal-if c.max_bytes (not (mem_text (net.host_of url) c.allowed_hosts)) _ _ tt (
        hops-IsFinal net (record c { start = net.monotonic s.readings }) c.max_redirects url
          (record s { readings = s.readings + 1 })))

-- ===== src/Security/Gateway/Rule.antt =====
-- One rule for what `get` keeps: `P` holds of the state and `U` of each URL that is requested.
use recon_ledger.Prelude.{
  ℕ, zero, suc, ◌+◌, ◌≤◌, Bool, true, false, ◌&&◌, not, ◌==◌, ltb, leb, if◌then◌else◌, ◌≡◌, refl,
  arith, Bool-cases, inl, inr, Text, mem_text,
}
use recon_ledger.Security.RateLimit.{is_retryable_status, parse_retry_after}
use recon_ledger.Security.Gateway.{
  Network, State, Call, Response, Got, ok, err, uncaught, follow, Step, stop, again, reply,
  response, transport_failure, other_failure, Delivered, blocked, unresolved, redirect_statuses,
  sleep, backoff, delay_of, handle_async_request, on_rate_limited, on_response, on_delivered,
  try_once, proceed, attempts, request_with_retries, may_follow, next_hop, hops, get,
}

-- What the steps that send nothing keep.
pub record IsQuiet (net : Network) (c : Call) (P : State → Type 0) : Type 0 where
  pub reads : (s : State) → P s → P (record s { readings = s.readings + 1 })
  pub backs_off : (attempt : ℕ) (s : State) → P s → P (sleep net (backoff net c attempt s) s)
  pub waits : (t : ℕ) (s : State) → t ≤ c.policy.total_budget → P s → P (sleep net t s)

pub record IsKept (net : Network) (c : Call) (U : Text → Type 0) (P : State → Type 0) : Type 0 where
  pub quiet : IsQuiet net c P
  pub open quiet use *
  pub sends : (url : Text) (s : State) → U url → P s → P (handle_async_request net url s).1
  pub hops_on : (next : Text) → may_follow net c next ≡ true → U next

pub P-if :
    {A : Type 0} (P : State → Type 0) (b : Bool) (x y : A × State)
    → (b ≡ true → P x.1)
    → (b ≡ false → P y.1)
    → P (if b then x else y).1
P-if P true x y h g = h refl
P-if P false x y h g = g refl

module _ (net : Network) (c : Call) (P : State → Type 0) (k : IsQuiet net c P) where
  on_rate_limited-kept :
      (host : Text) (attempt : ℕ) (r : Response) (s : State)
      → P s
      → P (on_rate_limited net c host attempt r s).1
  unfolding on_rate_limited
  on_rate_limited-kept host attempt r s h =
      P-if P (leb c.policy.max_attempts attempt) _ _ (λ _. h)
        (λ _.
          P-if P _ _ _ (λ _. k.reads s h)
            (λ within.
              k.waits (delay_of net (parse_retry_after r.retry_after) (backoff net c attempt s))
                (record s { readings = s.readings + 1 }) (ground arith) (k.reads s h)))

  on_response-kept :
      (url host : Text) (attempt : ℕ) (r : Response) (s : State)
      → P s
      → P (on_response net c url host attempt r s).1
  unfolding on_response
  on_response-kept url host attempt r s h =
      P-if P (redirect_statuses r.status) _ _ (λ _. h)
        (λ _.
          P-if P (r.status == 429) _ _ (λ _. on_rate_limited-kept host attempt r s h)
            (λ _.
              P-if P (is_retryable_status r.status && ltb attempt c.policy.max_attempts) _ _
                (λ _. k.backs_off attempt s h) (λ _. h)))

  pub on_delivered-kept :
      (url host : Text) (attempt : ℕ) (d : Delivered) (s : State)
      → P s
      → P (on_delivered net c url host attempt (d, s)).1
  unfolding on_delivered
  on_delivered-kept url host attempt (blocked e) s h = h
  on_delivered-kept url host attempt unresolved s h = h
  on_delivered-kept url host attempt (reply other_failure) s h = h
  on_delivered-kept url host attempt (reply transport_failure) s h =
      P-if P (ltb attempt c.policy.max_attempts) _ _ (λ _. k.backs_off attempt s h) (λ _. h)
  on_delivered-kept url host attempt (reply (response r)) s h =
      on_response-kept url host attempt r s h

module _ (net : Network) (c : Call) (U : Text → Type 0) (P : State → Type 0)
    (k : IsKept net c U P) where
  try_once-kept :
      (url host : Text) (attempt : ℕ) (s : State)
      → U url
      → P s
      → P (try_once net c url host attempt s).1
  unfolding try_once
  try_once-kept url host attempt s u h =
      let s' : State = record s { readings = s.readings + 1 } in
      let d = handle_async_request net url s' in
      P-if P _ _ _ (λ _. k.reads s h)
        (λ _.
          on_delivered-kept net c P k.quiet url host attempt d.0 d.1
            (k.sends url s' u (k.reads s h)))

  proceed-kept :
      (step : Step) (s : State) (rest : Got × State)
      → P s
      → P rest.1
      → P (proceed net step s rest).1
  proceed-kept (stop g) s rest h h' = h
  proceed-kept again s rest h h' = h'

  attempts-kept :
      (url host : Text) (left attempt : ℕ) (s : State)
      → U url
      → P s
      → P (attempts net c url host left attempt s).1
  unfolding attempts
  attempts-kept url host zero attempt s u h = h
  attempts-kept url host (suc left) attempt s u h =
      let t = try_once net c url host attempt s in
      let h' = try_once-kept url host attempt s u h in
      proceed-kept t.0 t.1 _ h' (attempts-kept url host left (attempt + 1) t.1 u h')

  request-kept :
      (url host : Text) (s : State) → U url → P s → P (request_with_retries net c url host s).1
  unfolding request_with_retries
  request-kept url host s = attempts-kept url host c.policy.max_attempts 1 s

  next_hop-kept :
      (url : Text) (left : Bool) (g : Got) (s : State) (rest : Text → Got × State)
      → P s
      → ((next : Text) → U next → P (rest next).1)
      → P (next_hop net c url left (g, s) rest).1
  unfolding next_hop
  next_hop-kept url left (ok r) s rest h h' = h
  next_hop-kept url left (err e) s rest h h' = h
  next_hop-kept url left uncaught s rest h h' = h
  next_hop-kept url left (follow location) s rest h h' =
      P-if P _ _ _
        (λ e. h' (net.join url location) (k.hops_on (net.join url location) (ground arith)))
        (λ _. h)

  hops-kept : (left : ℕ) (url : Text) (s : State) → U url → P s → P (hops net c left url s).1
  unfolding hops
  hops-kept zero url s u h =
      let r = request_with_retries net c url (net.host_of url) s in
      let h' = request-kept url (net.host_of url) s u h in
      next_hop-kept url false r.0 r.1 (λ next. r) h' (λ next _. h')
  hops-kept (suc left) url s u h =
      let r = request_with_retries net c url (net.host_of url) s in
      let h' = request-kept url (net.host_of url) s u h in
      next_hop-kept url true r.0 r.1 (λ next. hops net c left next r.1) h'
        (λ next v. hops-kept left next r.1 v h')

-- The rule for `get`: the first URL is requested only if its host is declared.
pub get-kept :
    (net : Network) (c : Call) (U : Text → Type 0) (P : State → Type 0)
    → ((t : ℕ) → IsKept net (record c { start = t }) U P)
    → (url : Text) (s : State) → (mem_text (net.host_of url) c.allowed_hosts ≡ true → U url)
    → P s
    → P (get net c url s).1
unfolding get
get-kept net c U P k url s u h = elim (Bool-cases (not s.deny_list.seeded && not s.bootstrapping)) [
  | inl e ↦ rw e h
  | inr e ↦ elim (Bool-cases (not (mem_text (net.host_of url) c.allowed_hosts))) [
    | inl d ↦ rw (e, d) h
    | inr d ↦
        let c' : Call = record c { start = net.monotonic s.readings } in
        let k' = k (net.monotonic s.readings) in
        rw (e, d)
          (hops-kept net c' U P k' c.max_redirects url (record s { readings = s.readings + 1 })
            (u (ground arith)) (k'.reads s h))
  ]
]

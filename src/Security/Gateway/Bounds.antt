-- ===== src/Security/Gateway/Bounds.antt =====
-- How much a call of the gateway may do: requests, waits, bytes.
use recon_ledger.Prelude.{
  ℕ, zero, suc, ◌+◌, ◌-◌, ◌*◌, ◌≤◌, ◌<◌, Bool, true, false, ◌&&◌, not, Option, none, some, List, [],
  ◌∷◌, length, length-append, max, ltb, ◌≡◌, refl, arith, All, All-append, Bool-cases, inl, inr,
  Text, mem_text,
}
use recon_ledger.Security.Errors.{GatewayError}
use recon_ledger.Security.Network.{Address}
use recon_ledger.Security.RateLimit.{compute_backoff-le}
use recon_ledger.Security.Gateway.{
  Network, State, Call, Got, ok, err, uncaught, follow, Step, stop, again, send_pinned,
  send_checked, handle_async_request, sleep, backoff, try_once, proceed, attempts,
  request_with_retries, next_hop, hops, get, pin,
}
use recon_ledger.Security.Gateway.Rule.{IsQuiet, IsKept, P-if, on_delivered-kept, get-kept}

module _ (net : Network) where
  send_pinned-length :
      (url host : Text) (s : State) (a : Address) (o : Option GatewayError)
      → length (send_pinned net url host s a o).1.sent ≤ length s.sent + 1
  unfolding send_pinned
  send_pinned-length url host s a none =
      omega (arith, length-append s.sent (pin net a host url ∷ []))
  send_pinned-length url host s a (some e) = omega arith

  -- A single request adds one entry at most.
  send_checked-length :
      (url host : Text) (s : State) (o : Option (List Address))
      → length (send_checked net url host s o).1.sent ≤ length s.sent + 1
  unfolding send_checked
  send_checked-length url host s none = omega arith
  send_checked-length url host s (some []) = omega arith
  send_checked-length url host s (some (a ∷ rest)) = send_pinned-length url host s a _

  handle-length :
      (url : Text) (s : State) → length (handle_async_request net url s).1.sent ≤ length s.sent + 1
  unfolding handle_async_request
  handle-length url s = send_checked-length url (net.host_of url) _ (net.resolve s.resolutions _)

  -- The steps after a request send nothing.
  AtMost-IsQuiet : (c : Call) (n : ℕ) → IsQuiet net c (λ s. length s.sent ≤ n)
  unfolding sleep
  AtMost-IsQuiet c n = record {
    reads = λ s h. h;
    backs_off = λ attempt s h. h;
    waits = λ t s within h. h;
  }

  try_once-length :
      (c : Call) (url host : Text) (attempt : ℕ) (s : State)
      → length (try_once net c url host attempt s).1.sent ≤ length s.sent + 1
  unfolding try_once
  try_once-length c url host attempt s =
      let s' : State = record s { readings = s.readings + 1 } in
      let d = handle_async_request net url s' in
      let unsent : length s.sent ≤ length s.sent + 1 = omega arith in
      P-if (λ (t : State). length t.sent ≤ length s.sent + 1)
        (ltb c.policy.total_budget (net.monotonic s.readings - c.start)) _ _ (λ _. unsent)
        (λ _.
          on_delivered-kept net c _ (AtMost-IsQuiet c (length s.sent + 1)) url host attempt d.0 d.1
            (handle-length url s'))

  proceed-length :
      (step : Step) (s : State) (rest : Got × State) (n : ℕ)
      → length s.sent ≤ n
      → length rest.1.sent ≤ n
      → length (proceed net step s rest).1.sent ≤ n
  proceed-length (stop g) s rest n h k = h
  proceed-length again s rest n h k = k

  attempts-length :
      (c : Call) (url host : Text) (left attempt : ℕ) (s : State)
      → length (attempts net c url host left attempt s).1.sent ≤ length s.sent + left
  unfolding attempts
  attempts-length c url host zero attempt s = omega arith
  attempts-length c url host (suc left) attempt s =
      let t = try_once net c url host attempt s in
      proceed-length t.0 t.1 _ _ (omega (arith, try_once-length c url host attempt s)) (
        omega (
          arith,
          try_once-length c url host attempt s,
          attempts-length c url host left (attempt + 1) t.1,
        ))

  request-length :
      (c : Call) (url host : Text) (s : State)
      → length (request_with_retries net c url host s).1.sent
        ≤ length s.sent + c.policy.max_attempts
  unfolding request_with_retries
  request-length c url host s = attempts-length c url host c.policy.max_attempts 1 s

  next_hop-length :
      (c : Call) (url : Text) (left : Bool) (g : Got) (s : State) (rest : Text → Got × State)
      (n : ℕ)
      → length s.sent ≤ n
      → ((next : Text) → length (rest next).1.sent ≤ n)
      → length (next_hop net c url left (g, s) rest).1.sent ≤ n
  unfolding next_hop
  next_hop-length c url left (ok r) s rest n h k = h
  next_hop-length c url left (err e) s rest n h k = h
  next_hop-length c url left uncaught s rest n h k = h
  next_hop-length c url left (follow l) s rest n h k =
      P-if (λ (t : State). length t.sent ≤ n) _ _ _ (λ _. k (net.join url l)) (λ _. h)

  hops-length :
      (c : Call) (left : ℕ) (url : Text) (s : State)
      → length (hops net c left url s).1.sent ≤ length s.sent + (left + 1) * c.policy.max_attempts
  unfolding hops
  hops-length c zero url s =
      let r = request_with_retries net c url (net.host_of url) s in
      let h = request-length c url (net.host_of url) s in
      next_hop-length c url false r.0 r.1 (λ next. r) _ (omega (arith, h))
        (λ next. omega (arith, h))
  hops-length c (suc left) url s =
      let r = request_with_retries net c url (net.host_of url) s in
      let h = request-length c url (net.host_of url) s in
      next_hop-length c url true r.0 r.1 (λ next. hops net c left next r.1) _ (grind (arith, h))
        (λ next. grind (arith, h, hops-length c left next r.1))

  -- A call of `get` sends at most `max_attempts` requests for the first URL and as many for each of
  -- `max_redirects` redirects.
  pub get-length :
      (c : Call) (url : Text) (s : State)
      → length (get net c url s).1.sent
        ≤ length s.sent + (c.max_redirects + 1) * c.policy.max_attempts
  unfolding get
  get-length c url s = elim (Bool-cases (not s.deny_list.seeded && not s.bootstrapping)) [
    | inl e ↦ rw e (omega arith)
    | inr e ↦ elim (Bool-cases (not (mem_text (net.host_of url) c.allowed_hosts))) [
      | inl d ↦ rw (e, d) (omega arith)
      | inr d ↦
          rw (e, d)
            (hops-length (record c { start = net.monotonic s.readings }) c.max_redirects url
              (record s { readings = s.readings + 1 }))
    ]
  ]

  -- the waits so far
  abbrev pub WaitsBelow : ℕ → State → Type 0
  WaitsBelow n s = All (λ t. t ≤ n) s.sleeps

  send_pinned-sleeps :
      (url host : Text) (s : State) (a : Address) (o : Option GatewayError)
      → (send_pinned net url host s a o).1.sleeps ≡ s.sleeps
  unfolding send_pinned
  send_pinned-sleeps url host s a none = refl
  send_pinned-sleeps url host s a (some e) = refl

  send_checked-sleeps :
      (url host : Text) (s : State) (o : Option (List Address))
      → (send_checked net url host s o).1.sleeps ≡ s.sleeps
  unfolding send_checked
  send_checked-sleeps url host s none = refl
  send_checked-sleeps url host s (some []) = refl
  send_checked-sleeps url host s (some (a ∷ rest)) = send_pinned-sleeps url host s a _

  handle-sleeps : (url : Text) (s : State) → (handle_async_request net url s).1.sleeps ≡ s.sleeps
  unfolding handle_async_request
  handle-sleeps url s = send_checked-sleeps url (net.host_of url) _ (net.resolve s.resolutions _)

  WaitsBelow-IsKept :
      (c : Call)
      → ((i : ℕ) → net.random i < 1_000_000)
      → IsKept net c (λ u. Unit) (WaitsBelow (max c.policy.cap_delay c.policy.total_budget))
  unfolding sleep
  WaitsBelow-IsKept c unit = record {
    quiet = record {
      reads = λ s h. h;
      backs_off = λ attempt s h.
          All-append _ s.sleeps (backoff net c attempt s ∷ []) h
            (omega (arith, compute_backoff-le attempt c.policy _ (unit (length s.sleeps))), tt);
      waits = λ t s within h. All-append _ s.sleeps (t ∷ []) h (omega arith, tt);
    };
    sends = λ url s u h. rw (handle-sleeps url s) h;
    hops_on = λ next e. tt;
  }

  -- No single wait of `get` is longer than the delay cap or the total budget, whichever is more, if that
  -- held of the waits before and `random()` is below one.
  pub get-WaitsBelow :
      (c : Call) (url : Text) (s : State)
      → ((i : ℕ) → net.random i < 1_000_000)
      → WaitsBelow (max c.policy.cap_delay c.policy.total_budget) s
      → WaitsBelow (max c.policy.cap_delay c.policy.total_budget) (get net c url s).1
  get-WaitsBelow c url s unit h =
      get-kept net c (λ u. Unit) _ (λ t. WaitsBelow-IsKept (record c { start = t }) unit) url s
        (λ _. tt) h

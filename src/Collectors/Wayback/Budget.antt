-- ===== src/Collectors/Wayback/Budget.antt =====
-- What the samples of the Wayback Machine cost: requests and bytes.
use recon_ledger.Prelude.{
  ℕ, suc, ◌+◌, ◌-◌, ◌≤◌, min, Option, none, some, List, [], ◌∷◌, ◌++◌, length, leb, ◌==◌, ◌≡◌, ◌≢◌,
  refl, arith, All, Bool-cases, inl, inr, ap, sym, ◌∙◌, length-append,
}
use recon_ledger.Collectors.Context.{
  Surroundings, Session, Request, Reply, Answer, replied, refused, broken, Outcome, done, after,
  or_none, answered, gateway_get, pure, ◌>>=◌,
}
use recon_ledger.Collectors.Wayback.{ArchivedUrl, ByUrl}
use recon_ledger.Collectors.Wayback.Choice.{select_representative, length-select_representative}
use recon_ledger.Collectors.Wayback.Run.{
  wayback_host, request_of, replay_url, usable, total_size, fetch_samples,
}

-- What the gateway does of `max_response_bytes`: no larger response is returned.
abbrev pub IsCapped : Surroundings → Type 0
IsCapped w =
    (i : ℕ) (r : Request) (p : Reply) (n : ℕ)
    → w.fetch i r ≡ replied p
    → r.max_response_bytes ≡ some n
    → length p.content ≤ n

-- The gateway raises no exception but a `GatewayError`.
abbrev pub IsTyped : Surroundings → Type 0
IsTyped w = (i : ℕ) (r : Request) → w.fetch i r ≢ broken

-- A request to the Wayback Machine alone, for half a megabyte at most.
abbrev pub IsSampling : Request → Type 0
IsSampling r =
    (r.allowed_hosts ≡ wayback_host ∷ [])
    × ((n : ℕ) × (r.max_response_bytes ≡ some n) × (n ≤ 500000))

abbrev pub Samples : Type 0
Samples = List (ArchivedUrl × Reply)

-- The requests that a run has added to the log.
abbrev pub HasSent : ℕ → Session → Session → Type 0
HasSent n s t = (rs : List Request) × (t.sent ≡ s.sent ++ rs) × (length rs ≤ n) × All IsSampling rs

-- A return, with at most `n` samples of `b` bytes in all and `n` requests.
abbrev pub HasFetched : ℕ → ℕ → Session → Outcome Samples × Session → Type 0
HasFetched n b s out =
    (xs : Samples) × (out.0 ≡ done xs) × (length xs ≤ n) × (total_size xs ≤ b) × HasSent n s out.1

min≤l : (a b : ℕ) → min a b ≤ a
min≤l a b = omega arith

min≤r : (a b : ℕ) → min a b ≤ b
min≤r a b = omega arith

append_nil {ℓ} : {A : Type ℓ} (xs : List A) → xs ++ [] ≡ xs
append_nil [] = refl
append_nil (x ∷ xs) = ap (λ r. x ∷ r) (append_nil xs)

append_assoc {ℓ} : {A : Type ℓ} (xs ys zs : List A) → xs ++ ys ++ zs ≡ xs ++ (ys ++ zs)
append_assoc [] ys zs = refl
append_assoc (x ∷ xs) ys zs = ap (λ r. x ∷ r) (append_assoc xs ys zs)

total_size-append : (xs ys : Samples) → total_size (xs ++ ys) ≡ total_size xs + total_size ys
total_size-append [] ys = omega arith
total_size-append (x ∷ xs) ys = omega (arith, total_size-append xs ys)

abbrev IsWithin : ℕ → Option Reply → Type 0
IsWithin b none = Unit
IsWithin b (some p) = length p.content ≤ b

usable-bounds :
    (e : ArchivedUrl) (b : ℕ) (o : Option Reply)
    → IsWithin b o
    → (length (usable e o) ≤ 1) × (total_size (usable e o) ≤ b)
usable-bounds e b none h = (omega arith, omega arith)
usable-bounds e b (some p) h = elim (Bool-cases (p.status_code == 200)) [
  | inl g ↦ rw g (omega arith, omega (arith, h))
  | inr g ↦ rw g (omega arith, omega arith)
]

abbrev also : Samples → Outcome Samples × Session → Outcome Samples × Session
also xs out = after (λ rest. pure (xs ++ rest)) out

also-HasFetched :
    (xs : Samples) (q : Request) (n b : ℕ) (s t : Session) (out : Outcome Samples × Session)
    → (length xs ≤ 1) × (total_size xs ≤ b)
    → IsSampling q
    → t.sent ≡ s.sent ++ q ∷ []
    → HasFetched n (b - total_size xs) t out
    → HasFetched (suc n) b s (also xs out)
also-HasFetched xs q n b s t (o, t') h i k (ys, e, l, m, (rs, c, lr, ar)) = (
  xs ++ ys,
  ap (λ x. (also xs (x, t')).0) e,
  omega (arith, length-append xs ys, h.0, l),
  omega (arith, total_size-append xs ys, h.1, m),
  (
    q ∷ rs,
    ap (λ x. (also xs (x, t')).1.sent) e
        ∙ c
        ∙ ap (λ x. x ++ rs) k
        ∙ append_assoc s.sent (q ∷ []) rs,
    omega (arith, lr),
    (i, ar),
  ),
)

nothing-HasFetched : (n b : ℕ) (s : Session) → HasFetched n b s (done [], s)
nothing-HasFetched n b s =
    ([], refl, omega arith, omega arith, ([], sym (append_nil s.sent), omega arith, tt))

more-HasFetched :
    (n m b : ℕ) (s : Session) (out : Outcome Samples × Session)
    → n ≤ m
    → HasFetched n b s out
    → HasFetched m b s out
more-HasFetched n m b s out h (ys, e, l, c, (rs, k, lr, ar)) =
    (ys, e, omega (arith, l), c, (rs, k, omega (arith, lr), ar))

module _ (w : Surroundings) (capped : IsCapped w) (typed : IsTyped w) where
  abbrev asked : ArchivedUrl → ℕ → Request
  asked e b = request_of (replay_url e) (some (min 500000 b))

  abbrev logged : ArchivedUrl → ℕ → Session → Session
  logged e b s = record s { sent = s.sent ++ asked e b ∷ [] }

  abbrev asked-IsSampling : (e : ArchivedUrl) (b : ℕ) → IsSampling (asked e b)
  asked-IsSampling e b = (refl, (min 500000 b, refl, min≤l 500000 b))

  -- The loop's body after an answer.
  answer-HasFetched :
      (e : ArchivedUrl) (es : List ArchivedUrl) (b : ℕ) (s : Session) (a : Answer)
      → w.fetch (length s.sent) (asked e b) ≡ a
      → ((c : ℕ) (t : Session) → HasFetched (length es) c t (fetch_samples w es c t))
      → HasFetched (suc (length es)) b s (
          after
            (λ answer. fetch_samples w es (b - total_size (usable e answer)) >>= λ rest.
              pure (usable e answer ++ rest))
            (or_none (answered w a, logged e b s)))
  answer-HasFetched e es b s (replied p) f ih =
      let size : length p.content ≤ min 500000 b = capped (length s.sent) (asked e b) p _ f refl in
      let size2 : length p.content ≤ b = omega (arith, size, min≤r 500000 b) in
      also-HasFetched (usable e (some p)) (asked e b) (length es) b s (logged e b s) _
        (usable-bounds e b (some p) size2) (asked-IsSampling e b) refl (ih _ _)
  answer-HasFetched e es b s (refused r) f ih =
      also-HasFetched [] (asked e b) (length es) b s (logged e b s) _ (omega arith, omega arith)
        (asked-IsSampling e b) refl (ih _ _)
  answer-HasFetched e es b s broken f ih = absurd (typed (length s.sent) (asked e b) f)

  fetch_samples-HasFetched_of :
      (es : List ArchivedUrl) (b : ℕ) (s : Session)
      → HasFetched (length es) b s (fetch_samples w es b s)
  unfolding fetch_samples gateway_get
  fetch_samples-HasFetched_of [] b s = nothing-HasFetched 0 b s
  fetch_samples-HasFetched_of (e ∷ es) b s = elim (Bool-cases (leb b 0)) [
    | inl g ↦ rw g (nothing-HasFetched (suc (length es)) b s)
    | inr g ↦ rw g (answer-HasFetched e es b s _ refl (fetch_samples-HasFetched_of es))
  ]

  -- If the gateway keeps its cap and raises nothing but a `GatewayError`, the sampling loop returns. It
  -- yields at most twenty responses, with at most five million bytes in all; and what it adds to the log
  -- are at most twenty requests, each open to the archive's host alone and for half a megabyte at most.
  pub fetch_samples-HasFetched :
      (d : ByUrl) (s : Session)
      → HasFetched 20 5000000 s (fetch_samples w (select_representative d) 5000000 s)
  fetch_samples-HasFetched d s =
      more-HasFetched _ 20 5000000 s (fetch_samples w (select_representative d) 5000000 s)
        (length-select_representative d)
        (fetch_samples-HasFetched_of (select_representative d) 5000000 s)

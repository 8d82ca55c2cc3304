-- ===== src/Security/RateLimiter.antt =====
-- `RateLimiter` of backend/app/security/rate_limit.py: the token bucket, by the readings of its clock. A
-- token is counted as `period` units, of which `requests` come in with each tick, so that the rate
-- requests / period stays a whole number. The semaphore on requests in flight is asyncio's.
use recon_ledger.Prelude.{
  ℕ, suc, ◌+◌, ◌-◌, ◌*◌, ◌≤◌, Bool, true, false, List, [], ◌∷◌, leb, if◌then◌else◌, min, ◌≡◌, refl,
  sym, arith, leb→le,
}

pub record RateLimiter : Type 0 where
  -- `requests_per_period` and `period_seconds`
  pub requests : ℕ
  pub period : ℕ
  pub burst : ℕ
  -- `_tokens` and `_last_refill`
  pub tokens : ℕ
  pub last_refill : ℕ

-- `__init__`, with the first reading of the clock
abbrev pub new_limiter : ℕ → ℕ → ℕ → ℕ → RateLimiter
new_limiter requests period burst now = record {
  requests = requests;
  period = period;
  burst = burst;
  tokens = burst * period;
  last_refill = now;
}

unfoldable pub refill : ℕ → RateLimiter → RateLimiter
refill now l = record l {
  tokens = min (l.burst * l.period) (l.tokens + (now - l.last_refill) * l.requests);
  last_refill = now;
}

-- `self._tokens -= 1.0`
abbrev pub spend : RateLimiter → RateLimiter
spend l = record l { tokens = l.tokens - l.period }

-- What callers of `acquire`, one after another, make of the clock's readings: a reading ends one call, or
-- the call sleeps until the next. The result is how many calls have returned.
unfoldable pub grants : List ℕ → RateLimiter → ℕ
unfolding refill
grants [] l = 0
grants (now ∷ readings) l =
    let l' = refill now l in
    let served = grants readings (spend l') in
    let waiting = grants readings l' in if leb l'.period l'.tokens then suc served else waiting

-- The clock does not go back.
abbrev pub IsMonotone : ℕ → List ℕ → Type 0
IsMonotone t [] = Unit
IsMonotone t (now ∷ readings) = (t ≤ now) × IsMonotone now readings

abbrev pub last_reading : ℕ → List ℕ → ℕ
last_reading t [] = t
last_reading t (now ∷ readings) = last_reading now readings

last_reading-le : (t : ℕ) (readings : List ℕ) → IsMonotone t readings → t ≤ last_reading t readings
last_reading-le t [] h = omega arith
last_reading-le t (now ∷ readings) h = omega (arith, h.0, last_reading-le now readings h.1)

elapsed_add : (a b c r : ℕ) → a ≤ b → b ≤ c → (b - a) * r + (c - b) * r ≡ (c - a) * r
elapsed_add a b c r h k = grind arith

refill-tokens :
    (now : ℕ) (l : RateLimiter)
    → (refill now l).tokens ≤ l.tokens + (now - l.last_refill) * l.requests
unfolding refill
refill-tokens now l = omega arith

grants-if :
    (b : Bool) (served waiting p n : ℕ)
    → (b ≡ true → served * p + p ≤ n)
    → (b ≡ false → waiting * p ≤ n)
    → (if b then suc served else waiting) * p ≤ n
grants-if true served waiting p n h k = let le = h refl in grind arith
grants-if false served waiting p n h k = k refl

-- a call that returns takes what it spends out of the bucket
served-le :
    (s p full before e1 e2 : ℕ)
    → p ≤ full
    → full ≤ before + e1
    → s * p ≤ full - p + e2
    → s * p + p ≤ before + (e1 + e2)
served-le s p full before e1 e2 h k m = omega arith

grants-le :
    (readings : List ℕ) (l : RateLimiter)
    → IsMonotone l.last_refill readings
    → grants readings l * l.period
      ≤ l.tokens + (last_reading l.last_refill readings - l.last_refill) * l.requests
unfolding grants
grants-le [] l h = omega arith
grants-le (now ∷ readings) l h =
    let l' = refill now l in
    let later = last_reading now readings in
    let sum =
      elapsed_add l.last_refill now later l.requests h.0 (last_reading-le now readings h.1) in
    let full = refill-tokens now l in
    let served = grants-le readings (spend l') h.1 in
    let waiting = grants-le readings l' h.1 in
    rw⁻¹ sum (
      grants-if (leb l'.period l'.tokens) (grants readings (spend l')) (grants readings l') l.period
        _
        (λ e.
          served-le (grants readings (spend l')) l.period l'.tokens l.tokens
            ((now - l.last_refill) * l.requests) ((later - now) * l.requests)
            (leb→le l.period l'.tokens e) full served)
        (λ e. omega (arith, full, waiting)))

-- the limiter after these readings
unfoldable pub serve : List ℕ → RateLimiter → RateLimiter
unfolding refill
serve [] l = l
serve (now ∷ readings) l =
    let l' = refill now l in
    let served = serve readings (spend l') in
    let waiting = serve readings l' in if leb l'.period l'.tokens then served else waiting

-- The settings stay, the bucket holds `burst` tokens at most, and the time is that of the last reading.
abbrev IsWithin : RateLimiter → ℕ → RateLimiter → Type 0
IsWithin l last k =
    (k.requests ≡ l.requests)
    × (k.period ≡ l.period)
    × (k.tokens ≤ l.burst * l.period)
    × (k.last_refill ≡ last)

IsWithin-if :
    (l : RateLimiter) (last : ℕ) (b : Bool) (x y : RateLimiter)
    → IsWithin l last x
    → IsWithin l last y
    → IsWithin l last (if b then x else y)
IsWithin-if l last true x y h k = h
IsWithin-if l last false x y h k = k

serve-IsWithin :
    (readings : List ℕ) (l : RateLimiter)
    → l.tokens ≤ l.burst * l.period
    → IsWithin l (last_reading l.last_refill readings) (serve readings l)
unfolding serve
serve-IsWithin [] l h = (refl, refl, h, refl)
serve-IsWithin (now ∷ readings) l h =
    let l' = refill now l in
    IsWithin-if l (last_reading now readings) (leb l'.period l'.tokens) _ _
      (serve-IsWithin readings (spend l') (omega arith)) (serve-IsWithin readings l' (omega arith))

grants-within :
    (readings : List ℕ) (k : RateLimiter) (requests period now : ℕ)
    → k.requests ≡ requests
    → k.period ≡ period
    → k.last_refill ≡ now
    → IsMonotone now readings
    → grants readings k * period ≤ k.tokens + (last_reading now readings - now) * requests
grants-within readings k requests period now r p t h =
    rw (sym r, sym p, sym t) (grants-le readings k (rw t h))

-- While the clock does not go back, and whatever came before: of the callers of `acquire` in a row, as
-- many return after a reading of the clock as the burst, and the rate of `requests` per `period` since
-- that reading, allow.
pub grants-bound :
    (requests period burst now : ℕ) (earlier later : List ℕ)
    → IsMonotone (last_reading now earlier) later
    → grants later (serve earlier (new_limiter requests period burst now)) * period
      ≤ burst * period
        + (last_reading (last_reading now earlier) later - last_reading now earlier) * requests
grants-bound requests period burst now earlier later h =
    let l = new_limiter requests period burst now in
    let k = serve earlier l in
    let w = serve-IsWithin earlier l (omega arith) in
    let bound = grants-within later k requests period (last_reading now earlier) w.0 w.1 w.3 h in
    omega (arith, bound, w.2)

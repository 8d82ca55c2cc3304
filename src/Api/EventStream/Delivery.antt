-- ===== src/Api/EventStream/Delivery.antt =====
-- Which events a connection delivers.
use recon_ledger.Prelude.{
  ℕ, sym, ◌<◌, ◌≤◌, Bool, true, false, ◌&&◌, ◌||◌, List, [], ◌∷◌, ◌++◌, filter, any, ltb, ◌==◌, ◌≡◌,
  refl, arith, All, Bool-cases, inl, inr, ◌⊎◌, ◌∙◌,
}
use recon_ledger.Models.Db.{JobEvent, Database, get_job}
use recon_ledger.Api.EventStream.{
  insert_by_id, order_by_id, new_events, seen_after, is_over, sse_event_stream,
}

any-insert :
    (i : ℕ) (e : JobEvent) (es : List JobEvent)
    → any (λ x. x.id == i) (insert_by_id e es) ≡ (e.id == i || any (λ x. x.id == i) es)
unfolding insert_by_id any
any-insert i e [] = refl
any-insert i e (x ∷ xs) = ground (arith, any-insert i e xs)

any-order :
    (i : ℕ) (es : List JobEvent) → any (λ x. x.id == i) (order_by_id es) ≡ any (λ x. x.id == i) es
unfolding order_by_id any
any-order i [] = refl
any-order i (e ∷ es) = ground (arith, any-order i es, any-insert i e (order_by_id es))

any-filter :
    (i : ℕ) (p : JobEvent → Bool) (es : List JobEvent)
    → any (λ x. x.id == i) (filter p es) ≡ any (λ x. p x && x.id == i) es
unfolding filter any
any-filter i p [] = refl
any-filter i p (e ∷ es) = ground (arith, any-filter i p es)

any-append :
    (i : ℕ) (xs ys : List JobEvent)
    → any (λ x. x.id == i) (xs ++ ys) ≡ (any (λ x. x.id == i) xs || any (λ x. x.id == i) ys)
unfolding any
any-append i [] ys = refl
any-append i (x ∷ xs) ys = ground (arith, any-append i xs ys)

any-new_events :
    (i j seen : ℕ) (db : Database)
    → any (λ x. x.id == i) (new_events j seen db)
      ≡ any (λ x. (x.job_id == j && ltb seen x.id) && x.id == i) db.events
unfolding new_events
any-new_events i j seen db =
    any-order i (filter (λ x. x.job_id == j && ltb seen x.id) db.events)
    ∙ any-filter i (λ x. x.job_id == j && ltb seen x.id) db.events

-- The database has an event of the job with this number.
abbrev pub has_event : ℕ → ℕ → Database → Bool
has_event j i db = any (λ x. x.job_id == j && x.id == i) db.events

-- Events are numbered as they come: one of the later state that is not after an event of the earlier state
-- was in that already.
abbrev pub IsUpTo : ℕ → Database → Database → Type 0
IsUpTo j db p =
    (i m : ℕ) → has_event j i db ≡ true → has_event j m p ≡ true → i ≤ m → has_event j i p ≡ true

any-seen :
    (i j seen : ℕ) (es : List JobEvent)
    → seen < i
    → any (λ x. x.job_id == j && x.id == i) es ≡ true
    → any (λ x. (x.job_id == j && ltb seen x.id) && x.id == i) es ≡ true
unfolding any
any-seen i j seen [] h k = k
any-seen i j seen (e ∷ es) h k = ground (arith, any-seen i j seen es h)

any-unseen :
    (i j seen : ℕ) (es : List JobEvent)
    → any (λ x. (x.job_id == j && ltb seen x.id) && x.id == i) es ≡ true
    → any (λ x. x.job_id == j && x.id == i) es ≡ true
unfolding any
any-unseen i j seen [] k = k
any-unseen i j seen (e ∷ es) k = ground (arith, any-unseen i j seen es)

-- The last event seen is the client's, or one that has been sent.
seen_after-cases :
    (seen : ℕ) (es : List JobEvent)
    → (seen_after seen es ≡ seen) ⊎ (any (λ x. x.id == seen_after seen es) es ≡ true)
unfolding seen_after any
seen_after-cases seen [] = inl refl
seen_after-cases seen (e ∷ es) = elim (seen_after-cases e.id es) [
  | inl h ↦ inr (ground arith)
  | inr h ↦ inr (ground arith)
]

new_events-any :
    (i j seen : ℕ) (db : Database)
    → seen < i
    → has_event j i db ≡ true
    → any (λ x. x.id == i) (new_events j seen db) ≡ true
new_events-any i j seen db h k = any-new_events i j seen db ∙ any-seen i j seen db.events h k

-- An event that was numbered before the last one seen has been sent.
sent_before :
    (i j seen : ℕ) (db p : Database)
    → IsUpTo j db p
    → has_event j i db ≡ true
    → seen < i
    → ltb (seen_after seen (new_events j seen p)) i ≡ false
    → any (λ x. x.id == i) (new_events j seen p) ≡ true
sent_before i j seen db p log h above behind =
    let last = seen_after seen (new_events j seen p) in
    elim (seen_after-cases seen (new_events j seen p)) [
      | inl same ↦ absurd (ground arith)
      | inr sent ↦
          let stored : has_event j last p ≡ true =
            any-unseen last j seen p.events (sym (any-new_events last j seen p) ∙ sent) in
          new_events-any i j seen p above (log i last h stored (ground arith))
    ]

any-now_or_later :
    (i : ℕ) (xs ys : List JobEvent)
    → (any (λ x. x.id == i) xs || any (λ x. x.id == i) ys) ≡ true
    → any (λ x. x.id == i) (xs ++ ys) ≡ true
any-now_or_later i xs ys h = any-append i xs ys ∙ h

-- An event of the job that a poll finds is sent by then, whatever comes after, if it is later than the
-- client's last one, no poll before has found the job ended or gone, and the events are numbered as they
-- come.
pub sse_event_stream-any :
    (i j seen : ℕ) (before : List Database) (db : Database) (later : List Database)
    → All (λ p. is_over (get_job j p) ≡ false) before
    → All (IsUpTo j db) before
    → has_event j i db ≡ true
    → seen < i
    → any (λ x. x.id == i) (sse_event_stream j seen (before ++ db ∷ later)) ≡ true
unfolding sse_event_stream
sse_event_stream-any i j seen [] db later open_ log h above =
    any-now_or_later i (new_events j seen db) _ (rw (new_events-any i j seen db above h) refl)
sse_event_stream-any i j seen (p ∷ before) db later open_ log h above =
    let last = seen_after seen (new_events j seen p) in
    rw open_.0 (elim (Bool-cases (ltb last i)) [
      | inl e ↦ any-now_or_later i (new_events j seen p) _ (
          ground
            (arith, sse_event_stream-any i j last before db later open_.1 log.1 h (ground arith)))
      | inr e ↦
          any-now_or_later i (new_events j seen p) _
            (rw (sent_before i j seen db p log.0 h above e) refl)
    ])

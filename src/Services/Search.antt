-- ===== src/Services/Search.antt =====
-- `fts5_phrase_query` of backend/app/services/search.py. SQLite's reading of a string literal in a
-- query is described beside it.
use recon_ledger.Prelude.{
  ℕ, false, Option, none, some, [], ◌∷◌, ◌++◌, ◌==◌, if◌then◌else◌, ◌≡◌, refl, Bool-cases, inl, inr,
  ◌≢◌, ==_iff, All, ap, sym, Text,
}

-- `raw.replace('"', '""')`
unfoldable pub double_quotes : Text → Text
double_quotes [] = []
double_quotes (c ∷ s) = let rest = double_quotes s in if c == 34 then 34 ∷ 34 ∷ rest else c ∷ rest

unfoldable pub fts5_phrase_query : Text → Text
unfolding double_quotes
fts5_phrase_query raw = 34 ∷ double_quotes raw ++ 34 ∷ []

-- what stands before a literal that is read
abbrev before : ℕ → Option Text → Option Text
before c none = none
before c (some t) = some (c ∷ t)

-- FTS5's string: a quote within it is written twice, and the first single one ends it. The text of a
-- query ends at a NUL, so that a string with one is not ended.
abbrev pub read_string_body : Text → Option Text
read_string_body [] = none
read_string_body (c ∷ []) = if c == 34 then some [] else none
read_string_body (c ∷ d ∷ s) =
    let body = read_string_body (d ∷ s) in
    let after = read_string_body s in
    if c == 34
    then (if d == 34 then before 34 after else none)
    else if c == 0
    then none
    else before c body

abbrev pub read_phrase : Text → Option Text
read_phrase [] = none
read_phrase (c ∷ s) = let body = read_string_body s in if c == 34 then body else none

read-plain :
    (c : ℕ) (s : Text)
    → (c == 34) ≡ false
    → (c == 0) ≡ false
    → s ≢ []
    → read_string_body (c ∷ s) ≡ before c (read_string_body s)
read-plain c [] e z ne = absurd (ne refl)
read-plain c (d ∷ s) e z ne = rw (e, z) refl

not_empty : (s : Text) → s ++ 34 ∷ [] ≢ []
not_empty [] h = absurd (cc)
not_empty (c ∷ s) h = absurd (cc)

-- A text without the character NUL.
abbrev pub HasNoNul : Text → Type 0
HasNoNul = All (λ c. (c == 0) ≡ false)

read-double_quotes :
    (raw : Text) → HasNoNul raw → read_string_body (double_quotes raw ++ 34 ∷ []) ≡ some raw
unfolding double_quotes
read-double_quotes [] h = refl
read-double_quotes (c ∷ s) h = elim (Bool-cases (c == 34)) [
  | inl e ↦
      let is_quote : c ≡ 34 = (==_iff c 34).0 e in
      rw e (rw (read-double_quotes s h.1) (ap (λ x. some (x ∷ s)) (sym is_quote)))
  | inr e ↦ rw e (
      rw (read-plain c (double_quotes s ++ 34 ∷ []) e h.0 (not_empty (double_quotes s)))
        (rw (read-double_quotes s h.1) refl))
]

-- What the user has typed is read back by FTS5's rule as one string, which is that text, if it has no NUL.
pub read-fts5_phrase_query :
    (raw : Text) → HasNoNul raw → read_phrase (fts5_phrase_query raw) ≡ some raw
unfolding fts5_phrase_query
read-fts5_phrase_query raw h = read-double_quotes raw h

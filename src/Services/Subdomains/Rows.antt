-- ===== src/Services/Subdomains/Rows.antt =====
-- Which names have a row, and in which order.
use recon_ledger.Prelude.{
  Bool, true, false, ◌&&◌, ◌||◌, Option, none, some, List, [], ◌∷◌, map, filter, any, ◌≡◌, refl,
  arith, Bool-cases, inl, inr, Text, text_eq, text_eq_sound, sort_by, insert_by, ap, IsSortedBy,
  sort_by-IsSortedBy, ◌∙◌,
}
use recon_ledger.Models.Db.{Finding}
use recon_ledger.Services.Diff.{has_key}
use recon_ledger.Services.Diff.Keys.{has_key-put}
use recon_ledger.Services.CsvExport.{SubdomainRow}
use recon_ledger.Services.Subdomains.{
  Extracted, BySubdomain, extract, gather, take_extracted, row_of, is_in_scope,
  aggregate_subdomains,
}

any-insert_by {ℓ} :
    {A : Type ℓ} (key : A → Text) (p : A → Bool) (x : A) (xs : List A)
    → any p (insert_by key x xs) ≡ (p x || any p xs)
unfolding any insert_by
any-insert_by key p x [] = refl
any-insert_by key p x (y ∷ ys) = ground (arith, any-insert_by key p x ys)

any-sort_by {ℓ} :
    {A : Type ℓ} (key : A → Text) (p : A → Bool) (xs : List A) → any p (sort_by key xs) ≡ any p xs
unfolding any sort_by
any-sort_by key p [] = refl
any-sort_by key p (x ∷ xs) =
    ground (arith, any-insert_by key p x (sort_by key xs), any-sort_by key p xs)

abbrev pub subdomain_of : SubdomainRow → Text
subdomain_of r = r.subdomain

-- The finding names this subdomain.
abbrev pub is_named : Text → Option Extracted → Bool
is_named k none = false
is_named k (some x) = text_eq k x.subdomain

has_key-take_extracted :
    (k collector : Text) (d : BySubdomain) (o : Option Extracted)
    → has_key (take_extracted collector d o) k ≡ (is_named k o || has_key d k)
has_key-take_extracted k collector d none = refl
has_key-take_extracted k collector d (some x) = has_key-put k x.subdomain _ d

has_key-gather :
    (k : Text) (fs : List Finding) (d : BySubdomain)
    → has_key (gather fs d) k ≡ (any (λ f. is_named k (extract f)) fs || has_key d k)
unfolding gather any
has_key-gather k [] d = refl
has_key-gather k (f ∷ fs) d = ground (
  arith,
  has_key-gather k fs (take_extracted f.collector d (extract f)),
  has_key-take_extracted k f.collector d (extract f),
)

-- Rows in scope with this name.
any-row_of :
    (target k : Text) (d : BySubdomain)
    → any (λ r. text_eq k r.subdomain) (filter (λ r. r.in_scope) (map (row_of target) d))
      ≡ (is_in_scope target k && has_key d k)
unfolding any filter has_key row_of
any-row_of target k [] = ground arith
any-row_of target k (e ∷ d) = elim (Bool-cases (text_eq k e.0)) [
  | inl g ↦
      let same : is_in_scope target k ≡ is_in_scope target e.0 =
        ap (is_in_scope target) (text_eq_sound k e.0 g) in
      ground (arith, any-row_of target k d)
  | inr g ↦ ground (arith, any-row_of target k d)
]

or_false : (b : Bool) → (b || false) ≡ b
or_false true = refl
or_false false = refl

has_key-gather_nil :
    (k : Text) (fs : List Finding) → has_key (gather fs []) k ≡ any (λ f. is_named k (extract f)) fs
unfolding has_key any
has_key-gather_nil k fs = has_key-gather k fs [] ∙ or_false (any (λ f. is_named k (extract f)) fs)

-- A name has a row in the workspace exactly if it is the target or a name under it and some finding of the
-- job names it; and the rows stand in the order of their names.
pub any-aggregate_subdomains :
    (target k : Text) (fs : List Finding)
    → (any (λ r. text_eq k r.subdomain) (aggregate_subdomains target fs)
        ≡ (is_in_scope target k && any (λ f. is_named k (extract f)) fs))
      × IsSortedBy subdomain_of (aggregate_subdomains target fs)
unfolding aggregate_subdomains
any-aggregate_subdomains target k fs =
    let rows = filter (λ r. r.in_scope) (map (row_of target) (gather fs [])) in
    (
      any-sort_by subdomain_of (λ r. text_eq k r.subdomain) rows
          ∙ any-row_of target k (gather fs [])
          ∙ ap (λ b. is_in_scope target k && b) (has_key-gather_nil k fs),
      sort_by-IsSortedBy subdomain_of rows,
    )

-- ===== src/Services/CsvExport.antt =====
-- backend/app/services/csv_export.py: the cells of the export. How `csv.writer` joins and quotes them is
-- an argument.
use recon_ledger.Prelude.{
  ℕ, Bool, true, false, Option, none, some, List, [], ◌∷◌, ◌++◌, any, if◌then◌else◌, Text, codes,
  starts_with,
}

-- `SubdomainRow` of backend/app/services/subdomains.py
pub record SubdomainRow : Type 0 where
  pub subdomain : Text
  pub source_count : ℕ
  pub sources : List Text
  pub first_seen_at : Option Text
  pub last_seen_at : Option Text
  pub wildcard : Bool
  pub in_scope : Bool

abbrev pub dangerous_prefixes : List Text
dangerous_prefixes = codes "=" ∷ codes "+" ∷ codes "-" ∷ codes "@" ∷ (9 ∷ []) ∷ (13 ∷ []) ∷ []

-- `value.startswith(_DANGEROUS_PREFIXES)`
unfoldable pub is_dangerous : Text → Bool
unfolding any starts_with
is_dangerous value = any (starts_with value) dangerous_prefixes

unfoldable pub sanitize_cell : Text → Text
unfolding is_dangerous
sanitize_cell value = if is_dangerous value then 39 ∷ value else value

abbrev pub csv_header : List Text
csv_header =
    codes "subdomain"
    ∷ codes "source_count"
    ∷ codes "sources"
    ∷ codes "first_seen_at"
    ∷ codes "last_seen_at"
    ∷ codes "wildcard"
    ∷ codes "in_scope"
    ∷ []

-- `";".join(parts)`
unfoldable pub join_semicolons : List Text → Text
join_semicolons [] = []
join_semicolons (p ∷ []) = p
join_semicolons (p ∷ q ∷ ps) = p ++ 59 ∷ join_semicolons (q ∷ ps)

-- `text or ""`
abbrev pub or_empty : Option Text → Text
or_empty none = []
or_empty (some t) = t

abbrev pub show_bool : Bool → Text
show_bool true = codes "true"
show_bool false = codes "false"

module _ (decimal : ℕ → Text) (writerow : List Text → Text) where
  unfoldable pub row_cells : SubdomainRow → List Text
  unfolding sanitize_cell join_semicolons
  row_cells r =
      sanitize_cell r.subdomain
      ∷ decimal r.source_count
      ∷ sanitize_cell (join_semicolons r.sources)
      ∷ or_empty r.first_seen_at
      ∷ or_empty r.last_seen_at
      ∷ show_bool r.wildcard
      ∷ show_bool r.in_scope
      ∷ []

  unfoldable pub write_rows : List SubdomainRow → Text
  unfolding row_cells
  write_rows [] = []
  write_rows (r ∷ rs) = writerow (row_cells r) ++ write_rows rs

  unfoldable pub build_subdomains_csv : List SubdomainRow → Text
  unfolding write_rows
  build_subdomains_csv rows = writerow csv_header ++ write_rows rows

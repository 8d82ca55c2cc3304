-- ===== src/Collectors/Wayback/Scope.antt =====
-- Which URLs the index of the Wayback Machine gives, and when they were seen.
use recon_ledger.Prelude.{
  Bool, true, false, Option, none, some, List, [], ◌∷◌, ◌≡◌, refl, arith, All, Bool-cases, inl, inr,
  Text, text_eq, text_lt, text_lt_irrefl, text_lt_trans, text_eq_sound, ◌∙◌, sym, codes, ◌>>=◌,
}
use recon_ledger.Services.Diff.{put, lookup}
use recon_ledger.Collectors.ArchiveUrls.{Urls, is_in_scope, canonicalize_archived_url}
use recon_ledger.Collectors.Wayback.{
  Row, ArchivedUrl, ByUrl, note_first, note_last, note_best, new_entry, or_new, is_ok_status,
  note_row, take_row, if_given, if_canonical, if_in_scope, aggregate_from, aggregate_by_url,
}

-- The entry of a URL in scope, first seen no later than it was last seen.
abbrev pub IsSound : Urls → Text → Text × ArchivedUrl → Type 0
IsSound u target e =
    (is_in_scope u e.0 target ≡ some true)
    × ((e.1.url ≡ e.0) × (text_lt e.1.last_seen e.1.first_seen ≡ false))

-- Both at once are kept by each of the notes.
abbrev IsEntryOf : Text → ArchivedUrl → Type 0
IsEntryOf url e = (e.url ≡ url) × (text_lt e.last_seen e.first_seen ≡ false)

note_first-IsEntryOf :
    (url ts : Text) (e : ArchivedUrl) → IsEntryOf url e → IsEntryOf url (note_first ts e)
unfolding note_first
note_first-IsEntryOf url ts e h = elim (Bool-cases (text_lt ts e.first_seen)) [
  | inl g ↦ rw g (h.0, ground (arith, text_lt_trans e.last_seen ts e.first_seen))
  | inr g ↦ rw g h
]

note_last-IsEntryOf :
    (url ts : Text) (row : Row) (e : ArchivedUrl)
    → IsEntryOf url e
    → IsEntryOf url (note_last ts row e)
unfolding note_last
note_last-IsEntryOf url ts row e h = elim (Bool-cases (text_lt e.last_seen ts)) [
  | inl g ↦ rw g (h.0, ground (arith, text_lt_trans e.last_seen ts e.first_seen))
  | inr g ↦ rw g h
]

note_best-IsEntryOf :
    (url ts : Text) (row : Row) (e : ArchivedUrl)
    → IsEntryOf url e
    → IsEntryOf url (note_best ts row e)
unfolding note_best
note_best-IsEntryOf url ts row e h =
    elim (Bool-cases (is_ok_status (lookup (codes "statuscode") row))) [
      | inl g ↦ rw g h
      | inr g ↦ rw g h
    ]

abbrev IsEntryIfAny : Text → Option ArchivedUrl → Type 0
IsEntryIfAny url none = Unit
IsEntryIfAny url (some e) = IsEntryOf url e

module _ (u : Urls) (target : Text) where
  lookup-IsSound :
      (url : Text) (d : ByUrl) → All (IsSound u target) d → IsEntryIfAny url (lookup url d)
  unfolding lookup
  lookup-IsSound url [] h = tt
  lookup-IsSound url (f ∷ d) h = elim (Bool-cases (text_eq url f.0)) [
    | inl g ↦ rw g (h.0.1.0 ∙ sym (text_eq_sound url f.0 g), h.0.1.1)
    | inr g ↦ rw g (lookup-IsSound url d h.1)
  ]

  put-IsSound :
      (url : Text) (e : ArchivedUrl) (d : ByUrl)
      → is_in_scope u url target ≡ some true
      → IsEntryOf url e
      → All (IsSound u target) d
      → All (IsSound u target) (put url e d)
  unfolding put
  put-IsSound url e [] s k h = ((s, k), tt)
  put-IsSound url e (f ∷ d) s k h = elim (Bool-cases (text_eq url f.0)) [
    | inl g ↦ rw g ((h.0.0, (k.0 ∙ text_eq_sound url f.0 g, k.1)), h.1)
    | inr g ↦ rw g (h.0, put-IsSound url e d s k h.1)
  ]

  or_new-IsEntryOf :
      (url ts : Text) (row : Row) (o : Option ArchivedUrl)
      → IsEntryIfAny url o
      → IsEntryOf url (or_new u url ts row o)
  unfolding new_entry
  or_new-IsEntryOf url ts row none h = (refl, text_lt_irrefl ts)
  or_new-IsEntryOf url ts row (some e) h = h

  note_row-IsSound :
      (url ts : Text) (row : Row) (d : ByUrl)
      → is_in_scope u url target ≡ some true
      → All (IsSound u target) d
      → All (IsSound u target) (note_row u url ts row d)
  unfolding note_row
  note_row-IsSound url ts row d s h =
      put-IsSound url _ d s
        (note_best-IsEntryOf url ts row _ (
          note_last-IsEntryOf url ts row _ (
            note_first-IsEntryOf url ts _
              (or_new-IsEntryOf url ts row (lookup url d) (lookup-IsSound url d h)))))
        h

  abbrev pub AreSound : Option ByUrl → Type 0
  AreSound none = Unit
  AreSound (some d) = All (IsSound u target) d

  if_in_scope-AreSound :
      (url ts : Text) (row : Row) (d : ByUrl) (o : Option Bool)
      → is_in_scope u url target ≡ o
      → All (IsSound u target) d
      → AreSound (if_in_scope u url ts row d o)
  if_in_scope-AreSound url ts row d none s h = tt
  if_in_scope-AreSound url ts row d (some false) s h = h
  if_in_scope-AreSound url ts row d (some true) s h = note_row-IsSound url ts row d s h

  if_canonical-AreSound :
      (ts : Text) (row : Row) (d : ByUrl) (o : Option Text)
      → All (IsSound u target) d
      → AreSound (if_canonical u target ts row d o)
  if_canonical-AreSound ts row d none h = h
  if_canonical-AreSound ts row d (some url) h = if_in_scope-AreSound url ts row d _ refl h

  if_given-AreSound :
      (row : Row) (d : ByUrl) (original timestamp : Option Text)
      → All (IsSound u target) d
      → AreSound (if_given u target row d original timestamp)
  if_given-AreSound row d (some (c ∷ o)) (some (t ∷ ts)) h =
      if_canonical-AreSound (t ∷ ts) row d (canonicalize_archived_url u (c ∷ o)) h
  if_given-AreSound row d (some (c ∷ o)) (some []) h = h
  if_given-AreSound row d (some (c ∷ o)) none h = h
  if_given-AreSound row d (some []) timestamp h = h
  if_given-AreSound row d none timestamp h = h

  then_AreSound :
      (o : Option ByUrl) (k : ByUrl → Option ByUrl)
      → ((d : ByUrl) → All (IsSound u target) d → AreSound (k d))
      → AreSound o
      → AreSound (o >>= k)
  then_AreSound none k f h = tt
  then_AreSound (some d) k f h = f d h

  aggregate_from-AreSound :
      (rows : List Row) (d : ByUrl)
      → All (IsSound u target) d
      → AreSound (aggregate_from u target rows d)
  unfolding aggregate_from take_row
  aggregate_from-AreSound [] d h = h
  aggregate_from-AreSound (row ∷ rows) d h =
      then_AreSound (take_row u target row d) _ (aggregate_from-AreSound rows)
        (if_given-AreSound row d _ _ h)

  -- Whatever rows the index returns, every entry gathered from them stands for a URL in the target's
  -- scope, under its own URL, and was first seen no later than it was last seen.
  pub aggregate_by_url-AreSound : (rows : List Row) → AreSound (aggregate_by_url u rows target)
  unfolding aggregate_by_url
  aggregate_by_url-AreSound rows = aggregate_from-AreSound rows [] tt

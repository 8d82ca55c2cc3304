-- ===== src/Collectors/Crtsh/Scope.antt =====
-- Which names the certificates give.
use recon_ledger.Prelude.{
  ◌+◌, ◌≤◌, Bool, Option, none, some, List, [], ◌∷◌, ◌++◌, length, length-append, ◌≡◌, refl, arith,
  All, Bool-cases, inl, inr, Text, codes, text_eq, ends_with, text_eq_sound, ◌∙◌, sym, IfAny,
  IfAny-then, split, join,
}
use recon_ledger.Models.Json.{Json, Items, nil, cons, Fields, get_field}
use recon_ledger.Services.Diff.{put, lookup}
use recon_ledger.Collectors.ArchiveUrls.{IsUnder, ends_with-append_of}
use recon_ledger.Collectors.Crtsh.{
  Names, labels_of, without_wildcard, rstrip, CtEntry, BySubdomain, within, in_target,
  canonical_name, normalize_name, with_id, or_new, noted, noted_if, note_cert, put_entry,
  take_parsed, take_names, take_cert, take_certs,
}

-- What an entry says of its own name, of how often it was seen, and of where.
abbrev pub IsEntryOf : Text → CtEntry → Type 0
IsEntryOf subdomain e = (e.subdomain ≡ subdomain) × (length e.cert_ids ≤ e.cert_count)

-- A name at or under the target, seen in a certificate.
abbrev pub IsObserved : Text → Text × CtEntry → Type 0
IsObserved target e = IsUnder target e.0 × (IsEntryOf e.0 e.1 × (1 ≤ e.1.cert_count))

abbrev IsNameUnder : Text → Text × Bool → Type 0
IsNameUnder target p = IsUnder target p.0

within-IsUnder :
    (target canonical : Text) (b : Bool) → IfAny (IsNameUnder target) (within target canonical b)
within-IsUnder target canonical b = elim (Bool-cases (text_eq canonical target)) [
  | inl g ↦ rw g (inl (text_eq_sound canonical target g))
  | inr g ↦ elim (Bool-cases (ends_with canonical (codes "." ++ target))) [
    | inl h ↦ rw (g, h) (inr (ends_with-append_of canonical (codes "." ++ target) h))
    | inr h ↦ rw (g, h) tt
  ]
]

in_target-IsUnder :
    (n : Names) (target : Text) (b : Bool) (o : Option (List Text))
    → IfAny (IsNameUnder target) (in_target n target b o)
in_target-IsUnder n target b none = tt
in_target-IsUnder n target b (some labels) = within-IsUnder target (join (codes ".") labels) b

canonical_name-IsUnder :
    (n : Names) (target : Text) (o : Option (Text × Bool))
    → IfAny (IsNameUnder target) (canonical_name n target o)
canonical_name-IsUnder n target none = tt
canonical_name-IsUnder n target (some (name, b)) =
    in_target-IsUnder n target b (labels_of n (split (codes ".") name))

with_id_le : (v : Option Json) (ids : List Json) → length (with_id v ids) ≤ length ids + 1
with_id_le none ids = omega arith
with_id_le (some Json.null) ids = omega arith
with_id_le (some v) ids = omega (arith, length-append ids (v ∷ []))

normalize_name-IsUnder :
    (n : Names) (raw target : Text) → IfAny (IsNameUnder target) (normalize_name n raw target)
unfolding normalize_name
normalize_name-IsUnder n raw target =
    canonical_name-IsUnder n target (without_wildcard (n.lower (rstrip 46 (n.strip raw))))

abbrev IsNoted : Text → CtEntry → Type 0
IsNoted subdomain e = IsEntryOf subdomain e × (1 ≤ e.cert_count)

noted-IsNoted :
    (subdomain : Text) (cert : Fields) (b : Bool) (e : CtEntry) (issuers : List Text)
    (first last : Option Text)
    → IsEntryOf subdomain e
    → IsNoted subdomain (noted cert b e issuers first last)
noted-IsNoted subdomain cert b e issuers first last h =
    ((h.0, omega (arith, with_id_le (get_field (codes "id") cert) e.cert_ids, h.1)), omega arith)

noted_if-IsNoted :
    (subdomain : Text) (cert : Fields) (b : Bool) (e : CtEntry) (issuers : Option (List Text))
    (first last : Option (Option Text))
    → IsEntryOf subdomain e
    → IfAny (IsNoted subdomain) (noted_if cert b e issuers first last)
noted_if-IsNoted subdomain cert b e (some i) (some f) (some l) h =
    noted-IsNoted subdomain cert b e i f l h
noted_if-IsNoted subdomain cert b e none first last h = tt
noted_if-IsNoted subdomain cert b e (some i) none last h = tt
noted_if-IsNoted subdomain cert b e (some i) (some f) none h = tt

note_cert-IsNoted :
    (subdomain : Text) (cert : Fields) (b : Bool) (e : CtEntry)
    → IsEntryOf subdomain e
    → IfAny (IsNoted subdomain) (note_cert cert b e)
unfolding note_cert
note_cert-IsNoted subdomain cert b e h = noted_if-IsNoted subdomain cert b e _ _ _ h

or_new-IsEntryOf :
    (subdomain : Text) (o : Option CtEntry)
    → IfAny (IsEntryOf subdomain) o
    → IsEntryOf subdomain (or_new subdomain o)
or_new-IsEntryOf subdomain none h = (refl, omega arith)
or_new-IsEntryOf subdomain (some e) h = h

module _ (target : Text) where
  lookup-IsEntryOf :
      (k : Text) (d : BySubdomain) → All (IsObserved target) d → IfAny (IsEntryOf k) (lookup k d)
  unfolding lookup
  lookup-IsEntryOf k [] h = tt
  lookup-IsEntryOf k (f ∷ d) h = elim (Bool-cases (text_eq k f.0)) [
    | inl g ↦ rw g (h.0.1.0.0 ∙ sym (text_eq_sound k f.0 g), h.0.1.0.1)
    | inr g ↦ rw g (lookup-IsEntryOf k d h.1)
  ]

  put-IsObserved :
      (k : Text) (e : CtEntry) (d : BySubdomain)
      → IsObserved target (k, e)
      → All (IsObserved target) d
      → All (IsObserved target) (put k e d)
  unfolding put
  put-IsObserved k e [] p h = (p, tt)
  put-IsObserved k e (f ∷ d) (s, ((i, j), c)) h = elim (Bool-cases (text_eq k f.0)) [
    | inl g ↦ rw g ((h.0.0, ((i ∙ text_eq_sound k f.0 g, j), c)), h.1)
    | inr g ↦ rw g (h.0, put-IsObserved k e d (s, ((i, j), c)) h.1)
  ]

  put_entry-IsObserved :
      (k : Text) (d : BySubdomain) (o : Option CtEntry)
      → IsUnder target k
      → All (IsObserved target) d
      → IfAny (IsNoted k) o
      → IfAny (All (IsObserved target)) (put_entry k d o)
  put_entry-IsObserved k d none s h p = tt
  put_entry-IsObserved k d (some e) s h p = put-IsObserved k e d (s, p) h

  take_parsed-IsObserved :
      (cert : Fields) (d : BySubdomain) (o : Option (Text × Bool))
      → IfAny (IsNameUnder target) o
      → All (IsObserved target) d
      → IfAny (All (IsObserved target)) (take_parsed cert d o)
  take_parsed-IsObserved cert d none s h = h
  take_parsed-IsObserved cert d (some (k, b)) s h =
      put_entry-IsObserved k d _ s h
        (note_cert-IsNoted k cert b _ (or_new-IsEntryOf k (lookup k d) (lookup-IsEntryOf k d h)))

  module _ (n : Names) where
    take_names-IsObserved :
        (cert : Fields) (raws : List Text) (d : BySubdomain)
        → All (IsObserved target) d
        → IfAny (All (IsObserved target)) (take_names n target cert raws d)
    unfolding take_names
    take_names-IsObserved cert [] d h = h
    take_names-IsObserved cert (raw ∷ raws) d h =
        IfAny-then (All (IsObserved target)) (All (IsObserved target)) _ _
          (take_parsed-IsObserved cert d _ (normalize_name-IsUnder n raw target) h)
          (take_names-IsObserved cert raws)

    take_cert-IsObserved :
        (cert : Json) (d : BySubdomain)
        → All (IsObserved target) d
        → IfAny (All (IsObserved target)) (take_cert n target cert d)
    unfolding take_cert
    take_cert-IsObserved (Json.obj cert) d h = take_names-IsObserved cert _ d h
    take_cert-IsObserved _ d h = h

    -- Whatever certificates are returned, each entry gathered from them has a name at or under the target,
    -- where a name that only ends in the same letters is not under it; it was seen in at least one
    -- certificate, and in no fewer than it has identifiers of; if that held of the entries before.
    pub take_certs-IsObserved :
        (certs : Items) (d : BySubdomain)
        → All (IsObserved target) d
        → IfAny (All (IsObserved target)) (take_certs n target certs d)
    unfolding take_certs
    take_certs-IsObserved nil d h = h
    take_certs-IsObserved (cons cert certs) d h =
        IfAny-then (All (IsObserved target)) (All (IsObserved target)) _ _
          (take_cert-IsObserved cert d h) (take_certs-IsObserved certs)

-- ===== src/Collectors/ArchiveUrls.antt =====
-- backend/app/collectors/archive_urls.py: the canonical form of an archived URL. `urlsplit`, `urlunsplit`,
-- `lower` and `isalnum` are Python's.
use recon_ledger.Prelude.{
  ℕ, ◌-◌, Bool, true, false, ◌&&◌, ◌||◌, not, Option, none, some, [], ◌∷◌, ◌++◌, length, take, any,
  leb, ◌==◌, if◌then◌else◌, ◌≡◌, arith, Bool-cases, inl, inr, ◌⊎◌, ap, text_eq_sound, Text, codes,
  text_eq, ends_with,
}

pub record SplitUrl : Type 0 where
  pub scheme : Text
  pub netloc : Text
  pub path : Text
  pub query : Text

pub record Urls : Type 0 where
  -- `none` for a ValueError
  pub urlsplit : Text → Option SplitUrl
  -- the URL of these parts, with no fragment
  pub urlunsplit : SplitUrl → Text
  pub lower : Text → Text
  pub isalnum : Text → Bool

-- `parsed.path or "/"`
abbrev pub path_or_root : Text → Text
path_or_root [] = codes "/"
path_or_root (c ∷ s) = c ∷ s

-- `netloc[: -len(suffix)]`
abbrev pub without_end : Text → Text → Text
without_end netloc suffix = take (length netloc - length suffix) netloc

-- the default port of the scheme is dropped
unfoldable pub drop_default_port : Text → Text → Text
unfolding text_eq ends_with
drop_default_port scheme netloc =
    if text_eq scheme (codes "http") && ends_with netloc (codes ":80")
    then without_end netloc (codes ":80")
    else if text_eq scheme (codes "https") && ends_with netloc (codes ":443")
    then without_end netloc (codes ":443")
    else netloc

abbrev pub is_empty : Text → Bool
is_empty [] = true
is_empty (c ∷ s) = false

-- the part after the last `c`; all of it if there is none
unfoldable pub after_last : ℕ → Text → Text
unfolding any
after_last c [] = []
after_last c (d ∷ s) =
    let rest = after_last c s in
    if any (λ x. x == c) (d ∷ s) then (if any (λ x. x == c) s then rest else s) else d ∷ s

module _ (u : Urls) where
  unfoldable pub canonical_of : Option SplitUrl → Option SplitUrl
  unfolding drop_default_port
  canonical_of none = none
  canonical_of (some p) =
      if (not (text_eq p.scheme (codes "http")) && not (text_eq p.scheme (codes "https")))
        || is_empty p.netloc
      then none
      else some (record {
        scheme = p.scheme;
        netloc = drop_default_port p.scheme (u.lower p.netloc);
        path = path_or_root p.path;
        query = p.query;
      })

  abbrev pub unsplit : Option SplitUrl → Option Text
  unsplit none = none
  unsplit (some p) = some (u.urlunsplit p)

  unfoldable pub canonicalize_archived_url : Text → Option Text
  unfolding canonical_of
  canonicalize_archived_url raw = unsplit (canonical_of (u.urlsplit raw))

  -- `urlsplit(canonical_url).netloc`, with `none` for its exception
  abbrev pub netloc_of : Option SplitUrl → Option Text
  netloc_of none = none
  netloc_of (some p) = some p.netloc

  unfoldable pub host_of : Text → Option Text
  host_of url = netloc_of (u.urlsplit url)

  unfoldable pub is_host_in_scope : Text → Text → Bool
  unfolding text_eq ends_with
  is_host_in_scope domain host = text_eq host domain || ends_with host (codes "." ++ domain)

  abbrev pub in_scope : Text → Option Text → Option Bool
  in_scope domain none = none
  in_scope domain (some host) = some (is_host_in_scope domain host)

  unfoldable pub is_in_scope : Text → Text → Option Bool
  unfolding host_of is_host_in_scope
  is_in_scope url domain = in_scope domain (host_of url)

  -- the extension in the last segment of a path
  unfoldable pub extension_of : Text → Option Text
  unfolding after_last any
  extension_of path =
      let last_segment = after_last 47 path in
      let ext = u.lower (after_last 46 last_segment) in
      if not (any (λ c. c == 46) last_segment)
      then none
      else if u.isalnum ext && (leb 1 (length ext) && leb (length ext) 6)
      then some ext
      else none

pub ends_with-append_of : (s t : Text) → ends_with s t ≡ true → (pre : Text) × (s ≡ pre ++ t)
unfolding ends_with
ends_with-append_of [] t h = ([], text_eq_sound [] t h)
ends_with-append_of (c ∷ s) t h = elim (Bool-cases (text_eq (c ∷ s) t)) [
  | inl e ↦ ([], text_eq_sound (c ∷ s) t e)
  | inr e ↦ let r = ends_with-append_of s t (ground arith) in (c ∷ r.0, ap (λ x. c ∷ x) r.1)
]

-- The domain itself, or labels before it that end in a dot.
abbrev pub IsUnder : Text → Text → Type 0
IsUnder domain host = (host ≡ domain) ⊎ ((pre : Text) × (host ≡ pre ++ (codes "." ++ domain)))

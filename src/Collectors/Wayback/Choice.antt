-- ===== src/Collectors/Wayback/Choice.antt =====
-- `_select_representative` of backend/app/collectors/wayback.py: at most twenty archived URLs.
use recon_ledger.Prelude.{
  ℕ, suc, ◌≤◌, Bool, true, false, ◌&&◌, ◌||◌, not, Option, none, some, List, [], ◌∷◌, map, filter,
  length, take, leb, ltb, if◌then◌else◌, Text, text_eq, text_lt, codes, length-take_le, any,
}
use recon_ledger.Collectors.Wayback.{ArchivedUrl, ByUrl, is_ok_status}

-- `a == b` on extensions
abbrev pub extension_eq : Option Text → Option Text → Bool
extension_eq none none = true
extension_eq (some s) (some t) = text_eq s t
extension_eq _ _ = false

-- `extension not in (None, "html", "htm")`
abbrev pub is_no_page : Option Text → Bool
is_no_page none = false
is_no_page (some s) = not (text_eq s (codes "html")) && not (text_eq s (codes "htm"))

unfoldable pub is_seen : Option Text → List (Option Text) → Bool
unfolding any text_eq
is_seen x seen = any (extension_eq x) seen

-- The entries of either archive, by their URL and their extension.
module _ {A : Type 0} (url : A → Text) (extension : A → Option Text) where
  -- `key(a) <= key(b)`, for the pair of `is_no_page` and the URL
  unfoldable pub comes_first : A → A → Bool
  unfolding text_lt text_eq
  comes_first a b =
      if is_no_page (extension a)
      then is_no_page (extension b) && not (text_lt (url b) (url a))
      else is_no_page (extension b) || not (text_lt (url b) (url a))

  unfoldable pub insert : A → List A → List A
  unfolding comes_first
  insert e [] = e ∷ []
  insert e (f ∷ fs) = let rest = insert e fs in if comes_first e f then e ∷ f ∷ fs else f ∷ rest

  -- `candidates.sort(key=…)`
  unfoldable pub sort : List A → List A
  unfolding insert
  sort [] = []
  sort (e ∷ es) = insert e (sort es)

  -- the loop, with `seen_extensions` and `len(selected)`
  unfoldable pub pick : List (Option Text) → ℕ → List A → List A
  unfolding is_seen
  pick seen n [] = []
  pick seen n (e ∷ es) =
      let skip = is_seen (extension e) seen && ltb n 10 in
      let rest = pick (if skip then seen else extension e ∷ seen) (if skip then n else suc n) es in
      if leb 20 n then [] else if skip then rest else e ∷ rest

  unfoldable pub choose : List A → List A
  unfolding sort pick
  choose es = take 20 (pick [] 0 (sort es))

  pub length-choose : (es : List A) → length (choose es) ≤ 20
  unfolding choose
  length-choose es = length-take_le 20 (pick [] 0 (sort es))

unfoldable pub candidates : ByUrl → List ArchivedUrl
unfolding filter text_eq
candidates d = filter (λ e. is_ok_status e.best_statuscode) (map (λ e. e.1) d)

unfoldable pub select_representative : ByUrl → List ArchivedUrl
unfolding candidates choose
select_representative d = choose (λ e. e.url) (λ e. e.extension) (candidates d)

pub length-select_representative : (d : ByUrl) → length (select_representative d) ≤ 20
unfolding select_representative
length-select_representative d = length-choose (λ e. e.url) (λ e. e.extension) (candidates d)

-- ===== src/Services/Diff/Changes.antt =====
-- Which fingerprints a comparison names as added, gone or changed.
use recon_ledger.Prelude.{
  false, ◌&&◌, ◌||◌, not, Bool, Option, none, some, List, [], ◌∷◌, any, filter, ◌≡◌, refl, ap,
  arith, All, Bool-cases, inl, inr, Text, text_eq, text_eq_sound, ℕ,
}
use recon_ledger.Models.Json.{json_eq}
use recon_ledger.Services.Diff.{DiffFinding, values, lookup, has_key, compare_one, compare_common}
use recon_ledger.Services.Diff.Keys.{IsKeyed}

-- One of the findings has the fingerprint.
abbrev pub names : Text → List DiffFinding → Bool
names k fs = any (λ f. text_eq k f.fingerprint) fs

abbrev pub names_pair : Text → List (DiffFinding × DiffFinding) → Bool
names_pair k cs = any (λ c. text_eq k c.0.fingerprint) cs

-- The new side has a value, and another one.
abbrev pub differs : DiffFinding → Option DiffFinding → Bool
differs o none = false
differs o (some n) = not (json_eq o.normalized_value n.normalized_value)

-- The entries whose keys pass a test have the keys of the dictionary that do.
pub names-values :
    (k : Text) (p : Text → Bool) (d : List (Text × DiffFinding))
    → All IsKeyed d
    → names k (values (filter (λ e. p e.0) d)) ≡ (has_key d k && p k)
unfolding filter any has_key
names-values k p [] h = refl
names-values k p (e ∷ d) h =
    let fp : text_eq k e.1.fingerprint ≡ text_eq k e.0 = ap (text_eq k) h.0 in
    elim (Bool-cases (text_eq k e.0)) [
      | inl g ↦
          let same : p k ≡ p e.0 = ap p (text_eq_sound k e.0 g) in
          ground (arith, names-values k p d h.1)
      | inr g ↦ ground (arith, names-values k p d h.1)
    ]

names_pair-compare_one :
    (k : Text) (o : DiffFinding) (x : Option DiffFinding)
    (rest : List (DiffFinding × DiffFinding) × ℕ)
    → names_pair k (compare_one o x rest).0
      ≡ ((text_eq k o.fingerprint && differs o x) || names_pair k rest.0)
unfolding compare_one any
names_pair-compare_one k o none rest = ground arith
names_pair-compare_one k o (some n) rest =
    elim (Bool-cases (json_eq o.normalized_value n.normalized_value)) [
      | inl g ↦ rw g (ground arith)
      | inr g ↦ rw g (ground arith)
    ]

-- The entry of the old dictionary under the key has another value in the new one.
abbrev pub is_changed : Text → List (Text × DiffFinding) → List (Text × DiffFinding) → Bool
is_changed k old new = any (λ e. text_eq k e.0 && differs e.1 (lookup k new)) old

pub names_pair-compare_common :
    (k : Text) (old new : List (Text × DiffFinding))
    → All IsKeyed old
    → names_pair k (compare_common old new).0 ≡ is_changed k old new
unfolding compare_common any
names_pair-compare_common k [] new h = refl
names_pair-compare_common k (e ∷ old) new h =
    let fp : text_eq k e.1.fingerprint ≡ text_eq k e.0 = ap (text_eq k) h.0 in
    elim (Bool-cases (text_eq k e.0)) [
      | inl g ↦
          let same : differs e.1 (lookup k new) ≡ differs e.1 (lookup e.0 new) =
            ap (λ j. differs e.1 (lookup j new)) (text_eq_sound k e.0 g) in
          ground (
            arith,
            names_pair-compare_one k e.1 (lookup e.0 new) (compare_common old new),
            names_pair-compare_common k old new h.1,
          )
      | inr g ↦ ground (
        arith,
        names_pair-compare_one k e.1 (lookup e.0 new) (compare_common old new),
        names_pair-compare_common k old new h.1,
      )
    ]

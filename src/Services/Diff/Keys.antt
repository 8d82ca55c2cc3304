-- ===== src/Services/Diff/Keys.antt =====
-- The keys of a dictionary that is filled from pairs.
use recon_ledger.Prelude.{
  true, false, ◌||◌, none, some, List, [], ◌∷◌, map, any, ◌≡◌, refl, ap, arith, All, All-imp,
  text_eq_refl, Bool-cases, inl, inr, Text, text_eq, text_eq_sound,
}
use recon_ledger.Models.Db.{Finding}
use recon_ledger.Services.Diff.{
  DiffFinding, to_diff_finding, put, put_all, lookup, has_key, by_fingerprint,
}

module _ {ℓ} {A : Type ℓ} where
  pub has_key-put :
      (k j : Text) (v : A) (d : List (Text × A))
      → has_key (put j v d) k ≡ (text_eq k j || has_key d k)
  unfolding has_key put any
  has_key-put k j v [] = refl
  has_key-put k j v (e ∷ d) = elim (Bool-cases (text_eq j e.0)) [
    | inl h ↦
        let same : text_eq k j ≡ text_eq k e.0 = ap (text_eq k) (text_eq_sound j e.0 h) in
        ground arith
    | inr h ↦ ground (arith, has_key-put k j v d)
  ]

  pub has_key-put_all :
      (k : Text) (es d : List (Text × A))
      → has_key (put_all es d) k ≡ (any (λ e. text_eq k e.0) es || has_key d k)
  unfolding put_all any
  has_key-put_all k [] d = refl
  has_key-put_all k (e ∷ es) d =
      ground (arith, has_key-put_all k es (put e.0 e.1 d), has_key-put k e.0 e.1 d)

  -- Every entry's key is there.
  pub has_key_self : (d : List (Text × A)) → All (λ e. has_key d e.0 ≡ true) d
  unfolding has_key any
  has_key_self [] = tt
  has_key_self (e ∷ d) =
      (ground (arith, text_eq_refl e.0), All-imp (λ x h. ground arith) d (has_key_self d))

  -- A key is looked up exactly where it is there.
  pub lookup-has_key :
      (k : Text) (d : List (Text × A))
      → has_key d k ≡ elim (lookup k d) [ none ↦ false | some v ↦ true ]
  unfolding has_key lookup any
  lookup-has_key k [] = refl
  lookup-has_key k (e ∷ d) = ground (arith, lookup-has_key k d)

any-fingerprint :
    (k : Text) (fs : List Finding)
    → any
        (λ (e : Text × DiffFinding). text_eq k e.0)
        (map (λ f. (f.fingerprint, to_diff_finding f)) fs)
      ≡ any (λ f. text_eq k f.fingerprint) fs
unfolding any
any-fingerprint k [] = refl
any-fingerprint k (f ∷ fs) = ground (arith, any-fingerprint k fs)

-- The fingerprints of the dictionary are those of the findings.
pub has_key-by_fingerprint :
    (k : Text) (fs : List Finding)
    → has_key (by_fingerprint fs) k ≡ any (λ f. text_eq k f.fingerprint) fs
unfolding by_fingerprint has_key any
has_key-by_fingerprint k fs = ground (
  arith,
  has_key-put_all k (map (λ f. (f.fingerprint, to_diff_finding f)) fs) [],
  any-fingerprint k fs,
)

-- Each entry stands under its own fingerprint.
abbrev pub IsKeyed : Text × DiffFinding → Type 0
IsKeyed e = e.1.fingerprint ≡ e.0

put-IsKeyed :
    (v : DiffFinding) (d : List (Text × DiffFinding))
    → All IsKeyed d
    → All IsKeyed (put v.fingerprint v d)
unfolding put
put-IsKeyed v [] h = (refl, tt)
put-IsKeyed v (e ∷ d) h = elim (Bool-cases (text_eq v.fingerprint e.0)) [
  | inl g ↦ rw g (text_eq_sound v.fingerprint e.0 g, h.1)
  | inr g ↦ rw g (h.0, put-IsKeyed v d h.1)
]

put_all-IsKeyed :
    (fs : List Finding) (d : List (Text × DiffFinding))
    → All IsKeyed d
    → All IsKeyed (put_all (map (λ f. (f.fingerprint, to_diff_finding f)) fs) d)
unfolding put_all
put_all-IsKeyed [] d h = h
put_all-IsKeyed (f ∷ fs) d h = put_all-IsKeyed fs _ (put-IsKeyed (to_diff_finding f) d h)

pub by_fingerprint-IsKeyed : (fs : List Finding) → All IsKeyed (by_fingerprint fs)
unfolding by_fingerprint
by_fingerprint-IsKeyed fs = put_all-IsKeyed fs [] tt

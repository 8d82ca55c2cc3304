-- ===== src/Collectors/Technology/Evidence.antt =====
-- Every inference rests on findings of the job.
use recon_ledger.Prelude.{
  ℕ, ◌≤◌, Bool, true, false, ◌||◌, Option, none, some, List, [], ◌∷◌, length, any, ◌==◌, ◌≡◌, arith,
  All, All-imp, Bool-cases, inl, inr, text_eq, text_eq_comm, codes, IfAny-if, ◌∙◌, IfAny,
  IfAny-then, if◌then◌else◌,
}
use recon_ledger.Models.Db.{Finding}
use recon_ledger.Collectors.Technology.{Detection, same_key, add_id, merge, merge_fired}
use recon_ledger.Collectors.Technology.Rules.{
  Rules, Strings, applied, ns_rules, mx_rules, sample_rules, rules_from_nameservers, rules_from_mx,
  rules_from_archived_sample, take_finding, take_findings,
}

-- `id` is the identifier of one of the findings.
abbrev pub IsOneOf : List Finding → ℕ → Type 0
IsOneOf fs id = any (λ f. f.id == id) fs ≡ true

abbrev pub IsSupported : List Finding → Detection → Type 0
IsSupported fs d = (1 ≤ length d.supporting_ids) × All (IsOneOf fs) d.supporting_ids

abbrev pub AreDistinct : List Detection → Type 0
AreDistinct [] = Unit
AreDistinct (d ∷ ds) = All (λ e. same_key d e ≡ false) ds × AreDistinct ds

-- Each detection has its evidence, and no two have the same rule and technology.
abbrev pub AreSound : List Finding → List Detection → Type 0
AreSound fs ds = All (IsSupported fs) ds × AreDistinct ds

same_key_comm : (d e : Detection) → same_key d e ≡ same_key e d
unfolding same_key
same_key_comm d e =
    ground (arith, text_eq_comm d.rule_id e.rule_id, text_eq_comm d.technology e.technology)

module _ (fs : List Finding) (source : Finding) (h : IsOneOf fs source.id) where
  add_id-IsOneOf :
      (ids : List ℕ)
      → (1 ≤ length ids) × All (IsOneOf fs) ids
      → (1 ≤ length (add_id source.id ids)) × All (IsOneOf fs) (add_id source.id ids)
  unfolding add_id
  add_id-IsOneOf ids k = elim (Bool-cases (any (λ j. j == source.id) ids)) [
    | inl g ↦ rw g k
    | inr g ↦ rw g (omega arith, (h, k.1))
  ]

  merge-IsSupported :
      (d : Detection) (ds : List Detection)
      → All (IsSupported fs) ds
      → All (IsSupported fs) (merge ds d source)
  unfolding merge
  merge-IsSupported d [] k = ((omega arith, (h, tt)), tt)
  merge-IsSupported d (e ∷ es) k = elim (Bool-cases (same_key d e)) [
    | inl g ↦ rw g (add_id-IsOneOf e.supporting_ids k.0, k.1)
    | inr g ↦ rw g (k.0, merge-IsSupported d es k.1)
  ]

  merge_other :
      (x d : Detection) (ds : List Detection)
      → same_key x d ≡ false
      → All (λ e. same_key x e ≡ false) ds
      → All (λ e. same_key x e ≡ false) (merge ds d source)
  unfolding merge same_key
  merge_other x d [] n k = (n, tt)
  merge_other x d (e ∷ es) n k = elim (Bool-cases (same_key d e)) [
    | inl g ↦ rw g (k.0, k.1)
    | inr g ↦ rw g (k.0, merge_other x d es n k.1)
  ]

  merge-AreDistinct :
      (d : Detection) (ds : List Detection) → AreDistinct ds → AreDistinct (merge ds d source)
  unfolding merge same_key
  merge-AreDistinct d [] k = (tt, tt)
  merge-AreDistinct d (e ∷ es) k = elim (Bool-cases (same_key d e)) [
    | inl g ↦ rw g (k.0, k.1)
    | inr g ↦ rw g (merge_other e d es (same_key_comm e d ∙ g) k.0, merge-AreDistinct d es k.1)
  ]

  if_fired :
      (b : Bool) (d : Detection) (ds : List Detection)
      → AreSound fs ds
      → AreSound fs (if b then merge ds d source else ds)
  if_fired true d ds k = (merge-IsSupported d ds k.0, merge-AreDistinct d ds k.1)
  if_fired false d ds k = k

  merge_fired-AreSound :
      (rules : List (Bool × Detection)) (ds : List Detection)
      → AreSound fs ds
      → AreSound fs (merge_fired source rules ds)
  unfolding merge_fired
  merge_fired-AreSound [] ds k = k
  merge_fired-AreSound ((b, d) ∷ rules) ds k = merge_fired-AreSound rules _ (if_fired b d ds k)

  applied-AreSound :
      (rules : Option Rules) (ds : List Detection)
      → AreSound fs ds
      → IfAny (AreSound fs) (applied source ds rules)
  applied-AreSound none ds k = tt
  applied-AreSound (some rules) ds k = merge_fired-AreSound rules ds k

  take_finding-AreSound :
      (p : Strings) (ds : List Detection)
      → AreSound fs ds
      → IfAny (AreSound fs) (take_finding p source ds)
  unfolding take_finding rules_from_nameservers rules_from_mx rules_from_archived_sample
  take_finding-AreSound p ds k =
      let P = AreSound fs in
      let is_sample =
        text_eq source.kind (codes "wayback.sample")
        || text_eq source.kind (codes "commoncrawl.sample") in
      let sample = rules_from_archived_sample p source ds in
      let mx = rules_from_mx p source ds in
      let later = if is_sample then sample else some ds in
      let later_sound =
        IfAny-if P is_sample sample (some ds) (applied-AreSound (sample_rules p source) ds k) k in
      IfAny-if P (text_eq source.kind (codes "dns.ns")) (rules_from_nameservers p source ds)
        (if text_eq source.kind (codes "dns.mx") then mx else later)
        (applied-AreSound (ns_rules p source) ds k)
        (IfAny-if P (text_eq source.kind (codes "dns.mx")) mx later
          (applied-AreSound (mx_rules p source) ds k) later_sound)

take_findings-AreSound_of :
    (fs gs : List Finding) (p : Strings) (ds : List Detection)
    → All (λ g. IsOneOf fs g.id) gs
    → AreSound fs ds
    → IfAny (AreSound fs) (take_findings p gs ds)
unfolding take_findings
take_findings-AreSound_of fs [] p ds h k = k
take_findings-AreSound_of fs (g ∷ gs) p ds h k =
    IfAny-then (AreSound fs) (AreSound fs) (take_finding p g ds) (take_findings p gs)
      (take_finding-AreSound fs g h.0 p ds k) (λ es. take_findings-AreSound_of fs gs p es h.1)

All-IsOneOf : (fs : List Finding) → All (λ f. IsOneOf fs f.id) fs
unfolding any
All-IsOneOf [] = tt
All-IsOneOf (f ∷ fs) = (ground arith, All-imp (λ g h. ground arith) fs (All-IsOneOf fs))

-- Whatever the job's evidence is, each inference drawn from it has at least one supporting finding, all
-- of its supporting findings are among those that were read, and no two inferences have the same rule and
-- technology.
pub take_findings-AreSound :
    (p : Strings) (fs : List Finding) → IfAny (AreSound fs) (take_findings p fs [])
take_findings-AreSound p fs = take_findings-AreSound_of fs fs p [] (All-IsOneOf fs) (tt, tt)

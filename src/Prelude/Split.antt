-- ===== src/Prelude/Split.antt =====
-- Texts taken apart at a separator, and put together.
use Prim.Native.Nat.{ℕ, zero, suc, ◌-◌}
use mathlib.Core.Option.{Option, none, some}
use mathlib.Core.List.{List, [], ◌∷◌, ◌++◌}
use recon_ledger.Prelude.Tests.{if◌then◌else◌}
use recon_ledger.Prelude.Lists.{length}
use recon_ledger.Prelude.Texts.{Text, starts_with}

abbrev onto_first : ℕ → List Text → List Text
onto_first c [] = (c ∷ []) ∷ []
onto_first c (s ∷ ss) = (c ∷ s) ∷ ss

-- The pieces between the separators; the number says how much of one is still to be passed over.
unfoldable pub split_from : Text → ℕ → Text → List Text
unfolding starts_with
split_from sep n [] = [] ∷ []
split_from sep (suc n) (c ∷ s) = split_from sep n s
split_from sep zero (c ∷ s) =
    let hit = starts_with (c ∷ s) sep in
    let rest = split_from sep (if hit then length sep - 1 else 0) s in
    if hit then [] ∷ rest else onto_first c rest

-- `text.split(sep)`
unfoldable pub split : Text → Text → List Text
unfolding split_from
split sep s = split_from sep 0 s

abbrev pub drop {ℓ} : {A : Type ℓ} → ℕ → List A → List A
drop zero xs = xs
drop (suc n) [] = []
drop (suc n) (x ∷ xs) = drop n xs

abbrev onto_left : ℕ → Option (Text × Text) → Option (Text × Text)
onto_left c none = none
onto_left c (some (a, b)) = some (c ∷ a, b)

-- `text.partition(sep)`, and `none` where the separator is missing
unfoldable pub partition : Text → Text → Option (Text × Text)
unfolding starts_with
partition sep [] = none
partition sep (c ∷ s) =
    let rest = partition sep s in
    if starts_with (c ∷ s) sep then some ([], drop (length sep) (c ∷ s)) else onto_left c rest

-- `sep.join(texts)`
abbrev pub join : Text → List Text → Text
join sep [] = []
join sep (s ∷ []) = s
join sep (s ∷ t ∷ ts) = s ++ sep ++ join sep (t ∷ ts)

-- ===== src/Prelude/Sets.antt =====
-- Sets of texts as lists, and texts in order.
use mathlib.Core.Path.{◌≡◌, refl}
use mathlib.Core.Bool.{false}
use mathlib.Core.List.{List, [], ◌∷◌, ◌++◌}
use mathlib.Core.Logic.{inl, inr}
use native.Mathlib.Omega.{arith}
use recon_ledger.Prelude.Tests.{if◌then◌else◌, Bool-cases}
use recon_ledger.Prelude.Lists.{All, All-imp}
use recon_ledger.Prelude.Texts.{Text, text_lt, mem_text, text_lt_irrefl, text_lt_trans}

-- `s.add(text)`
unfoldable pub add_text : Text → List Text → List Text
unfolding mem_text
add_text t s = if mem_text t s then s else s ++ t ∷ []

unfoldable pub insert_by {ℓ} : {A : Type ℓ} → (A → Text) → A → List A → List A
unfolding text_lt
insert_by key x [] = x ∷ []
insert_by key x (y ∷ ys) =
    let rest = insert_by key x ys in if text_lt (key y) (key x) then y ∷ rest else x ∷ y ∷ ys

-- `sorted(xs, key=key)`
unfoldable pub sort_by {ℓ} : {A : Type ℓ} → (A → Text) → List A → List A
unfolding insert_by
sort_by key [] = []
sort_by key (x ∷ xs) = insert_by key x (sort_by key xs)

-- `sorted(texts)`
unfoldable pub sort_texts : List Text → List Text
unfolding sort_by
sort_texts = sort_by (λ t. t)

-- No key comes after a later one.
abbrev pub IsSortedBy {ℓ} : {A : Type ℓ} → (A → Text) → List A → Type 0
IsSortedBy key [] = Unit
IsSortedBy key (x ∷ xs) = All (λ y. text_lt (key y) (key x) ≡ false) xs × IsSortedBy key xs

pub not_after : (r s t : Text) → text_lt s r ≡ false → text_lt t s ≡ false → text_lt t r ≡ false
unfolding text_lt
not_after [] s t h k = refl
not_after (c ∷ r) [] t h k = absurd (ground arith)
not_after (c ∷ r) (d ∷ s) [] h k = absurd (ground arith)
not_after (c ∷ r) (d ∷ s) (e ∷ t) h k = ground (arith, not_after r s t)

module _ {ℓ} {A : Type ℓ} (key : A → Text) where
  pub All-insert_by {κ} :
      (P : A → Type κ) (x : A) (ys : List A) → P x → All P ys → All P (insert_by key x ys)
  unfolding insert_by
  All-insert_by P x [] p h = (p, tt)
  All-insert_by P x (y ∷ ys) p h = elim (Bool-cases (text_lt (key y) (key x))) [
    | inl g ↦ rw g (h.0, All-insert_by P x ys p h.1)
    | inr g ↦ rw g (p, h)
  ]

  pub All-sort_by {κ} : (P : A → Type κ) (xs : List A) → All P xs → All P (sort_by key xs)
  unfolding sort_by
  All-sort_by P [] h = tt
  All-sort_by P (x ∷ xs) h = All-insert_by P x (sort_by key xs) h.0 (All-sort_by P xs h.1)

  insert_by-IsSortedBy :
      (x : A) (ys : List A) → IsSortedBy key ys → IsSortedBy key (insert_by key x ys)
  unfolding insert_by
  insert_by-IsSortedBy x [] h = (tt, tt)
  insert_by-IsSortedBy x (y ∷ ys) h = elim (Bool-cases (text_lt (key y) (key x))) [
    | inl g ↦ rw g (
      All-insert_by (λ z. text_lt (key z) (key y) ≡ false) x ys
          (ground (arith, text_lt_trans (key y) (key x) (key y), text_lt_irrefl (key y))) h.0,
      insert_by-IsSortedBy x ys h.1,
    )
    | inr g ↦ rw g ((g, All-imp (λ z k. not_after (key x) (key y) (key z) g k) ys h.0), h)
  ]

  pub sort_by-IsSortedBy : (xs : List A) → IsSortedBy key (sort_by key xs)
  unfolding sort_by
  sort_by-IsSortedBy [] = tt
  sort_by-IsSortedBy (x ∷ xs) = insert_by-IsSortedBy x (sort_by key xs) (sort_by-IsSortedBy xs)

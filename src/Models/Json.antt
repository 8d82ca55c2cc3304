-- ===== src/Models/Json.antt =====
-- The values of the JSON columns (`dict[str, Any]` in backend/app/models/db.py), with the `==` that
-- Python has on them. Numbers are the integers that `json` reads; fractions are left out, since no
-- code of the program computes with one.
use recon_ledger.Prelude.{
  ℕ, zero, suc, Bool, true, false, ◌&&◌, Option, none, some, ◌==◌, Text, text_eq, [], if◌then◌else◌,
}

-- `negsuc n` is -(n + 1).
pub data ℤ : Type 0 where
  pos : ℕ → ℤ
  negsuc : ℕ → ℤ

abbrev pub int_eq : ℤ → ℤ → Bool
int_eq (pos m) (pos n) = m == n
int_eq (negsuc m) (negsuc n) = m == n
int_eq _ _ = false

-- In Python `True == 1` and `False == 0`.
abbrev pub of_bool : Bool → ℤ
of_bool true = pos 1
of_bool false = pos 0

mutual
  pub data Json : Type 0 where
    null : Json
    bool : Bool → Json
    num : ℤ → Json
    str : Text → Json
    arr : Items → Json
    obj : Fields → Json

  pub data Items : Type 0 where
    nil : Items
    cons : Json → Items → Items

  pub data Fields : Type 0 where
    end : Fields
    field : Text → Json → Fields → Fields

-- `d.get(key)`
unfoldable pub get_field : Text → Fields → Option Json
unfolding text_eq
get_field k end = none
get_field k (field j v fs) = let rest = get_field k fs in if text_eq k j then some v else rest

-- `len(d)`
unfoldable pub count_fields : Fields → ℕ
count_fields end = 0
count_fields (field j v fs) = suc (count_fields fs)

-- `a == b`: dictionaries are equal if they have as many keys, and each key of the one has an equal
-- value in the other.
unfoldable mutual
  unfolding get_field count_fields text_eq

  pub json_eq : Json → Json → Bool
  json_eq null null = true
  json_eq (bool a) (bool b) = int_eq (of_bool a) (of_bool b)
  json_eq (bool a) (num n) = int_eq (of_bool a) n
  json_eq (num m) (bool b) = int_eq m (of_bool b)
  json_eq (num m) (num n) = int_eq m n
  json_eq (str s) (str t) = text_eq s t
  json_eq (arr xs) (arr ys) = items_eq xs ys
  json_eq (obj fs) (obj gs) = count_fields fs == count_fields gs && fields_in fs gs
  json_eq _ _ = false

  pub items_eq : Items → Items → Bool
  items_eq nil nil = true
  items_eq (cons x xs) (cons y ys) = json_eq x y && items_eq xs ys
  items_eq _ _ = false

  pub fields_in : Fields → Fields → Bool
  fields_in end gs = true
  fields_in (field k v fs) gs =
      elim (get_field k gs) [ none ↦ false | some w ↦ json_eq v w ] && fields_in fs gs

-- `bool(value)` in a condition: None, False, 0, "", [] and {} are false.
abbrev pub truthy : Json → Bool
truthy null = false
truthy (bool b) = b
truthy (num (pos zero)) = false
truthy (str []) = false
truthy (arr nil) = false
truthy (obj end) = false
truthy _ = true

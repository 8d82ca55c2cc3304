-- ===== src/Security/Seeding/Answers.antt =====
-- Which addresses a reply of DNS over HTTPS lists, and that the loop over its answers keeps each.
use recon_ledger.Prelude.{
  Bool, true, false, ◌||◌, Option, none, some, List, [], any, ◌≡◌, refl, arith, Text, codes,
  if◌then◌else◌,
}
use recon_ledger.Models.Json.{
  Json, null, bool, num, str, arr, obj, Items, nil, cons, Fields, get_field, truthy,
}
use recon_ledger.Security.Network.{Address, address_eq}
use recon_ledger.Security.Gateway
use recon_ledger.Security.Seeding.{
  Resolving, Seeding, done, raised, other_error, with_address, address_in, and_address,
  addresses_in, answers_of, read_reply,
}

-- The address is the `data` of one of the answers in a reply's JSON.
abbrev is_data : Option Address → Address → Bool
is_data none a = false
is_data (some b) a = address_eq a b

abbrev is_answered : (Json → Option Address) → Option Json → Address → Bool
is_answered ip none a = false
is_answered ip (some v) a = is_data (ip v) a

abbrev is_among : (Json → Option Address) → Items → Address → Bool
is_among ip nil a = false
is_among ip (cons (obj answer) rest) a =
    is_answered ip (get_field (codes "data") answer) a || is_among ip rest a
is_among ip (cons _ rest) a = is_among ip rest a

abbrev is_in_answers : (Json → Option Address) → Option Json → Address → Bool
is_in_answers ip (some (arr answers)) a = is_among ip answers a
is_in_answers ip _ a = false

abbrev pub is_listed : (Json → Option Address) → Option Json → Address → Bool
is_listed ip (some (obj fs)) a = is_in_answers ip (get_field (codes "Answer") fs) a
is_listed ip _ a = false

module _ (net : Gateway.Network) (r : Resolving) where
  -- each address that is listed has been found
  abbrev pub Finds : (Address → Bool) → Seeding (List Address) → Type 0
  Finds listed (done found) = (a : Address) → listed a ≡ true → any (address_eq a) found ≡ true
  Finds listed (raised e) = Unit

  with_address-any :
      (o : Option Address) (rest : List Address) (a : Address)
      → any (address_eq a) (with_address net r o rest) ≡ (is_data o a || any (address_eq a) rest)
  unfolding any
  with_address-any none rest a = refl
  with_address-any (some b) rest a = refl

  address_in-is_answered :
      (o : Option Json) (a : Address)
      → is_data (elim o [ none ↦ none | some v ↦ r.ip_address v ]) a ≡ is_answered r.ip_address o a
  address_in-is_answered none a = refl
  address_in-is_answered (some v) a = refl

  and_address-Finds :
      (answer : Fields) (items : Items) (x : Seeding (List Address))
      → Finds (is_among r.ip_address items) x
      → Finds
          (is_among r.ip_address (cons (obj answer) items))
          (and_address net r (address_in net r answer) x)
  and_address-Finds answer items (done found) h = λ a k.
      let old : is_among r.ip_address items a ≡ true → any (address_eq a) found ≡ true = h a in
      ground (
        arith,
        with_address-any (address_in net r answer) found a,
        address_in-is_answered (get_field (codes "data") answer) a,
        old,
        k,
      )
  and_address-Finds answer items (raised e) h = tt

  addresses_in-Finds :
      (items : Items) → Finds (is_among r.ip_address items) (addresses_in net r items)
  unfolding addresses_in
  addresses_in-Finds nil = λ a k. absurd (cc)
  addresses_in-Finds (cons (obj answer) rest) =
      and_address-Finds answer rest (addresses_in net r rest) (addresses_in-Finds rest)
  addresses_in-Finds (cons _ rest) = tt

  Finds-if :
      (listed : Address → Bool) (b : Bool) (x y : Seeding (List Address))
      → Finds listed x
      → Finds listed y
      → Finds listed (if b then x else y)
  Finds-if listed true x y h k = h
  Finds-if listed false x y h k = k

  nothing_listed :
      (v : Json) → Finds (λ a. false) (if truthy v then raised other_error else done [])
  nothing_listed v = Finds-if (λ a. false) (truthy v) _ _ tt (λ a k. absurd (cc))

  answers_of-Finds : (o : Option Json) → Finds (is_in_answers r.ip_address o) (answers_of net r o)
  answers_of-Finds none = λ a k. absurd (cc)
  answers_of-Finds (some (arr items)) = addresses_in-Finds items
  answers_of-Finds (some null) = nothing_listed null
  answers_of-Finds (some (bool b)) = nothing_listed (bool b)
  answers_of-Finds (some (num n)) = nothing_listed (num n)
  answers_of-Finds (some (str t)) = nothing_listed (str t)
  answers_of-Finds (some (obj fs)) = nothing_listed (obj fs)

  pub read_reply-Finds :
      (detail : Text) (o : Option Json)
      → Finds (is_listed r.ip_address o) (read_reply net r detail o)
  read_reply-Finds detail none = tt
  read_reply-Finds detail (some (obj fs)) = answers_of-Finds (get_field (codes "Answer") fs)
  read_reply-Finds detail (some null) = tt
  read_reply-Finds detail (some (bool b)) = tt
  read_reply-Finds detail (some (num n)) = tt
  read_reply-Finds detail (some (str t)) = tt
  read_reply-Finds detail (some (arr items)) = tt

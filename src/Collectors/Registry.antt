-- ===== src/Collectors/Registry.antt =====
-- backend/app/collectors/registry.py: the collectors by name, in the order of registration.
use recon_ledger.Prelude.{
  Bool, ◌&&◌, not, Option, none, some, List, [], ◌∷◌, ◌++◌, Text, text_eq, filter, find, any,
  if◌then◌else◌,
}
use recon_ledger.Models.Enums.{TargetType, same_target_type}
use recon_ledger.Collectors.Contract.{CollectorMetadata}

abbrev pub CollectorRegistry : Type 0
CollectorRegistry = List CollectorMetadata

pub data RegistryError : Type 0 where
  refuses_test_only already_registered : Text → RegistryError

pub data Registered : Type 0 where
  ok : CollectorRegistry → Registered
  err : RegistryError → Registered

-- `registry.get(name)`, with `none` for the KeyError
unfoldable pub get : CollectorRegistry → Text → Option CollectorMetadata
get r name = find (λ c. text_eq c.name name) r

unfoldable pub register : CollectorRegistry → CollectorMetadata → Bool → Registered
unfolding get
register r c allow_test_only =
    if c.test_only && not allow_test_only
    then err (refuses_test_only c.name)
    else elim (get r c.name) [ some _ ↦ err (already_registered c.name) | none ↦ ok (r ++ c ∷ []) ]

-- `target_type in metadata.supported_targets`
unfoldable pub supports : CollectorMetadata → TargetType → Bool
unfolding any
supports c t = any (same_target_type t) c.supported_targets

unfoldable pub for_target_type : CollectorRegistry → TargetType → List CollectorMetadata
for_target_type r t = filter (λ c. supports c t) r

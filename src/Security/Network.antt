-- ===== src/Security/Network.antt =====
-- backend/app/security/network.py: which addresses no request may go to. `str` of an address is
-- injective, so sets of its texts are lists of addresses. The classes of addresses (`is_loopback`
-- and so on) depend on the version of Python, and are an argument.
use recon_ledger.Prelude.{
  ℕ, ◌-◌, ◌/◌, ◌^◌, Bool, true, false, ◌||◌, Option, none, some, List, [], ◌∷◌, ◌++◌, any, ◌==◌,
  if◌then◌else◌, Text, codes,
}

pub data Address : Type 0 where
  v4 v6 : ℕ → Address

-- The first address, and the length of the prefix.
pub data Network : Type 0 where
  net4 net6 : ℕ → ℕ → Network

abbrev pub address_eq : Address → Address → Bool
address_eq (v4 a) (v4 b) = a == b
address_eq (v6 a) (v6 b) = a == b
address_eq _ _ = false

-- `address.version == network.version and address in network`
abbrev pub in_network : Address → Network → Bool
in_network (v4 a) (net4 b p) = a / 2 ^ (32 - p) == b / 2 ^ (32 - p)
in_network (v6 a) (net6 b p) = a / 2 ^ (128 - p) == b / 2 ^ (128 - p)
in_network _ _ = false

-- The properties of `ipaddress` that the policy asks for.
pub record AddressClasses : Type 0 where
  pub is_unspecified : Address → Bool
  pub is_loopback : Address → Bool
  pub is_link_local : Address → Bool
  pub is_multicast : Address → Bool
  pub is_private : Address → Bool
  pub is_reserved : Address → Bool

-- 169.254.169.254 and fd00:ec2::254
abbrev pub metadata_addresses : List Address
metadata_addresses = v4 0xa9fe_a9fe ∷ v6 0xfd00_0ec2_0000_0000_0000_0000_0000_0254 ∷ []

unfoldable pub is_metadata : Address → Bool
unfolding any
is_metadata a = any (address_eq a) metadata_addresses

module _ (classes : AddressClasses) where
  unfoldable pub is_forbidden_address : Address → Option Text
  unfolding is_metadata
  is_forbidden_address a =
      if is_metadata a
      then some (codes "cloud metadata address")
      else if classes.is_unspecified a
      then some (codes "unspecified address")
      else if classes.is_loopback a
      then some (codes "loopback address")
      else if classes.is_link_local a
      then some (codes "link-local address")
      else if classes.is_multicast a
      then some (codes "multicast address")
      else if classes.is_private a
      then some (codes "private address")
      else if classes.is_reserved a
      then some (codes "reserved address")
      else none

pub record TargetDenyList : Type 0 where
  pub seeded : Bool
  pub addresses : List Address
  pub networks : List Network

abbrev pub empty_deny_list : TargetDenyList
empty_deny_list = record { seeded = false; addresses = []; networks = [] }

unfoldable pub seed : List Address → TargetDenyList → TargetDenyList
seed new d = record d { addresses = d.addresses ++ new; seeded = true }

unfoldable pub seed_networks : List Network → TargetDenyList → TargetDenyList
seed_networks ns d = record d { networks = d.networks ++ ns; seeded = true }

unfoldable pub add : List Address → TargetDenyList → TargetDenyList
add new d = record d { addresses = d.addresses ++ new }

unfoldable pub contains : TargetDenyList → Address → Bool
unfolding any
contains d a = any (address_eq a) d.addresses || any (in_network a) d.networks

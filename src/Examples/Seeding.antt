-- ===== src/Examples/Seeding.antt =====
-- A deny-list that is seeded for a name, which DNS over HTTPS resolves to one address.
use recon_ledger.Prelude.{true, [], none, some, ◌≡◌, refl, codes}
use recon_ledger.Models.Enums.{TargetType}
use recon_ledger.Models.Json.{str, arr, obj, nil, cons, end, field}
use recon_ledger.Security.Network.{v4, empty_deny_list, contains}
use recon_ledger.Security.RateLimit
use recon_ledger.Security.Gateway.{Network, State, response, bytes}
use recon_ledger.Security.Seeding.{Resolving, seed_deny_list_for_target}
use recon_ledger.Security.Seeding.Covered.{IsSettled, seed_deny_list_for_target-IsSettled}
use recon_ledger.Examples.Gateway.{net, start, call}

-- Every request is answered.
abbrev answering : Network
answering = record net {
  host_of = λ url. codes "dns.google";
  deliver = λ n p. response (record {
    status = 200;
    content_length = bytes 100;
    size = 100;
    location = [];
    retry_after = RateLimit.absent;
  });
}

abbrev resolving : Resolving
resolving = record {
  ip_address = λ v. some (v4 0x0102_0304);
  ip_network = λ t. none;
  loads = λ n r. some (
      obj (
        field (codes "Answer")
          (arr (cons (obj (field (codes "data") (str (codes "1.2.3.4")) end)) nil)) end));
  loads_error = λ n r. [];
  url_for = λ host record_type. codes "https://dns.google/resolve";
  call = call;
}

abbrev unseeded : State
unseeded = record start { deny_list = empty_deny_list }

now_contained :
    contains
      (seed_deny_list_for_target answering resolving TargetType.domain
        (codes "example.com")
        unseeded).1.deny_list
      (v4 0x0102_0304)
    ≡ true
unfolding seed_deny_list_for_target contains
now_contained = refl

seed_deny_list_for_target-IsSettled_example :
    IsSettled answering resolving TargetType.domain (codes "example.com") unseeded (
      seed_deny_list_for_target answering resolving TargetType.domain
        (codes "example.com")
        unseeded)
seed_deny_list_for_target-IsSettled_example =
    seed_deny_list_for_target-IsSettled answering resolving TargetType.domain (codes "example.com")
      unseeded refl

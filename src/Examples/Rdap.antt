-- ===== src/Examples/Rdap.antt =====
-- A registry that the bootstrap file lists.
use recon_ledger.Prelude.{true, some, List, [], ◌∷◌, codes}
use recon_ledger.Models.Enums.{TargetType}
use recon_ledger.Models.Json.{str, nil, cons}
use recon_ledger.Security.Errors.{Formatting}
use recon_ledger.Collectors.Rdap.{Service, Reading}
use recon_ledger.Collectors.Rdap.Run.{base_urls_of, request_to_registry}
use recon_ledger.Collectors.Rdap.Approved.{IfDone, IsApproved, request_to_registry-IsApproved}
use recon_ledger.Examples.Collectors.{surroundings, first_session}

-- every URL is at one host
abbrev reading : Reading
reading = record {
  host_of = λ url. some (codes "rdap.example");
  is_covered = λ cidr. true;
  is_version_4 = true;
}

abbrev formatting : Formatting
formatting = record { repr = λ t. t; decimal = λ n. [] }

abbrev services : List Service
services = (cons (str (codes "com")) nil, cons (str (codes "https://rdap.example")) nil) ∷ []

request_to_registry-IsApproved_example :
    IfDone
      (IsApproved surroundings reading formatting TargetType.ip services (codes "ip/1.2.3.4"))
      (request_to_registry surroundings reading formatting services
        (codes "ip/1.2.3.4")
        (base_urls_of surroundings reading formatting TargetType.ip services)
        first_session).0
request_to_registry-IsApproved_example =
    request_to_registry-IsApproved surroundings reading formatting services (codes "ip/1.2.3.4")
      TargetType.ip first_session

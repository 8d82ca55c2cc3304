-- ===== src/Examples/Gateway.antt =====
-- The gateway and the classification of targets, on concrete inputs.
use recon_ledger.Prelude.{
  ℕ, zero, suc, ◌*◌, ◌≤◌, ◌<◌, true, false, none, some, [], ◌∷◌, length, ◌≡◌, refl, arith, Text,
  codes, text_eq,
}
use recon_ledger.Models.Enums.{TargetType}
use recon_ledger.Security.Network.{
  Address, v4, v6, AddressClasses, TargetDenyList, address_eq, in_network,
}
use recon_ledger.Security.Network
use recon_ledger.Security.RateLimit.{default_policy}
use recon_ledger.Security.RateLimit
use recon_ledger.Security.Gateway.{
  Network, State, Call, Response, PinnedRequest, Reply, response, transport_failure, bytes, get, ok,
}
use recon_ledger.Security.Gateway.Safety.{IsSafe, get-IsSafe}
use recon_ledger.Security.Gateway.Hosts.{AllPermitted, get-AllPermitted}
use recon_ledger.Security.Gateway.Bounds.{get-length, WaitsBelow, get-WaitsBelow}
use recon_ledger.Security.Gateway.Results.{IsFinal, get-IsFinal}
use recon_ledger.Security.Targets.{Unicode, Classified, classify_target}
use recon_ledger.Security.Targets
use recon_ledger.Security.Targets.Validity.{IsValid, classify_target-IsValid}

-- 127.0.0.1 is the loopback address.
abbrev pub classes : AddressClasses
classes = record {
  is_unspecified = λ a. false;
  is_loopback = λ a. address_eq a (v4 0x7f00_0001);
  is_link_local = λ a. false;
  is_multicast = λ a. false;
  is_private = λ a. false;
  is_reserved = λ a. false;
}

abbrev crt_sh : Text
crt_sh = codes "crt.sh"

abbrev url : Text
url = codes "https://crt.sh/?q=example.com"

abbrev answer_of : ℕ → ℕ → Response
answer_of status size = record {
  status = status;
  content_length = bytes size;
  size = size;
  location = codes "/next";
  retry_after = RateLimit.absent;
}

-- The first request fails, the second is redirected, the third answered.
abbrev deliver : ℕ → PinnedRequest → Reply
deliver zero p = transport_failure
deliver (suc zero) p = response (answer_of 302 0)
deliver (suc (suc n)) p = response (answer_of 200 1000)

abbrev pub net : Network
net = record {
  classes = classes;
  resolve = λ n host. some (v4 0x5b_c716_22 ∷ []);
  deliver = deliver;
  host_of = λ u. crt_sh;
  is_https = λ u. true;
  join = λ u l. u;
  show_address = λ a. codes "91.199.22.34";
  monotonic = λ n. n * 10;
  random = λ n. 500_000;
}

-- the assessed network 203.0.113.0/24
abbrev deny : TargetDenyList
deny = record { seeded = true; addresses = []; networks = Network.net4 0xcb00_7100 24 ∷ [] }

abbrev pub start : State
start = record {
  deny_list = deny;
  bootstrapping = false;
  sent = [];
  sleeps = [];
  resolutions = 0;
  readings = 0;
}

abbrev pub call : Call
call = record {
  max_bytes = 5000;
  policy = default_policy;
  allowed_hosts = crt_sh ∷ [];
  allow_redirect_to = some (λ host. text_eq host crt_sh);
  max_redirects = 1;
  start = 0;
}

-- Three requests are sent, after one wait.
three_requests : length (get net call url start).1.sent ≡ 3
unfolding get
three_requests = refl

answered : (get net call url start).0 ≡ ok (answer_of 200 1000)
unfolding get
answered = refl

get-IsSafe_example : IsSafe net deny (get net call url start).1
get-IsSafe_example = get-IsSafe net deny call url start (refl, tt)

get-AllPermitted_example : AllPermitted net call (get net call url start).1
get-AllPermitted_example = get-AllPermitted net call url start tt

get-length_example : length (get net call url start).1.sent ≤ 6
get-length_example = get-length net call url start

below : (i : ℕ) → net.random i < 1_000_000
below i = omega arith

get-WaitsBelow_example : WaitsBelow net 90_000 (get net call url start).1
get-WaitsBelow_example = get-WaitsBelow net call url start below tt

get-IsFinal_example : IsFinal 5000 (get net call url start).0
get-IsFinal_example = get-IsFinal net call url start

-- an environment that reads one address and one network
abbrev pub unicode : Unicode
unicode = record {
  classes = classes;
  strip = λ s. s;
  words = λ s. s ∷ [];
  lower = λ s. s;
  idna = λ s. some s;
  ip_address = λ s. none;
  ip_network = λ s. none;
  show_address = λ a. [];
  show_network = λ n. [];
}

example_com :
    classify_target unicode false (codes "example.com")
    ≡ Targets.target TargetType.domain (codes "example.com") (codes "example.com")
unfolding classify_target
example_com = refl

classify_target-IsValid_example :
    IsValid unicode (classify_target unicode false (codes "example.com"))
classify_target-IsValid_example = classify_target-IsValid unicode (codes "example.com")

-- ===== src/Auth/Tests.antt =====
-- Runs of the checks, and the theorems at concrete lists and certificates.
use ghostunnel.Prelude.{
  ◌≡◌, refl, ◌≢◌, ◌↔◌, ◌⊎◌, true, List, [], ◌∷◌, ◌++◌, Text, codes, text_eq, ok, err, panic, split,
}
use ghostunnel.Regexp.Parse
use ghostunnel.Wildcard.Compile.{
  Matcher, compile_with_separator, compile, compile_list, compile_list_from, write_segment,
  write_segments,
}
use ghostunnel.Auth.Ip.{Ip, ip_equal, v4_in_v6_prefix}
use ghostunnel.Auth.Acl.{
  Acl, Certificate, unauthorized, contains, intersects, intersects_ip, intersects_uri, is_empty,
  check_cert, verify_peer_certificate_server, verify_peer_certificate_client,
}
use ghostunnel.Auth.Verify.{IsListed, HasLeaf, verify_peer_certificate_server_iff}
use ghostunnel.Auth.Uris.{uri_acl}

runs : Unit {0}
unfolding verify_peer_certificate_server verify_peer_certificate_client check_cert contains
    intersects intersects_ip intersects_uri is_empty ip_equal text_eq
runs = tt

-- URLs as their texts.
abbrev same : Text → Text
same u = u

abbrev nobody : Acl
nobody = uri_acl []

abbrev localhost : Ip
localhost = 127 ∷ 0 ∷ 0 ∷ 1 ∷ []

abbrev acl : Acl
acl = record nobody { allowed_ous = codes "unit" ∷ []; allowed_ips = localhost ∷ [] }

abbrev cert : Certificate Text
cert = record {
  common_name = codes "gopher";
  organizational_unit = codes "triangle" ∷ codes "unit" ∷ [];
  dns_names = [];
  ip_addresses = [];
  uris = codes "scheme://valid/path" ∷ [];
}

abbrev by_ip : Certificate Text
by_ip = record cert { organizational_unit = []; ip_addresses = (v4_in_v6_prefix ++ localhost) ∷ [] }

abbrev chains : List (List (Certificate Text))
chains = (cert ∷ []) ∷ []

by_ou_run : verify_peer_certificate_server same acl chains ≡ ok tt
unfolding runs
by_ou_run = refl

by_ip_run : verify_peer_certificate_server same acl ((by_ip ∷ []) ∷ []) ≡ ok tt
unfolding runs
by_ip_run = refl

closed_run : verify_peer_certificate_server same nobody chains ≡ err unauthorized
unfolding runs
closed_run = refl

open_run : verify_peer_certificate_client same nobody chains ≡ ok tt
unfolding runs
open_run = refl

verify_peer_certificate_server_iff_example :
    (verify_peer_certificate_server same acl chains ≡ ok tt)
    ↔ ((chains ≢ []) × ((acl.allow_all ≡ true) ⊎ HasLeaf same chains (IsListed same acl)))
verify_peer_certificate_server_iff_example = verify_peer_certificate_server_iff same acl chains

abbrev patterns : List Text
patterns = codes "scheme://valid/*" ∷ []

abbrev matchers : List Matcher
matchers = elim (compile_list patterns) [ ok ms ↦ ms | err e ↦ [] | panic ↦ [] ]

compiles : compile_list patterns ≡ ok matchers
unfolding compile_list compile_list_from compile compile_with_separator write_segments write_segment
    split text_eq Parse.compile Parse.quote_meta
compiles = refl

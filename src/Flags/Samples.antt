-- ===== src/Flags/Samples.antt =====
-- Flags of a server and of a client that pass validation.
use ghostunnel.Prelude.{true, false, none, some, [], ◌∷◌, codes}
use ghostunnel.Flags.Validate.{pos, CommonFlags, ServerFlags, ClientFlags}

abbrev pub common : CommonFlags
common = record {
  keystore_path = [];
  keystore_pass = [];
  ca_bundle_path = [];
  enabled_cipher_suites = codes "AES";
  keychain_identity = some (codes "me");
  pkcs11_module = none;
  pkcs11_token_label = [];
  pkcs11_pin = [];
  timed_reload = pos 1;
  shutdown_timeout = pos 5;
  timeout_duration = pos 10;
  metrics_url = [];
  status_address = [];
  enable_prof = false;
  syslog_flag = false;
  fd_limit = 0;
}

abbrev pub server : ServerFlags
server = record {
  common = common;
  listen_address = codes ":443";
  forward_address = codes "unix:/s";
  proxy_protocol = true;
  unsafe_target = false;
  allow_all = false;
  allowed_cns = codes "cn" ∷ [];
  allowed_ous = [];
  allowed_dnss = [];
  allowed_ips = [];
  allowed_uris = [];
  disable_auth = false;
}

abbrev pub client : ClientFlags
client = record {
  common = record common { keychain_identity = none };
  listen_address = codes "unix:/c";
  forward_address = codes "unix:/s";
  unsafe_listen = false;
  server_name = [];
  connect_proxy = none;
  allowed_cns = [];
  allowed_ous = [];
  allowed_dnss = [];
  allowed_ips = [];
  allowed_uris = [];
  disable_auth = true;
}

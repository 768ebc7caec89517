-- ===== src/Cert/Examples.antt =====
-- Witnesses and tests of the certificates and of the TLS settings.
use ppanel_node.Base.{ℕ, String, some, List, [], ◌∷◌, Bool, true, false, ◌≡◌, ◌≢◌, refl, nat_beq}
use ppanel_node.Base.Int.{pos}
use ppanel_node.Base.Eq.{string_eq}
use ppanel_node.Base.Map.{lookup}
use ppanel_node.Panel.Protocol.{Protocol, NodeInfo}
use ppanel_node.Cert.Store.{Files, Writing, write_file_atomically, public_mode}
use ppanel_node.Cert.Store.Laws.{
  IsAllOrNothing, HasPair, AreFresh, write_file_atomically-IsAllOrNothing,
}
use ppanel_node.Cert.Usable.{Leaf, Pki, server_auth}
use ppanel_node.Cert.Request.{
  Issuer, Target, certificate_paths, target_of, request_cert, renew_cert, renewed,
}
use ppanel_node.Cert.Request.Laws.{request_cert-HasPair}
use ppanel_node.Cert.Request.Renewing.{IsRenewal, renew_cert-IsRenewal}
use ppanel_node.Cert.Dns.{Env, Client, set_provider}
use ppanel_node.Cert.Dns.Laws.{set_provider_restores}
use ppanel_node.Inbound.{apply_tls_settings, should_configure_tls}
use ppanel_node.Inbound.Laws.{apply_tls_settings_elsewhere}

abbrev protocol : Protocol
protocol = record {
  kind = "tuic";
  port = pos 443;
  enable = true;
  security = "tls";
  sni = "example.org";
  reality_server_port = pos 0;
  reality_private_key = "";
  reality_short_id = "";
  transport = "tcp";
  cipher = "";
  server_key = "";
  flow = "";
  encryption = "";
  encryption_mode = "";
  encryption_ticket = "";
  encryption_private_key = "";
  cert_mode = " self ";
}

abbrev info : NodeInfo
info = record {
  id = pos 7;
  kind = "tuic";
  push_interval = pos 60;
  pull_interval = pos 60;
  traffic_report_threshold = pos 0;
  protocol = protocol;
}

abbrev leaf : Leaf
leaf = record {
  is_ca = false;
  ext_key_usage = server_auth ∷ [];
  not_before = 100;
  not_after = 2000;
  uses_p256 = true;
}

-- A certificate and its key belong together if they start alike.
abbrev same_start : List ℕ → List ℕ → Bool
same_start [] key = false
same_start (a ∷ cert) [] = false
same_start (a ∷ cert) (b ∷ key) = nat_beq a b

abbrev pki : Pki
pki = record {
  matches = same_start;
  chain = λ pem. pem ∷ [];
  parse_certificate = λ der. some leaf;
  verify_hostname = λ l name. true;
}

abbrev writing : String → Writing
writing name = record {
  mkdir_fails = false;
  create_fails = false;
  chmod_fails = false;
  write_fails = false;
  written = [];
  sync_fails = false;
  close_fails = false;
  rename_fails = false;
  temporary = name;
}

abbrev issuer : Issuer
issuer = record {
  pki = pki;
  now = 1000;
  client = true;
  obtain = λ domain. some (5 ∷ 1 ∷ [], 5 ∷ 2 ∷ []);
  renew = λ domain cert key. some (6 ∷ 1 ∷ [], 6 ∷ 2 ∷ []);
  is_ip = λ domain. false;
  add_years = λ now years. now;
  self_sign = λ template. some (9 ∷ 1 ∷ [], 9 ∷ 2 ∷ []);
  key_writing = writing "a";
  cert_writing = writing "b";
  chmod_fails = false;
}

abbrev target : Target
target = record {
  cert_path = "/etc/ppanel-node/tuic7.cer";
  key_path = "/etc/ppanel-node/tuic7.key";
  sni = "example.org";
  cert_mode = " self ";
}

target_of_info : target_of info ≡ target
unfolding certificate_paths
target_of_info = refl

-- A key that does not belong to the certificate.
abbrev files : Files
files =
    ("/etc/ppanel-node/tuic7.cer", record { contents = 5 ∷ []; mode = 420 })
    ∷ ("/etc/ppanel-node/tuic7.key", record { contents = 4 ∷ []; mode = 420 })
    ∷ []

files-AreFresh :
    AreFresh issuer.key_writing issuer.cert_writing files target.cert_path target.key_path
unfolding lookup
files-AreFresh = record {
  first_is_new = refl;
  second_is_new = refl;
  first_is_no_key = refl;
  second_is_no_key = refl;
  paths_differ = refl;
  differ_paths = refl;
}

write_file_atomically-IsAllOrNothing_example :
    IsAllOrNothing files "/x"
      (record { contents = 1 ∷ []; mode = public_mode })
      (write_file_atomically (writing "a") files "/x" (1 ∷ []) public_mode)
write_file_atomically-IsAllOrNothing_example =
    write_file_atomically-IsAllOrNothing (writing "a") files "/x" files-AreFresh.first_is_new
      (1 ∷ []) public_mode

request_cert-HasPair_example :
    HasPair pki.matches (request_cert issuer target files).0 target.cert_path target.key_path
unfolding request_cert lookup
request_cert-HasPair_example = request_cert-HasPair issuer target files files-AreFresh refl refl

renew_cert-IsRenewal_example : IsRenewal issuer target files (renew_cert issuer target files)
renew_cert-IsRenewal_example = renew_cert-IsRenewal issuer target files files-AreFresh

-- The pair that does not belong together is replaced.
renew_cert_replaces : (renew_cert issuer target files).1 ≡ renewed
unfolding renew_cert lookup
renew_cert_replaces = refl

abbrev client : Client
client = record {
  accepts = λ name value. true;
  set_http = true;
  new_provider = λ name env. true;
  set_dns = true;
}

abbrev env : Env
env = ("TOKEN", "old") ∷ ("HOME", "/root") ∷ []

set_provider_restores_example :
    lookup "TOKEN" (set_provider client env "dns" "cf" "TOKEN=new\nZONE=z").0 ≡ lookup "TOKEN" env
set_provider_restores_example =
    set_provider_restores client env "cf" "dns" "TOKEN=new\nZONE=z" "TOKEN"

apply_tls_settings_elsewhere_example :
    ((apply_tls_settings info).cert_file ≢ (certificate_paths info).0)
    × ((apply_tls_settings info).key_file ≢ (certificate_paths info).1)
apply_tls_settings_elsewhere_example = apply_tls_settings_elsewhere info

tls_configured : should_configure_tls info ≡ true
unfolding should_configure_tls
tls_configured = refl

-- ===== src/Cert/Request.antt =====
-- node/cert.go and node/lego.go: how a node comes to its certificate, and renews it. What the ACME client
-- and the generation of keys give is the parameter `Issuer`.
pub mod Laws
pub mod Renewing
use ppanel_node.Base.{
  ℕ, String, Option, none, some, List, [], ◌∷◌, Bool, true, false, if◌then◌else◌, ◌||◌, ◌+◌, ◌-◌,
  ◌*◌, ltb,
}
use ppanel_node.Base.Eq.{◌==◌, string_eq}
use ppanel_node.Base.Map.{lookup}
use ppanel_node.Base.Text.{trim_space, itoa}
use ppanel_node.Panel.Protocol.{NodeInfo}
use ppanel_node.Cert.Store.{
  File, Files, CertError, Writing, write_certificate_pair, secure_private_key_file, no_domain,
  sign_failed, client_failed, obtain_failed, renew_failed, unreadable, unsupported_mode,
}
use ppanel_node.Cert.Usable.{Leaf, Pki, Loaded, usable, unusable, load_usable_certificate}
use Prim.Native.String.{◌++◌}

-- `certificatePaths`: the certificate and the key.
unfoldable pub certificate_paths : NodeInfo → String × String
unfolding itoa
certificate_paths info =
    let base = "/etc/ppanel-node/" ++ (info.kind ++ itoa info.id) in
    (base ++ ".cer", base ++ ".key")

-- A certificate and its key in PEM.
abbrev pub Pair : Type 0
Pair = List ℕ × List ℕ

-- The certificate that `generateSelfSslCertificate` asks for.
pub record Template : Type 0 where
  pub common_name : String
  pub ip_addresses : List String
  pub dns_names : List String
  pub not_before : ℕ
  pub not_after : ℕ

-- `client` tells whether `NewLego` succeeds; `now` is the time, `add_years` is `AddDate`. Reading a file
-- that is there succeeds.
pub record Issuer : Type 0 where
  pub pki : Pki
  pub now : ℕ
  pub client : Bool
  pub obtain : String → Option Pair
  pub renew : String → List ℕ → List ℕ → Option Pair
  pub is_ip : String → Bool
  pub add_years : ℕ → ℕ → ℕ
  pub self_sign : Template → Option Pair
  pub key_writing : Writing
  pub cert_writing : Writing
  pub chmod_fails : Bool

-- What a request or a renewal is about: two paths, the domain, and the mode.
pub record Target : Type 0 where
  pub cert_path : String
  pub key_path : String
  pub sni : String
  pub cert_mode : String

abbrev pub target_of : NodeInfo → Target
unfolding certificate_paths
target_of info = record {
  cert_path = (certificate_paths info).0;
  key_path = (certificate_paths info).1;
  sni = info.protocol.sni;
  cert_mode = info.protocol.cert_mode;
}

abbrev pub write_pair : Issuer → Target → Files → Pair → Files × Option CertError
write_pair i t fs (cert, key) =
    write_certificate_pair i.pki.matches i.key_writing i.cert_writing fs t.cert_path t.key_path cert
      key

abbrev pub write_some : Issuer → Target → Files → CertError → Option Pair → Files × Option CertError
write_some i t fs e none = (fs, some e)
write_some i t fs e (some pair) = write_pair i t fs pair

abbrev pub load : Issuer → Target → Files → Loaded
load i t fs = load_usable_certificate i.pki i.now fs t.cert_path t.key_path t.sni

abbrev pub secure : Issuer → Target → Files → Files × Option CertError
secure i t fs = secure_private_key_file i.chmod_fails fs t.key_path

-- The domain of a template goes to its addresses if it is one, else to its names.
abbrev template : Issuer → String → Template
template i domain = record {
  common_name = domain;
  ip_addresses = if i.is_ip domain then domain ∷ [] else [];
  dns_names = if i.is_ip domain then [] else domain ∷ [];
  not_before = i.now - 300;
  not_after = i.add_years i.now 30;
}

-- `generateSelfSslCertificate`
unfoldable pub generate_self_ssl_certificate : Issuer → Target → Files → Files × Option CertError
unfolding trim_space write_certificate_pair
generate_self_ssl_certificate i t fs =
    if trim_space t.sni == ""
    then (fs, some no_domain)
    else write_some i t fs sign_failed (i.self_sign (template i (trim_space t.sni)))

-- `CreateCert`, and with the client that it needs.
unfoldable pub create_cert : Issuer → Target → Files → Files × Option CertError
unfolding write_certificate_pair
create_cert i t fs = write_some i t fs obtain_failed (i.obtain t.sni)

unfoldable pub create_with_client : Issuer → Target → Files → Files × Option CertError
unfolding create_cert
create_with_client i t fs = if i.client then create_cert i t fs else (fs, some client_failed)

abbrev pub file_mode : Files → Loaded → Files × Option CertError → Files × Option CertError
file_mode fs (usable leaf) kept = kept
file_mode fs (unusable e) kept = (fs, some e)

-- A usable certificate with a P-256 key is kept.
abbrev pub keep_or :
    Loaded → Files × Option CertError → Files × Option CertError → Files × Option CertError
keep_or (usable leaf) kept replaced = if leaf.uses_p256 then kept else replaced
keep_or (unusable e) kept replaced = replaced

-- `requestCert`
unfoldable pub request_cert : Issuer → Target → Files → Files × Option CertError
unfolding trim_space load_usable_certificate secure_private_key_file create_with_client
    generate_self_ssl_certificate
request_cert i t fs =
    let mode = trim_space t.cert_mode in
    if mode == "none" || mode == ""
    then (fs, none)
    else if mode == "file"
    then file_mode fs (load i t fs) (secure i t fs)
    else if mode == "dns" || mode == "http"
    then keep_or (load i t fs) (secure i t fs) (create_with_client i t fs)
    else if mode == "self"
    then keep_or (load i t fs) (secure i t fs) (generate_self_ssl_certificate i t fs)
    else (fs, some unsupported_mode)

-- What `RenewCert` returns.
pub data Renewal : Type 0 where
  renewed kept_as_is : Renewal
  not_renewed : CertError → Renewal

abbrev pub as_renewal : Files × Option CertError → Files × Renewal
as_renewal (fs, none) = (fs, renewed)
as_renewal (fs, some e) = (fs, not_renewed e)

abbrev pub renew_read : Issuer → Target → Files → Option File → Option File → Files × Renewal
renew_read i t fs (some cert) (some key) =
    as_renewal (write_some i t fs renew_failed (i.renew t.sni cert.contents key.contents))
renew_read i t fs none key = (fs, not_renewed unreadable)
renew_read i t fs (some cert) none = (fs, not_renewed unreadable)

-- Thirty days in seconds.
abbrev pub renewal_window : ℕ
renewal_window = 30 * 86400

abbrev pub renew_secured : Issuer → Target → Leaf → Files × Option CertError → Files × Renewal
renew_secured i t leaf (fs, some e) = (fs, not_renewed e)
renew_secured i t leaf (fs, none) =
    if ltb (i.now + renewal_window) leaf.not_after
    then (fs, kept_as_is)
    else renew_read i t fs (lookup t.cert_path fs) (lookup t.key_path fs)

abbrev pub renew_loaded : Issuer → Target → Files → Loaded → Files × Renewal
renew_loaded i t fs (unusable e) = as_renewal (create_cert i t fs)
renew_loaded i t fs (usable leaf) =
    if leaf.uses_p256
    then renew_secured i t leaf (secure i t fs)
    else as_renewal (create_cert i t fs)

-- `RenewCert`
unfoldable pub renew_cert : Issuer → Target → Files → Files × Renewal
unfolding load_usable_certificate secure_private_key_file create_cert write_certificate_pair
renew_cert i t fs = renew_loaded i t fs (load i t fs)

-- `renewCertTask`: it asks for a reload exactly after a renewal, and never fails.
unfoldable pub renew_cert_task : Issuer → Target → Files → Files × Bool
unfolding renew_cert
renew_cert_task i t fs = if i.client then wants_reload (renew_cert i t fs) else (fs, false)
  where
    wants_reload : Files × Renewal → Files × Bool
    wants_reload (fs', renewed) = (fs', true)
    wants_reload (fs', kept_as_is) = (fs', false)
    wants_reload (fs', not_renewed e) = (fs', false)

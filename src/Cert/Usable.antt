-- ===== src/Cert/Usable.antt =====
-- node/cert.go: `loadUsableCertificate` and what it asks of a certificate.
pub mod Laws
use ppanel_node.Base.{
  ℕ, String, Option, none, some, List, [], ◌∷◌, Bool, true, false, if◌then◌else◌, not, ◌||◌, ◌≡◌,
  refl, ltb, Bool-cases, inl, inr,
}
use ppanel_node.Base.Eq.{◌==◌, string_eq}
use ppanel_node.Base.Text.{trim_space}
use ppanel_node.Base.Map.{lookup}
use ppanel_node.Cert.Store.{
  File, Files, CertError, unreadable, bad_pair, empty_chain, bad_leaf, leaf_is_ca, not_for_servers,
  not_yet_valid, has_expired, wrong_name,
}

pub data Usage : Type 0 where
  server_auth any_usage other_usage : Usage

-- What the code reads of an `x509.Certificate`; times are in seconds.
pub record Leaf : Type 0 where
  pub is_ca : Bool
  pub ext_key_usage : List Usage
  pub not_before : ℕ
  pub not_after : ℕ
  pub uses_p256 : Bool

-- Go's tls and x509: `matches` is `tls.X509KeyPair`, which `tls.LoadX509KeyPair` applies to two files;
-- `chain` gives the certificates of a PEM file.
pub record Pki : Type 0 where
  pub matches : List ℕ → List ℕ → Bool
  pub chain : List ℕ → List (List ℕ)
  pub parse_certificate : List ℕ → Option Leaf
  pub verify_hostname : Leaf → String → Bool

pub data Loaded : Type 0 where
  usable : Leaf → Loaded
  unusable : CertError → Loaded

abbrev is_server : Usage → Bool
is_server server_auth = true
is_server any_usage = true
is_server other_usage = false

unfoldable pub has_server : List Usage → Bool
has_server [] = false
has_server (u ∷ us) = is_server u || has_server us

-- No usages at all means any.
abbrev pub serves : List Usage → Bool
serves [] = true
serves (u ∷ us) = has_server (u ∷ us)

abbrev pub names : Pki → Leaf → String → Bool
names p leaf name = if name == "" then true else p.verify_hostname leaf name

-- The checks in their order, each with what it asks.
abbrev pub checked : Bool → Bool → Bool → Bool → Bool → Leaf → Loaded
checked is_ca for_servers is_early is_current is_named leaf =
    if is_ca
    then unusable leaf_is_ca
    else if not for_servers
    then unusable not_for_servers
    else if is_early
    then unusable not_yet_valid
    else if not is_current
    then unusable has_expired
    else if is_named
    then usable leaf
    else unusable wrong_name

abbrev pub check_leaf : Pki → ℕ → String → Leaf → Loaded
check_leaf p now name leaf =
    checked leaf.is_ca (serves leaf.ext_key_usage) (ltb now leaf.not_before)
      (ltb now leaf.not_after) (names p leaf (trim_space name)) leaf

abbrev pub parsed : Pki → ℕ → String → Option Leaf → Loaded
parsed p now name none = unusable bad_leaf
parsed p now name (some leaf) = check_leaf p now name leaf

abbrev pub first_of_chain : Pki → ℕ → String → List (List ℕ) → Loaded
first_of_chain p now name [] = unusable empty_chain
first_of_chain p now name (der ∷ chain) = parsed p now name (p.parse_certificate der)

abbrev pub load_pair : Pki → ℕ → String → Option File → Option File → Loaded
load_pair p now name none key = unusable unreadable
load_pair p now name (some cert) none = unusable unreadable
load_pair p now name (some cert) (some key) =
    if p.matches cert.contents key.contents
    then first_of_chain p now name (p.chain cert.contents)
    else unusable bad_pair

-- `loadUsableCertificate`
unfoldable pub load_usable_certificate : Pki → ℕ → Files → String → String → String → Loaded
unfolding trim_space has_server
load_usable_certificate p now fs cert_path key_path name =
    load_pair p now name (lookup cert_path fs) (lookup key_path fs)

-- What a certificate needs that is found usable: it serves, for the name that is asked for if there is
-- one, at the time.
pub record Serves (p : Pki) (now : ℕ) (name : String) (leaf : Leaf) : Type 0 where
  pub no_ca : leaf.is_ca ≡ false
  pub for_servers : serves leaf.ext_key_usage ≡ true
  pub has_begun : ltb now leaf.not_before ≡ false
  pub is_current : ltb now leaf.not_after ≡ true
  pub is_named : names p leaf (trim_space name) ≡ true

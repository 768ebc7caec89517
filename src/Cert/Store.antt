-- ===== src/Cert/Store.antt =====
-- node/cert.go: writing files. Any call of the file system may fail.
pub mod Laws
use ppanel_node.Base.{ℕ, String, Option, none, some, List, [], Bool, true, false, if◌then◌else◌}
use ppanel_node.Base.Eq.{string_eq}
use ppanel_node.Base.Map.{Map, lookup, insert, delete}

pub record File : Type 0 where
  pub contents : List ℕ
  pub mode : ℕ

abbrev pub Files : Type 0
Files = Map String File

pub data CertError : Type 0 where
  mkdir_failed create_failed chmod_failed write_failed sync_failed close_failed rename_failed :
      CertError
  unreadable bad_pair empty_chain bad_leaf leaf_is_ca not_for_servers not_yet_valid has_expired :
      CertError
  wrong_name insecure_key no_domain sign_failed client_failed obtain_failed renew_failed : CertError
  unsupported_mode : CertError

-- Which calls of one `writeFileAtomically` fail, how much of a failing write is on disk, and the name
-- that `CreateTemp` makes up.
pub record Writing : Type 0 where
  pub mkdir_fails : Bool
  pub create_fails : Bool
  pub chmod_fails : Bool
  pub write_fails : Bool
  pub written : List ℕ
  pub sync_fails : Bool
  pub close_fails : Bool
  pub rename_fails : Bool
  pub temporary : String

-- 0600 and 0644
abbrev pub private_mode : ℕ
private_mode = 384

abbrev pub public_mode : ℕ
public_mode = 420

-- The temporary file as it is left, and the error that leaves it so.
unfoldable pub write_temporary : Writing → List ℕ → ℕ → File × Option CertError
write_temporary x bytes mode =
    if x.chmod_fails
    then (record { contents = []; mode = private_mode }, some chmod_failed)
    else if x.write_fails
    then (record { contents = x.written; mode = mode }, some write_failed)
    else if x.sync_fails
    then (record { contents = bytes; mode = mode }, some sync_failed)
    else if x.close_fails
    then (record { contents = bytes; mode = mode }, some close_failed)
    else (record { contents = bytes; mode = mode }, none)

abbrev pub move_in : Writing → Files → String → File × Option CertError → Files × Option CertError
move_in x fs path (f, some e) = (insert x.temporary f fs, some e)
move_in x fs path (f, none) =
    if x.rename_fails
    then (insert x.temporary f fs, some rename_failed)
    else (insert path f (delete x.temporary (insert x.temporary f fs)), none)

-- The deferred removal of the temporary file, which is taken to succeed.
abbrev pub clean_up : Writing → Files × Option CertError → Files × Option CertError
clean_up x (fs, none) = (fs, none)
clean_up x (fs, some e) = (delete x.temporary fs, some e)

-- `writeFileAtomically`
unfoldable pub write_file_atomically :
    Writing → Files → String → List ℕ → ℕ → Files × Option CertError
unfolding write_temporary
write_file_atomically x fs path bytes mode =
    if x.mkdir_fails
    then (fs, some mkdir_failed)
    else if x.create_fails
    then (fs, some create_failed)
    else clean_up x (move_in x fs path (write_temporary x bytes mode))

abbrev pub then_certificate :
    Writing → String → List ℕ → Files × Option CertError → Files × Option CertError
then_certificate y cert_path cert (fs, some e) = (fs, some e)
then_certificate y cert_path cert (fs, none) = write_file_atomically y fs cert_path cert public_mode

-- `writeCertificatePair`: `matches` is `tls.X509KeyPair`. The key is written first.
unfoldable pub write_certificate_pair :
    (List ℕ → List ℕ → Bool)
    → Writing
    → Writing
    → Files
    → String
    → String
    → List ℕ
    → List ℕ
    → Files × Option CertError
unfolding write_file_atomically
write_certificate_pair matches x y fs cert_path key_path cert key =
    if matches cert key
    then then_certificate y cert_path cert (write_file_atomically x fs key_path key private_mode)
    else (fs, some bad_pair)

abbrev pub chmod_found : Files → String → Option File → Files × Option CertError
chmod_found fs path none = (fs, some insecure_key)
chmod_found fs path (some f) = (insert path (record f { mode = private_mode }) fs, none)

-- `securePrivateKeyFile`
unfoldable pub secure_private_key_file : Bool → Files → String → Files × Option CertError
secure_private_key_file chmod_fails fs path =
    if chmod_fails then (fs, some insecure_key) else chmod_found fs path (lookup path fs)

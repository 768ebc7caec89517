-- ===== src/SelfUpdate/Release.antt =====
-- internal/selfupdate/apply.go: fetching a release, and the binary in its archive. The web, the decoder
-- of releases, SHA-256 and the archive format are the parameter `Sources`.
pub mod Laws
use ppanel_node.Base.{
  ℕ, String, Option, none, some, List, [], ◌∷◌, Bool, true, false, if◌then◌else◌, nat_beq, ◌≡◌,
}
use ppanel_node.Base.Eq.{◌==◌, string_eq}
use ppanel_node.SelfUpdate.Version.{parse_sha256}
use Prim.Native.String.{◌++◌}

pub record Asset : Type 0 where
  pub name : String
  pub url : String

pub record Release : Type 0 where
  pub tag_name : String
  pub assets : List Asset

-- A member of an archive, with its contents if it can be read.
abbrev pub Member : Type 0
Member = String × Option (List ℕ)

-- `get` is none for any error and any status but 200. `sha256_hex` is the digest in hexadecimal.
-- `base` is `filepath.Base`.
pub record Sources : Type 0 where
  pub get : String → Option (List ℕ)
  pub decode_release : List ℕ → Option Release
  pub sha256_hex : List ℕ → List ℕ
  pub read_zip : List ℕ → Option (List Member)
  pub base : String → String

pub data UpdateError : Type 0 where
  fetch_failed no_release no_asset no_digest_file digest_unreadable digest_mismatch : UpdateError
  bad_archive no_binary unknown_platform no_executable : UpdateError
  create_failed write_failed sync_failed close_failed chmod_failed : UpdateError
  not_runnable wrong_version install_failed restart_failed : UpdateError

pub data Outcome {ℓ} (A : Type ℓ) : Type ℓ where
  ok : A → Outcome A
  err : UpdateError → Outcome A

infixl 5 ◌>>=◌
abbrev pub ◌>>=◌ {ℓ κ} : {A : Type ℓ} {B : Type κ} → Outcome A → (A → Outcome B) → Outcome B
ok a >>= f = f a
err e >>= f = err e

abbrev pub or_err {ℓ} : {A : Type ℓ} → Option A → UpdateError → Outcome A
or_err none e = err e
or_err (some a) e = ok a

abbrev pub guard : Bool → UpdateError → Outcome (Unit {0})
guard true e = ok tt
guard false e = err e

abbrev release_url : String → String → String
release_url repo tag =
    let base = "https://api.github.com/repos/" ++ repo in
    if tag == "" then base ++ "/releases/latest" else base ++ ("/releases/tags/" ++ tag)

abbrev is_named : Release → Bool
is_named r = if r.tag_name == "" then false else true

unfoldable pub fetch_release : Sources → String → String → Outcome Release
fetch_release w repo tag = do
  body ← or_err (w.get (release_url repo tag)) fetch_failed
  r ← or_err (w.decode_release body) no_release
  guard (is_named r) no_release >>= λ u. ok r

-- The loop over the assets: the URLs of the archive and of its digest, the last of each name.
unfoldable pub find_urls : String → List Asset → String × String → String × String
find_urls asset [] urls = urls
find_urls asset (a ∷ as_) (zip_url, dgst_url) = find_urls asset as_ (
    if a.name == asset
    then (a.url, dgst_url)
    else if a.name == asset ++ ".dgst"
    then (zip_url, a.url)
    else (zip_url, dgst_url))

abbrev check_urls : String × String → Outcome (String × String)
check_urls (zip_url, dgst_url) =
    if zip_url == ""
    then err no_asset
    else if dgst_url == ""
    then err no_digest_file
    else ok (zip_url, dgst_url)

unfoldable pub asset_urls : Release → String → Outcome (String × String)
unfolding find_urls
asset_urls r asset = check_urls (find_urls asset r.assets ("", ""))

-- `got != want` on texts
unfoldable pub same_codes : List ℕ → List ℕ → Bool
same_codes [] [] = true
same_codes [] (y ∷ ys) = false
same_codes (x ∷ xs) [] = false
same_codes (x ∷ xs) (y ∷ ys) = let rest = same_codes xs ys in if nat_beq x y then rest else false

-- The first member called ppnode.
unfoldable pub find_member : Sources → List Member → Outcome (List ℕ)
find_member w [] = err no_binary
find_member w ((name, contents) ∷ members) =
    let rest = find_member w members in
    if w.base name == "ppnode" then or_err contents bad_archive else rest

unfoldable pub download_binary : Sources → String → String → Outcome (List ℕ)
unfolding parse_sha256 same_codes find_member
download_binary w zip_url dgst_url = do
  dgst ← or_err (w.get dgst_url) fetch_failed
  want ← or_err (parse_sha256 dgst) digest_unreadable
  archive ← or_err (w.get zip_url) fetch_failed
  checked ← guard (same_codes (w.sha256_hex archive) want) digest_mismatch
  members ← or_err (w.read_zip archive) bad_archive
  find_member w members

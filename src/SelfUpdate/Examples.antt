-- ===== src/SelfUpdate/Examples.antt =====
-- An update of a node at version v1.1.9 that is asked for v1.1.10.
use ppanel_node.Base.{
  ℕ, ◌≡◌, ◌<◌, ◌≤◌, ◌+◌, String, Option, none, some, List, [], ◌∷◌, ◌++◌, true, false, refl,
  replicate,
}
use ppanel_node.Base.Eq.{◌==◌, string_eq}
use ppanel_node.Base.Map.{lookup, insert, delete}
use ppanel_node.Base.Text.{codes, contains, has_prefix, strip_prefix, trim_space}
use ppanel_node.SelfUpdate.Version.{
  asset_name, is_newer, parse_version, number, version_lt, parse_sha256, resolve_repo,
}
use ppanel_node.SelfUpdate.Release.{
  Release, Sources, ok, ◌>>=◌, fetch_release, asset_urls, find_urls, download_binary, same_codes,
  find_member,
}
use ppanel_node.SelfUpdate.Replace.{
  File, Files, System, replace_verified, verify_binary, write_temporary, swap_in, rename,
}
use ppanel_node.SelfUpdate.Replace.Laws.{AreFresh}
use ppanel_node.SelfUpdate.Replace.Failures.{IsUntouched, replace_verified-IsUntouched}
use ppanel_node.SelfUpdate.Apply.{
  Attempts, Machine, minute, max_attempt_backoff, should_attempt, note_failure, fetch_payload,
  apply_target_version,
}
use ppanel_node.SelfUpdate.Apply.Laws.{note_failure-should_attempt}
use ppanel_node.SelfUpdate.Apply.Safety.{IsSwitched, apply_target_version-IsSwitched}

-- By numbers, not by letters.
ten_after_nine : is_newer "v1.1.9" "v1.1.10" ≡ true
unfolding is_newer parse_version number trim_space version_lt
ten_after_nine = refl

abbrev digest : List ℕ
digest = replicate 64 97

digest_line : List ℕ
digest_line = codes "SHA2-256= " ++ (digest ++ (10 ∷ []))

abbrev release : Release
release = record {
  tag_name = "v1.1.10";
  assets =
      record { name = "ppanel-node-linux-64.zip"; url = "zip" }
      ∷ record { name = "ppanel-node-linux-64.zip.dgst"; url = "dgst" }
      ∷ [];
}

get : String → Option (List ℕ)
get url = elim (url == "dgst") [ true ↦ some digest_line | false ↦ some (5 ∷ []) ]

abbrev sources : Sources
sources = record {
  get = get;
  decode_release = λ body. some release;
  sha256_hex = λ archive. digest;
  read_zip = λ archive. some (("ppnode", some (1 ∷ 2 ∷ 3 ∷ [])) ∷ []);
  base = λ name. name;
}

abbrev system : System
system = record {
  create_fails = false;
  write_fails = false;
  written = [];
  sync_fails = false;
  close_fails = false;
  chmod_fails = false;
  backup_fails = false;
  install_fails = false;
  restore_fails = false;
  version_output = λ contents. some "ppnode v1.1.10";
}

abbrev machine : Machine
machine = record {
  table = ("linux-amd64", "linux-64") ∷ [];
  goos = "linux";
  goarch = "amd64";
  executable = some "node";
  temporary = "tmp";
  restart_works = false;
}

abbrev old : File
old = record { contents = 9 ∷ []; executable = true }

abbrev files : Files
files = ("node", old) ∷ []

abbrev attempts : Attempts
attempts = record { target = ""; fails = 0; next = 0 }

payload_fetched :
    (fetch_release sources (resolve_repo "" "") "v1.1.10" >>= λ r. fetch_payload sources machine r)
    ≡ ok ("node", 1 ∷ 2 ∷ 3 ∷ [])
unfolding fetch_release resolve_repo trim_space fetch_payload asset_name lookup asset_urls find_urls
    download_binary parse_sha256 same_codes find_member get digest_line
payload_fetched = refl

abbrev new_files : Files
new_files =
    ("node.bak", old) ∷ ("node", record { contents = 1 ∷ 2 ∷ 3 ∷ []; executable = true }) ∷ []

replaced : replace_verified system files "node" "tmp" (1 ∷ 2 ∷ 3 ∷ []) "v1.1.10" ≡ (new_files, none)
unfolding replace_verified write_temporary verify_binary contains has_prefix strip_prefix swap_in
    rename insert delete lookup
replaced = refl

fresh : AreFresh files "node" "tmp"
unfolding lookup
fresh = record {
  is_new = refl;
  tmp_path = refl;
  path_tmp = refl;
  bak_tmp = refl;
  tmp_bak = refl;
  bak_path = refl;
  path_bak = refl;
}

apply_target_version-IsSwitched_example :
    IsSwitched sources system machine "" "v1.1.10" "node" old
      (apply_target_version sources system machine attempts files 5 "v1.1.9" "v1.1.10" "").1
apply_target_version-IsSwitched_example =
    apply_target_version-IsSwitched sources system machine files "node" "v1.1.10" "" old
      (unfold lookup in refl) refl fresh refl refl attempts 5 "v1.1.9"

abbrev failed_once : Attempts
failed_once = record { target = "v1.1.10"; fails = 1; next = 60000000005 }

note_failure-should_attempt_example :
    (8 < 7 + minute → (should_attempt (note_failure failed_once "v1.1.10" 7) "v1.1.10" 8).1 ≡ false)
    × (7 + max_attempt_backoff ≤ 8
        → (should_attempt (note_failure failed_once "v1.1.10" 7) "v1.1.10" 8).1 ≡ true)
    × ((other : String)
        → (other == "v1.1.10") ≡ false
        → (should_attempt (note_failure failed_once "v1.1.10" 7) other 8).1 ≡ true)
note_failure-should_attempt_example = note_failure-should_attempt failed_once 7 8

-- A binary that states another version is not installed.
replace_verified-IsUntouched_example :
    IsUntouched system
      (1 ∷ [])
      "v2.0.0"
      files
      (replace_verified system files "node" "tmp" (1 ∷ []) "v2.0.0")
unfolding lookup
replace_verified-IsUntouched_example =
    replace_verified-IsUntouched system files "node" "tmp" "v2.0.0" (1 ∷ []) refl

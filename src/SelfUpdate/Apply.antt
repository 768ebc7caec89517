-- ===== src/SelfUpdate/Apply.antt =====
-- internal/selfupdate/apply_target.go: switching to the version that the panel wants, with the back-off
-- after failures; and the command of cmd/upgrade.go. Times are nanoseconds of the clock, 0 is
-- `time.Time{}`.
pub mod Laws
pub mod Safety
use ppanel_node.Base.{
  ℕ, zero, suc, ◌+◌, ◌-◌, ◌*◌, ◌^◌, min, String, Option, none, some, List, [], ◌∷◌, Bool, true,
  false, not, ◌&&◌, ◌||◌, if◌then◌else◌, ltb,
}
use ppanel_node.Base.Eq.{◌==◌, string_eq}
use ppanel_node.Base.Map.{Map}
use ppanel_node.SelfUpdate.Version.{asset_name, is_newer, resolve_repo, should_switch_version}
use ppanel_node.SelfUpdate.Release.{
  Release, Sources, UpdateError, unknown_platform, no_executable, restart_failed, Outcome, ok, err,
  ◌>>=◌, or_err, fetch_release, asset_urls, download_binary,
}
use ppanel_node.SelfUpdate.Replace.{Files, System, replace_verified}

-- The package's variables.
pub record Attempts : Type 0 where
  pub target : String
  pub fails : ℕ
  pub next : ℕ

abbrev pub minute : ℕ
minute = 60000000000

abbrev pub max_attempt_backoff : ℕ
max_attempt_backoff = 30 * minute

unfoldable pub should_attempt : Attempts → String → ℕ → Attempts × Bool
should_attempt a target now =
    if target == a.target
    then (a, not (ltb now a.next))
    else (record { target = target; fails = 0; next = 0 }, true)

-- After the first failure a minute, then twice as long, up to `max_attempt_backoff`.
unfoldable pub backoff : ℕ → ℕ
backoff fails = min (2 ^ min (fails - 1) 5 * minute) max_attempt_backoff

unfoldable pub note_failure : Attempts → String → ℕ → Attempts
unfolding backoff
note_failure a target now =
    if target == a.target
    then record a { fails = a.fails + 1; next = now + backoff (a.fails + 1) }
    else a

-- The machine: its platform, the path of the running binary, and whether a restart works.
pub record Machine : Type 0 where
  pub table : Map String String
  pub goos : String
  pub goarch : String
  pub executable : Option String
  pub temporary : String
  pub restart_works : Bool

abbrev pub arm_suffix : String → String
arm_suffix goarch = if goarch == "arm" then "7" else ""

-- From the release to the payload and the path to put it.
unfoldable pub fetch_payload : Sources → Machine → Release → Outcome (String × List ℕ)
unfolding asset_name asset_urls download_binary
fetch_payload w k r = do
  asset ← or_err (asset_name k.table k.goos k.goarch (arm_suffix k.goarch)) unknown_platform
  urls ← asset_urls r asset
  payload ← download_binary w urls.0 urls.1
  self ← or_err k.executable no_executable
  ok (self, payload)

-- What is on disk afterwards, the error or nil, and whether the error is counted as a failure.
abbrev pub Applied : Type 0
Applied = Files × Option UpdateError × Bool

abbrev restart : Machine → Files → Applied
restart k fs = if k.restart_works then (fs, none, false) else (fs, some restart_failed, false)

abbrev after_replace : Machine → Files × Option UpdateError → Applied
after_replace k (fs, some e) = (fs, some e, true)
after_replace k (fs, none) = restart k fs

abbrev install_payload : System → Machine → Files → String → Outcome (String × List ℕ) → Applied
install_payload y k fs target (err e) = (fs, some e, true)
install_payload y k fs target (ok (self, payload)) =
    after_replace k (replace_verified y fs self k.temporary payload target)

-- One attempt. The target is the tag that is fetched and the version that the binary must state.
unfoldable pub attempt : Sources → System → Machine → Files → String → String → Applied
unfolding fetch_release resolve_repo fetch_payload replace_verified
attempt w y k fs target repo =
    install_payload y k fs target
      (fetch_release w (resolve_repo repo "") target >>= λ r. fetch_payload w k r)

abbrev note : Attempts → String → ℕ → Applied → Attempts × Files × Option UpdateError
note a target now (fs, e, true) = (note_failure a target now, fs, e)
note a target now (fs, e, false) = (a, fs, e)

abbrev when_due :
    Attempts × Bool
    → Attempts × Files × Option UpdateError
    → Files
    → Attempts × Files × Option UpdateError
when_due (a, true) done fs = done
when_due (a, false) done fs = (a, fs, none)

unfoldable pub apply_target_version :
    Sources
    → System
    → Machine
    → Attempts
    → Files
    → ℕ
    → String
    → String
    → String
    → Attempts × Files × Option UpdateError
unfolding should_switch_version should_attempt attempt note_failure
apply_target_version w y k a fs now current target repo =
    let due = should_attempt a target now in
    if should_switch_version current target
    then when_due due (note due.0 target now (attempt w y k fs target repo)) fs
    else (a, fs, none)

-- The command `upgrade`: its flags, and the repository of the configuration, empty if that cannot be
-- read.
pub record UpgradeFlags : Type 0 where
  pub repo : String
  pub config_repo : String
  pub tag : String
  pub check_only : Bool
  pub restart : Bool

abbrev install_upgrade :
    System
    → Machine
    → Files
    → UpgradeFlags
    → Release
    → Outcome (String × List ℕ)
    → Files × Option UpdateError
install_upgrade y k fs flags r (err e) = (fs, some e)
install_upgrade y k fs flags r (ok (self, payload)) =
    let (fs', e, counted) =
      after_replace (record k { restart_works = k.restart_works || not flags.restart })
        (replace_verified y fs self k.temporary payload r.tag_name) in
    (fs', e)

abbrev upgrade_to :
    Sources
    → System
    → Machine
    → Files
    → UpgradeFlags
    → String
    → Outcome Release
    → Files × Option UpdateError
upgrade_to w y k fs flags version (err e) = (fs, some e)
upgrade_to w y k fs flags version (ok r) =
    let installed = install_upgrade y k fs flags r (fetch_payload w k r) in
    if not (is_newer version r.tag_name) && flags.tag == ""
    then (fs, none)
    else if flags.check_only
    then (fs, none)
    else installed

unfoldable pub upgrade :
    Sources → System → Machine → Files → UpgradeFlags → String → Files × Option UpdateError
unfolding fetch_release resolve_repo fetch_payload replace_verified is_newer
upgrade w y k fs flags version =
    upgrade_to w y k fs flags version
      (fetch_release w (resolve_repo flags.repo flags.config_repo) flags.tag)

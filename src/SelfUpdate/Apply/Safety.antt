-- ===== src/SelfUpdate/Apply/Safety.antt =====
-- A switch of versions from end to end.
use Prim.Native.String.{◌++◌}
use ppanel_node.Base.{
  ℕ, String, Option, none, some, List, Bool, true, false, ◌≡◌, ◌⊎◌, refl, sym, ◌∙◌, inl, inr,
  Bool-cases,
}
use ppanel_node.Base.Eq.{string_eq}
use ppanel_node.Base.Map.{lookup}
use ppanel_node.Base.Text.{contains}
use ppanel_node.SelfUpdate.Version.{asset_name, resolve_repo, should_switch_version}
use ppanel_node.SelfUpdate.Release.{
  Release, Sources, UpdateError, unknown_platform, no_executable, Outcome, ok, err, ◌>>=◌, or_err,
  fetch_release, asset_urls, download_binary,
}
use ppanel_node.SelfUpdate.Release.Laws.{
  both_ok, or_err-eq-ok, IsChecked, Offers, asset_urls-Offers, download_binary-IsChecked,
}
use ppanel_node.SelfUpdate.Replace.{File, Files, System, replace_verified}
use ppanel_node.SelfUpdate.Replace.Laws.{AreFresh, IsReplaced, replace_verified-IsReplaced}
use ppanel_node.SelfUpdate.Apply.{
  Attempts, should_attempt, Machine, arm_suffix, fetch_payload, Applied, restart, after_replace,
  install_payload, attempt, note, when_due, apply_target_version,
}

-- The payload comes from the archive that a release has for the machine, and the SHA-256 of the archive
-- is that of the digest file that the release has beside it.
abbrev pub IsOffered : Sources → Machine → Release → List ℕ → Type 0
IsOffered w k r payload =
    (asset : String) × (zip_url : String) × (dgst_url : String) × (asset_name k.table k.goos
        k.goarch (arm_suffix k.goarch)
      ≡ some asset)
    × Offers asset zip_url r.assets
    × Offers (asset ++ ".dgst") dgst_url r.assets
    × IsChecked w zip_url dgst_url payload

-- And the path is that of the running binary.
abbrev pub IsFetched : Sources → Machine → Release → String × List ℕ → Type 0
IsFetched w k r (self, payload) = (k.executable ≡ some self) × IsOffered w k r payload

fetch_payload-IsFetched :
    (w : Sources) (k : Machine) (r : Release) (p : String × List ℕ)
    → fetch_payload w k r ≡ ok p
    → IsFetched w k r p
unfolding fetch_payload
fetch_payload-IsFetched w k r p h =
    let (asset, named, h1) =
      both_ok (or_err (asset_name k.table k.goos k.goarch (arm_suffix k.goarch)) unknown_platform) _
        h in
    let (urls, listed, h2) = both_ok (asset_urls r asset) _ h1 in
    let (payload, d, h3) = both_ok (download_binary w urls.0 urls.1) _ h2 in
    let (self, x, h4) = both_ok (or_err k.executable no_executable) _ h3 in
    let same : (self, payload) ≡ p = cc h4 in
    rw (← same) (
      or_err-eq-ok k.executable no_executable x,
      (
        asset,
        urls.0,
        urls.1,
        or_err-eq-ok (asset_name k.table k.goos k.goarch (arm_suffix k.goarch)) unknown_platform
            named,
        (asset_urls-Offers r asset urls.0 urls.1 listed).0,
        (asset_urls-Offers r asset urls.0 urls.1 listed).1,
        download_binary-IsChecked w urls.0 urls.1 payload d,
      ),
    )

-- At the path is the old binary, or one that the release of the target in the repository offers, which
-- has been run and has printed the target, perhaps among other things.
abbrev pub IsSwitched :
    Sources → System → Machine → String → String → String → File → Files → Type 0
IsSwitched w y k repo target path old fs =
    (lookup path fs ≡ some old)
    ⊎ ((r : Release) × (payload : List ℕ) × (fetch_release w (resolve_repo repo "") target ≡ ok r)
        × IsOffered w k r payload
        × (lookup path fs ≡ some (record { contents = payload; executable = true }))
        × (out : String) × (y.version_output payload ≡ some out)
        × (contains out target ≡ true))

module _ (w : Sources) (y : System) (k : Machine) (fs : Files) (path target repo : String)
    (old : File) (at_path : lookup path fs ≡ some old) (runs_at : k.executable ≡ some path)
    (fresh : AreFresh fs path k.temporary) (backed : y.backup_fails ≡ false)
    (restores : y.restore_fails ≡ false) where
  restart-files : (fs' : Files) → (restart k fs').0 ≡ fs'
  restart-files fs' = elim (Bool-cases k.restart_works) [
    | inl works ↦ rw works refl
    | inr fails ↦ rw fails refl
  ]

  after_replace-IsSwitched :
      (release : Release) (payload : List ℕ) (r : Files × Option UpdateError)
      → fetch_release w (resolve_repo repo "") target ≡ ok release
      → IsOffered w k release payload
      → IsReplaced y path payload target old r
      → IsSwitched w y k repo target path old (after_replace k r).0
  after_replace-IsSwitched release payload (fs', some e) found offered replaced = inl replaced
  after_replace-IsSwitched release payload (fs', none) found offered (there, bak, out, runs, says) =
      rw (restart-files fs') (inr (release, payload, found, offered, there, out, runs, says))

  install_payload-IsSwitched :
      (o : Outcome (String × List ℕ))
      → ((p : String × List ℕ)
          → o ≡ ok p
          → (r : Release) × (fetch_release w (resolve_repo repo "") target ≡ ok r)
            × IsFetched w k r p)
      → IsSwitched w y k repo target path old (install_payload y k fs target o).0
  install_payload-IsSwitched (err e) fetched = inl at_path
  install_payload-IsSwitched (ok (self, payload)) fetched =
      let (r, found, (runs, offered)) = fetched (self, payload) refl in
      let same : path ≡ self = let e : some path ≡ some self = sym runs_at ∙ runs in cc e in
      rw (← same) (
        after_replace-IsSwitched r payload (replace_verified y fs path k.temporary payload target)
          found offered
          (replace_verified-IsReplaced y fs path k.temporary payload target old fresh at_path backed
            restores))

  attempt-IsSwitched : IsSwitched w y k repo target path old (attempt w y k fs target repo).0
  unfolding attempt
  attempt-IsSwitched =
      install_payload-IsSwitched
        (fetch_release w (resolve_repo repo "") target >>= λ r. fetch_payload w k r)
        (λ p h.
          let (r, found, h1) =
            both_ok (fetch_release w (resolve_repo repo "") target) (λ r. fetch_payload w k r) h in
          (r, found, fetch_payload-IsFetched w k r p h1))

  note-files : (a : Attempts) (now : ℕ) (r : Applied) → (note a target now r).1 ≡ r.0
  note-files a now (fs', e, true) = refl
  note-files a now (fs', e, false) = refl

  when_due-IsSwitched :
      (due : Attempts × Bool) (done : Attempts × Files × Option UpdateError)
      → IsSwitched w y k repo target path old done.1
      → IsSwitched w y k repo target path old (when_due due done fs).1
  when_due-IsSwitched (a, true) done h = h
  when_due-IsSwitched (a, false) done h = inl at_path

  -- Whatever the panel asks for and whatever fails on the way, as long as the running binary can be
  -- moved to its backup and back, and the temporary name is new and differs from both names, its path
  -- holds the old binary or a new one. A new one comes from the archive that the release of the target
  -- in the repository offers for the machine, with the SHA-256 of the digest file that the release
  -- offers beside it, and it has been run and its output contains the target version.
  pub apply_target_version-IsSwitched :
      (a : Attempts) (now : ℕ) (current : String)
      → IsSwitched w y k repo target path old
          (apply_target_version w y k a fs now current target repo).1
  unfolding apply_target_version
  apply_target_version-IsSwitched a now current =
      let r = attempt w y k fs target repo in
      let due = should_attempt a target now in
      let done = note due.0 target now r in
      let switched : IsSwitched w y k repo target path old done.1 =
        rw (note-files due.0 now r) attempt-IsSwitched in
      elim (Bool-cases (should_switch_version current target)) [
        | inl switch ↦ rw switch (when_due-IsSwitched due done switched)
        | inr stay ↦ rw stay (inl at_path)
      ]

-- ===== src/SelfUpdate/Replace/Failures.antt =====
-- Failures of a replacement: before the renames they change nothing; in the renames an old backup can
-- take the place of the binary. A longer version passes for the wanted one.
use ppanel_node.Base.{
  ℕ, String, Option, none, some, List, Bool, true, false, if◌then◌else◌, ◌≡◌, ◌⊎◌, refl, ap, inl,
  inr, arith,
}
use ppanel_node.Base.Eq.{string_eq}
use ppanel_node.Base.Map.{lookup, insert, map_laws}
use ppanel_node.Base.Text.{contains, contains-append_self}
use ppanel_node.SelfUpdate.Release.{UpdateError, create_failed, install_failed}
use ppanel_node.SelfUpdate.Replace.{
  File, Files, System, rename, verify_binary, write_temporary, swap_in, after_install,
  when_verified, when_written, clean_up, replace_verified,
}
use ppanel_node.SelfUpdate.Replace.Laws.{AreFresh, delete-insert_new, version_of-none}
use Prim.Native.String.{◌++◌}

-- No call before the renames failed, and the new binary has been run and its output contains the version
-- that is wanted.
abbrev pub HasPassed : System → List ℕ → String → Type 0
HasPassed y payload want =
    (y.create_fails ≡ false)
    × (y.write_fails ≡ false)
    × (y.sync_fails ≡ false)
    × (y.close_fails ≡ false)
    × (y.chmod_fails ≡ false)
    × (out : String) × (y.version_output payload ≡ some out)
    × (contains out want ≡ true)

-- Everything before the renames went well, and there is no error but that of the installation; or there
-- is an error and every file is as it was.
abbrev pub IsUntouched : System → List ℕ → String → Files → Files × Option UpdateError → Type 0
IsUntouched y payload want fs (fs', none) = HasPassed y payload want
IsUntouched y payload want fs (fs', some e) =
    ((e ≡ install_failed) × HasPassed y payload want) ⊎ ((k : String) → lookup k fs' ≡ lookup k fs)

module _ (y : System) (fs : Files) (path tmp want : String) (payload : List ℕ)
    (new : lookup tmp fs ≡ none) where
  abbrev Untouched : Files × Option UpdateError → Type 0
  Untouched = IsUntouched y payload want fs

  after_install-IsUntouched :
      (r : Files × Bool)
      → HasPassed y payload want
      → Untouched (clean_up tmp (after_install y path (path ++ ".bak") r))
  after_install-IsUntouched (fs', true) passed = passed
  after_install-IsUntouched (fs', false) passed = inl (refl, passed)

  -- Every call of `write_temporary` went well if it gives no error.
  written_well :
      (write_temporary y payload).1 ≡ none
      → (y.write_fails ≡ false)
        × (y.sync_fails ≡ false)
        × (y.close_fails ≡ false)
        × (y.chmod_fails ≡ false)
  unfolding write_temporary
  written_well h = (ground arith, ground arith, ground arith, ground arith)

  when_verified-IsUntouched :
      (f : File) (v : Option UpdateError) (done : Files × Option UpdateError)
      → (v ≡ none → Untouched (clean_up tmp done))
      → Untouched (clean_up tmp (when_verified (insert tmp f fs) v done))
  when_verified-IsUntouched f (some e) done h = inr (λ k. delete-insert_new fs tmp k f new)
  when_verified-IsUntouched f none done h = h refl

  when_written-IsUntouched :
      (w : File × Option UpdateError)
      → y.create_fails ≡ false
      → write_temporary y payload ≡ w
      → Untouched (clean_up tmp (when_written y fs path (path ++ ".bak") tmp want payload w))
  unfolding swap_in verify_binary
  when_written-IsUntouched (f, some e) made written = inr (λ k. delete-insert_new fs tmp k f new)
  when_written-IsUntouched (f, none) made written =
      let (a, b, c, d) = written_well (ap (λ (w : File × Option UpdateError). w.1) written) in
      when_verified-IsUntouched f (verify_binary y payload want)
        (swap_in y (insert tmp f fs) path (path ++ ".bak") tmp)
        (λ verified.
          let (out, runs, says) = version_of-none (y.version_output payload) want verified in
          after_install-IsUntouched
            (rename y.install_fails
              (rename y.backup_fails (insert tmp f fs) path (path ++ ".bak")).0 tmp path)
            (made, a, b, c, d, out, runs, says))

  made-IsUntouched :
      (fails : Bool)
      → y.create_fails ≡ fails
      → Untouched (
          if fails
          then (fs, some create_failed)
          else clean_up tmp (
              when_written y fs path (path ++ ".bak") tmp want payload (write_temporary y payload)))
  made-IsUntouched true e = inr (λ k. refl)
  made-IsUntouched false e = when_written-IsUntouched (write_temporary y payload) e refl

  -- If the temporary file cannot be made, written, synced, closed or made executable, or the new binary
  -- does not run or its output does not contain the wanted version, then there is an error, every file
  -- is as it was, and no temporary file is left behind; an error after that is one of the installing
  -- rename. The temporary name is new, and the file can be removed.
  pub replace_verified-IsUntouched :
      IsUntouched y payload want fs (replace_verified y fs path tmp payload want)
  unfolding replace_verified
  replace_verified-IsUntouched = made-IsUntouched y.create_fails refl

module _ (y : System) (fs : Files) (path tmp : String) (stale f : File)
    (fresh : AreFresh fs path tmp) (left : lookup (path ++ ".bak") fs ≡ some stale) where
  -- If the backup and the installation both fail, the restoration puts the backup of an earlier
  -- replacement in the place of the binary, which was still there.
  pub swap_in_stale :
      y.backup_fails ≡ true
      → y.install_fails ≡ true
      → y.restore_fails ≡ false
      → (lookup path (swap_in y (insert tmp f fs) path (path ++ ".bak") tmp).0 ≡ some stale)
        × ((swap_in y (insert tmp f fs) path (path ++ ".bak") tmp).1 ≡ some install_failed)
  unfolding swap_in rename
  swap_in_stale backup install restores =
      let there : lookup (path ++ ".bak") (insert tmp f fs) ≡ some stale =
        simp (map_laws, fresh.tmp_bak, left) in
      rw (backup, install, restores, there) (simp map_laws, refl)

-- A binary that prints a version which begins with the wanted one passes the verification.
pub verify_binary_longer :
    (y : System) (payload : List ℕ) (want more : String)
    → y.version_output payload ≡ some (want ++ more)
    → verify_binary y payload want ≡ none
unfolding verify_binary
verify_binary_longer y payload want more prints = rw (prints, contains-append_self want more) refl

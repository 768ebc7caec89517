-- ===== src/SelfUpdate/Replace/Laws.antt =====
-- What a replacement leaves at the path of the binary, whichever calls fail.
use ppanel_node.Base.{
  ℕ, String, Option, none, some, List, true, false, ◌≡◌, refl, sym, ap, ◌∙◌, inl, inr, arith,
  Bool-cases, Option-cases,
}
use ppanel_node.Base.Eq.{◌==◌, string_eq}
use ppanel_node.Base.Map.{lookup, insert, delete, lookup-insert, lookup-delete, map_laws}
use ppanel_node.Base.Text.{contains}
use ppanel_node.SelfUpdate.Release.{UpdateError, wrong_version, install_failed}
use ppanel_node.SelfUpdate.Replace.{
  File, Files, System, rename, version_of, verify_binary, write_temporary, swap_in, when_written,
  clean_up, replace_verified,
}
use Prim.Native.String.{◌++◌}

-- The names in play differ, and the temporary one is new.
pub record AreFresh (fs : Files) (path tmp : String) : Type 0 where
  pub is_new : lookup tmp fs ≡ none
  pub tmp_path : (tmp == path) ≡ false
  pub path_tmp : (path == tmp) ≡ false
  pub bak_tmp : (path ++ ".bak" == tmp) ≡ false
  pub tmp_bak : (tmp == path ++ ".bak") ≡ false
  pub bak_path : (path ++ ".bak" == path) ≡ false
  pub path_bak : (path == path ++ ".bak") ≡ false

-- Taking away a file that was not there before leaves what was.
pub delete-insert_new :
    (fs : Files) (tmp k : String) (f : File)
    → lookup tmp fs ≡ none
    → lookup k (delete tmp (insert tmp f fs)) ≡ lookup k fs
delete-insert_new fs tmp k f new = elim (Bool-cases (tmp == k)) [
  | inl same ↦
      let e : tmp ≡ k = (string_eq.beq_iff tmp k).0 same in
      lookup-delete tmp k (insert tmp f fs) ∙ (rw same (sym new ∙ ap (λ n. lookup n fs) e))
  | inr other ↦
      lookup-delete tmp k (insert tmp f fs)
      ∙ (rw other (lookup-insert tmp k f fs ∙ (rw other refl)))
]

-- With a backup made, the two ends of the renames.
module _ (y : System) (fs : Files) (path bak tmp : String) (f old : File)
    (at_tmp : lookup tmp fs ≡ some f) (at_path : lookup path fs ≡ some old)
    (bak_tmp : (bak == tmp) ≡ false) (path_tmp : (path == tmp) ≡ false)
    (tmp_path : (tmp == path) ≡ false) (bak_path : (bak == path) ≡ false)
    (backed : y.backup_fails ≡ false) where
  abbrev backup : Files
  backup = insert bak old (delete path fs)

  rename-backup : rename y.backup_fails fs path bak ≡ (backup, true)
  unfolding rename
  rename-backup = rw (backed, at_path) refl

  tmp_kept : lookup tmp backup ≡ some f
  tmp_kept = simp (map_laws, bak_tmp, path_tmp, at_tmp)

  swap_in_installed :
      y.install_fails ≡ false
      → swap_in y fs path bak tmp ≡ (insert path f (delete tmp backup), none)
  unfolding swap_in
  swap_in_installed installs = rw (rename-backup) (unfold rename in rw (installs, tmp_kept) refl)

  swap_in_restored :
      y.install_fails ≡ true
      → y.restore_fails ≡ false
      → swap_in y fs path bak tmp ≡ (insert path old (delete bak backup), some install_failed)
  unfolding swap_in
  swap_in_restored fails restores =
      let at_bak : lookup bak backup ≡ some old = simp (map_laws) in
      rw (rename-backup) (unfold rename in rw (fails, restores, at_bak) refl)

-- Either the new binary is at the path, verified and executable, and the old one is the backup; or there
-- is an error, and the old one is at the path.
abbrev pub IsReplaced :
    System → String → List ℕ → String → File → Files × Option UpdateError → Type 0
IsReplaced y path payload want old (fs, none) =
    (lookup path fs ≡ some (record { contents = payload; executable = true }))
    × (lookup (path ++ ".bak") fs ≡ some old)
    × (out : String) × (y.version_output payload ≡ some out)
    × (contains out want ≡ true)
IsReplaced y path payload want old (fs, some e) = lookup path fs ≡ some old

pub version_of-none :
    (o : Option String) (want : String)
    → version_of o want ≡ none
    → (out : String) × (o ≡ some out) × (contains out want ≡ true)
version_of-none none want h = cc
version_of-none (some out) want h = elim (Bool-cases (contains out want)) [
  | inl found ↦ (out, refl, found)
  | inr other ↦ let clash : some wrong_version ≡ none = rw other at h in cc clash
]

write_temporary-full :
    (y : System) (payload : List ℕ)
    → (write_temporary y payload).1 ≡ none
    → (write_temporary y payload).0 ≡ record { contents = payload; executable = true }
unfolding write_temporary
write_temporary-full y payload h = ground arith

module _ (y : System) (fs : Files) (path tmp : String) (payload : List ℕ) (want : String)
    (old : File) (fresh : AreFresh fs path tmp) (at_path : lookup path fs ≡ some old)
    (backed : y.backup_fails ≡ false) (restores : y.restore_fails ≡ false) where
  kept : (f : File) → lookup path (delete tmp (insert tmp f fs)) ≡ some old
  kept f = delete-insert_new fs tmp path f fresh.is_new ∙ at_path

  abbrev full : File
  full = record { contents = payload; executable = true }

  swapped-IsReplaced :
      verify_binary y payload want ≡ none
      → IsReplaced y path payload want old
          (clean_up tmp (swap_in y (insert tmp full fs) path (path ++ ".bak") tmp))
  unfolding verify_binary
  swapped-IsReplaced verified =
      let bak = path ++ ".bak" in
      let fs' = insert tmp full fs in
      let at_tmp : lookup tmp fs' ≡ some full = simp (map_laws) in
      let there : lookup path fs' ≡ some old = simp (map_laws, fresh.tmp_path, at_path) in
      let (out, runs, says) = version_of-none (y.version_output payload) want verified in
      elim (Bool-cases y.install_fails) [
        | inl fails ↦
            rw
              (swap_in_restored y fs' path bak tmp full old at_tmp there fresh.bak_tmp
                fresh.path_tmp fresh.tmp_path fresh.bak_path backed fails restores)
              (simp (map_laws, fresh.tmp_path))
        | inr installs ↦
            rw
              (swap_in_installed y fs' path bak tmp full old at_tmp there fresh.bak_tmp
                fresh.path_tmp fresh.tmp_path fresh.bak_path backed installs)
              (
                simp (map_laws, fresh.tmp_path),
                simp (map_laws, fresh.tmp_bak, fresh.path_bak),
                out,
                runs,
                says,
              )
      ]

  when_written-IsReplaced :
      (w : File × Option UpdateError)
      → (w.1 ≡ none → w.0 ≡ full)
      → IsReplaced y path payload want old
          (clean_up tmp (when_written y fs path (path ++ ".bak") tmp want payload w))
  when_written-IsReplaced (f, some e) whole = kept f
  when_written-IsReplaced (f, none) whole = elim (Option-cases (verify_binary y payload want)) [
    | inl verified ↦ rw (verified, whole refl) (swapped-IsReplaced verified)
    | inr (e, bad) ↦ rw bad (kept f)
  ]

  -- A replacement never leaves the node without a binary that runs, as long as the old one can be
  -- moved to its backup and back: it succeeds, and then the new binary has been run and states the
  -- wanted version; or it fails, at whatever call, and the old binary is in its place.
  pub replace_verified-IsReplaced :
      IsReplaced y path payload want old (replace_verified y fs path tmp payload want)
  unfolding replace_verified
  replace_verified-IsReplaced = elim (Bool-cases y.create_fails) [
    | inl none_ ↦ rw none_ at_path
    | inr made ↦
        rw made
          (when_written-IsReplaced (write_temporary y payload) (write_temporary-full y payload))
  ]

-- ===== src/SelfUpdate/Replace.antt =====
-- internal/selfupdate/apply.go: `ReplaceVerified`, `Replace` and `VerifyBinary` on a file system in which
-- any call may fail.
pub mod Laws
pub mod Failures
use ppanel_node.Base.{
  ℕ, String, Option, none, some, List, [], ◌∷◌, Bool, true, false, if◌then◌else◌,
}
use ppanel_node.Base.Eq.{string_eq}
use ppanel_node.Base.Map.{Map, lookup, insert, delete}
use ppanel_node.Base.Text.{contains}
use ppanel_node.SelfUpdate.Release.{
  UpdateError, create_failed, write_failed, sync_failed, close_failed, chmod_failed, not_runnable,
  wrong_version, install_failed,
}
use Prim.Native.String.{◌++◌}

pub record File : Type 0 where
  pub contents : List ℕ
  pub executable : Bool

abbrev pub Files : Type 0
Files = Map String File

-- Which calls fail, how much of a failing write is on disk, and what running a binary with `version`
-- prints, none if it cannot be run.
pub record System : Type 0 where
  pub create_fails : Bool
  pub write_fails : Bool
  pub written : List ℕ
  pub sync_fails : Bool
  pub close_fails : Bool
  pub chmod_fails : Bool
  pub backup_fails : Bool
  pub install_fails : Bool
  pub restore_fails : Bool
  pub version_output : List ℕ → Option String

-- `os.Rename`, which replaces its target.
abbrev rename_found : Files → String → String → Option File → Files × Bool
rename_found fs from to none = (fs, false)
rename_found fs from to (some f) = (insert to f (delete from fs), true)

unfoldable pub rename : Bool → Files → String → String → Files × Bool
rename fails fs from to = if fails then (fs, false) else rename_found fs from to (lookup from fs)

abbrev version_of : Option String → String → Option UpdateError
version_of none want = some not_runnable
version_of (some out) want = if contains out want then none else some wrong_version

unfoldable pub verify_binary : System → List ℕ → String → Option UpdateError
unfolding contains
verify_binary y contents want = version_of (y.version_output contents) want

-- The temporary file as it is left, and the error that leaves it so.
unfoldable pub write_temporary : System → List ℕ → File × Option UpdateError
write_temporary y payload =
    if y.write_fails
    then (record { contents = y.written; executable = false }, some write_failed)
    else if y.sync_fails
    then (record { contents = payload; executable = false }, some sync_failed)
    else if y.close_fails
    then (record { contents = payload; executable = false }, some close_failed)
    else if y.chmod_fails
    then (record { contents = payload; executable = false }, some chmod_failed)
    else (record { contents = payload; executable = true }, none)

-- The renames: a backup that may fail, the installation, and the restoration that may fail too.
abbrev after_install : System → String → String → Files × Bool → Files × Option UpdateError
after_install y path bak (fs, true) = (fs, none)
after_install y path bak (fs, false) = ((rename y.restore_fails fs bak path).0, some install_failed)

unfoldable pub swap_in : System → Files → String → String → String → Files × Option UpdateError
unfolding rename
swap_in y fs path bak tmp =
    after_install y path bak (rename y.install_fails (rename y.backup_fails fs path bak).0 tmp path)

abbrev when_verified :
    Files → Option UpdateError → Files × Option UpdateError → Files × Option UpdateError
when_verified fs (some e) done = (fs, some e)
when_verified fs none done = done

abbrev when_written :
    System
    → Files
    → String
    → String
    → String
    → String
    → List ℕ
    → File × Option UpdateError
    → Files × Option UpdateError
when_written y fs path bak tmp want payload (f, some e) = (insert tmp f fs, some e)
when_written y fs path bak tmp want payload (f, none) =
    when_verified (insert tmp f fs) (verify_binary y payload want)
      (swap_in y (insert tmp f fs) path bak tmp)

-- The deferred removal of the temporary file, which is taken to succeed.
abbrev clean_up : String → Files × Option UpdateError → Files × Option UpdateError
clean_up tmp (fs, e) = (delete tmp fs, e)

-- `ReplaceVerified`; `tmp` is the name that `CreateTemp` makes up.
unfoldable pub replace_verified :
    System → Files → String → String → List ℕ → String → Files × Option UpdateError
unfolding write_temporary verify_binary swap_in
replace_verified y fs path tmp payload want =
    if y.create_fails
    then (fs, some create_failed)
    else clean_up tmp
        (when_written y fs path (path ++ ".bak") tmp want payload (write_temporary y payload))

abbrev move_in : System → String → String → Files → Files × Option UpdateError
move_in y path tmp fs =
    let (fs', moved) = rename y.install_fails fs tmp path in
    (fs', if moved then none else some install_failed)

abbrev when_written_plain :
    System → Files → String → String → File × Option UpdateError → Files × Option UpdateError
when_written_plain y fs path tmp (f, some e) = (insert tmp f fs, some e)
when_written_plain y fs path tmp (f, none) = move_in y path tmp (insert tmp f fs)

-- `Replace`
unfoldable pub replace : System → Files → String → String → List ℕ → Files × Option UpdateError
unfolding write_temporary rename
replace y fs path tmp payload =
    if y.create_fails
    then (fs, some create_failed)
    else clean_up tmp (when_written_plain y fs path tmp (write_temporary y payload))

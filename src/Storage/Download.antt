-- ===== src/Storage/Download.antt =====
-- `check_download_destination` (src/storage.rs). What the file system answers for the path and for
-- its ancestors, the nearest first, is the argument.
use sshw.Base.{
  Bool, true, false, Text, codes, List, [], ◌∷◌, ◌++◌, Option, none, some, ◌≡◌, ◌↔◌, refl, arith,
  AllOf,
}
use sshw.Errors.{io, says, context, io_error, Error, classified_error, app_error, Result, ok, err}

-- An entry of the file system, or the failure to inspect it.
pub data Entry : Type 0 where
  directory not_directory absent uninspectable : Entry

pub record LocalPath : Type 0 where
  -- `try_exists`, none if it fails
  pub try_exists : Option Bool
  -- `fs::symlink_metadata` of the path itself
  pub entry : Entry
  -- `fs::metadata` of each ancestor, up to where `Path::parent` ends or stays
  pub ancestors : List Entry

abbrev download_path_error : Text → Error
download_path_error operation =
    classified_error io
      (context (says (codes "failed to " ++ operation)) ∷ io_error (says operation) ∷ [])

-- The loop over the parents.
nearest_is_directory : List Entry → Result (Unit {0})
nearest_is_directory [] = err (download_path_error (codes "inspect parent directory"))
nearest_is_directory (directory ∷ ancestors) = ok tt
nearest_is_directory (not_directory ∷ ancestors) =
    err (
      app_error io (says (codes "local download destination has a parent that is not a directory")))
nearest_is_directory (absent ∷ ancestors) = nearest_is_directory ancestors
nearest_is_directory (uninspectable ∷ ancestors) =
    err (download_path_error (codes "inspect parent directory"))

may_overwrite : Entry → Bool → Result (Unit {0})
may_overwrite directory overwrite =
    err
      (app_error io (says (codes "local download destination is a directory; specify a file path")))
may_overwrite not_directory true = ok tt
may_overwrite not_directory false =
    err (app_error io (says (codes "local file already exists; pass --yes to overwrite")))
may_overwrite absent overwrite = err (download_path_error (codes "inspect path"))
may_overwrite uninspectable overwrite = err (download_path_error (codes "inspect path"))

unfoldable pub check_download_destination : LocalPath → Bool → Result (Unit {0})
unfolding nearest_is_directory may_overwrite
check_download_destination path overwrite = elim (path.try_exists) [
  | none ↦ err (download_path_error (codes "inspect path"))
  | some true ↦ may_overwrite path.entry overwrite
  | some false ↦ nearest_is_directory path.ancestors
]

-- The nearest ancestor that exists is a directory.
abbrev pub IsUnderDirectory : List Entry → Type 0
IsUnderDirectory ancestors =
    (missing : List Entry) × (above : List Entry) × (ancestors ≡ missing ++ directory ∷ above)
    × AllOf (λ entry. entry ≡ absent) missing

under_directory :
    (ancestors : List Entry) → nearest_is_directory ancestors ≡ ok tt → IsUnderDirectory ancestors
unfolding nearest_is_directory
under_directory [] h = absurd (ground arith)
under_directory (directory ∷ ancestors) h = ([], ancestors, refl, tt)
under_directory (not_directory ∷ ancestors) h = absurd (ground arith)
under_directory (uninspectable ∷ ancestors) h = absurd (ground arith)
under_directory (absent ∷ ancestors) h =
    let (missing, above, e, m) = under_directory ancestors h in
    (absent ∷ missing, above, cc, (refl, m))

nearest_of_missing :
    (missing above : List Entry)
    → AllOf (λ entry. entry ≡ absent) missing
    → nearest_is_directory (missing ++ directory ∷ above) ≡ ok tt
unfolding nearest_is_directory
nearest_of_missing [] above m = refl
nearest_of_missing (absent ∷ missing) above (e, m) = nearest_of_missing missing above m
nearest_of_missing (directory ∷ missing) above (e, m) = absurd (ground arith)
nearest_of_missing (not_directory ∷ missing) above (e, m) = absurd (ground arith)
nearest_of_missing (uninspectable ∷ missing) above (e, m) = absurd (ground arith)

-- A destination that exists is taken exactly if it can be inspected, is no directory and
-- overwriting was allowed.
pub check_download_destination_existing :
    (path : LocalPath) (overwrite : Bool)
    → path.try_exists ≡ some true
    → (check_download_destination path overwrite ≡ ok tt)
      ↔ ((path.entry ≡ not_directory) × (overwrite ≡ true))
unfolding check_download_destination
check_download_destination_existing path overwrite h = (λ e. ground arith, λ e. ground arith)

-- A destination that does not exist is taken exactly if its nearest ancestor that exists is a
-- directory; overwriting does not matter.
pub check_download_destination_missing :
    (path : LocalPath) (overwrite : Bool)
    → path.try_exists ≡ some false
    → (check_download_destination path overwrite ≡ ok tt) ↔ IsUnderDirectory path.ancestors
unfolding check_download_destination
check_download_destination_missing path overwrite h = (
  λ e. under_directory path.ancestors (ground arith),
  λ (missing, above, e, m). ground (arith, nearest_of_missing missing above m),
)

-- ===== src/Files/Gateway.antt =====
-- backend/app/files/gateway.py with types.py, and the access log of _store_records.py. A path is the
-- list of its parts. The file system and the functions of `os.path` and `pathlib` are parameters.
pub mod Folders
pub mod Grants
pub mod Log
use cyber_companion.Base.{
  ℕ, ◌+◌, Bool, true, false, ◌&&◌, ◌||◌, not, Option, none, some, List, [], ◌∷◌, ◌++◌, reverse,
  take, if◌then◌else◌, ◌>>=◌,
}
use cyber_companion.Base.Text.{Text, codes, strip, is_empty, text_eq, text_in}

-- `path.parts`
abbrev pub Parts : Type 0
Parts = List Text

-- What a call on the file system gives: a path, or the text of its OSError.
pub data Resolved : Type 0 where
  failed : Text → Resolved
  located : Parts → Resolved

pub data FileOperation : Type 0 where
  read : FileOperation
  write : FileOperation

-- `may_read` and `may_write` are the fields `read` and `write`.
pub record AllowedFolder : Type 0 where
  pub raw_path : Text
  pub root : Parts
  pub may_read : Bool
  pub may_write : Bool

pub record PermissionsConfig : Type 0 where
  pub allowed_folders : List AllowedFolder
  pub deny_shell_execution : Bool
  pub log_file_access : Bool

pub record PathAccessResult : Type 0 where
  pub allowed : Bool
  pub operation : FileOperation
  pub requested_path : Text
  pub resolved_path : Text
  pub reason : Text
  pub matched_folder : Option Text

-- database.py
pub record FileAccessLogRecord : Type 0 where
  pub id : ℕ
  pub created_at : Text
  pub operation : FileOperation
  pub requested_path : Text
  pub resolved_path : Text
  pub allowed : Bool
  pub reason : Text

-- The rows stand with the newest first.
pub record FileAccessLog : Type 0 where
  pub rows : List FileAccessLogRecord
  pub last_id : ℕ

-- The calls of the program on paths. `none` of `expand` is the error of a home that is unknown.
pub record FileSystem : Type 0 where
  -- `Path(text).expanduser()`
  pub expand : Text → Option Parts
  pub is_absolute : Parts → Bool
  -- `os.path.normpath`
  pub normpath : Parts → Parts
  -- `Path.cwd()`
  pub cwd : Resolved
  -- `path.resolve()`
  pub resolve : Parts → Resolved
  -- `os.path.realpath`
  pub realpath : Parts → Resolved
  -- `str(path)`
  pub to_text : Parts → Text

unfoldable pub log_file_access : PathAccessResult → Text → FileAccessLog → FileAccessLog
log_file_access result now t =
    let saved : FileAccessLogRecord = record {
      id = t.last_id + 1;
      created_at = now;
      operation = result.operation;
      requested_path = result.requested_path;
      resolved_path = result.resolved_path;
      allowed = result.allowed;
      reason = result.reason;
    } in
    record { rows = saved ∷ t.rows; last_id = t.last_id + 1 }

-- A limit is not negative here.
unfoldable pub list_file_access_logs : ℕ → FileAccessLog → List FileAccessLogRecord
list_file_access_logs limit t = reverse (take limit t.rows)

unfoldable pub contains_parent_reference : Parts → Bool
contains_parent_reference path = text_in (codes "..") path

-- `resolved_path.relative_to(root)` raises no ValueError.
unfoldable pub is_within_root : Parts → Parts → Bool
is_within_root path [] = true
is_within_root [] (r ∷ root) = false
is_within_root (p ∷ path) (r ∷ root) = text_eq p r && is_within_root path root

unfoldable pub permitted : AllowedFolder → FileOperation → Bool
permitted folder read = folder.may_read
permitted folder write = folder.may_write

-- `operation.capitalize()`
abbrev pub capitalize : FileOperation → Text
capitalize read = codes "Read"
capitalize write = codes "Write"

module _ (fs : FileSystem) where
  unfoldable pub absolute_lexical_path : Parts → Resolved
  absolute_lexical_path path =
      if fs.is_absolute path
      then located (fs.normpath path)
      else elim fs.cwd [ failed e ↦ failed e | located cwd ↦ located (fs.normpath (cwd ++ path)) ]

  -- The loop over the folders: the first that contains the path. `none` is a root that raises.
  unfoldable pub match_folder : Parts → List AllowedFolder → Option (Option AllowedFolder)
  unfolding is_within_root
  match_folder lexical [] = some none
  match_folder lexical (folder ∷ folders) =
      let rest = match_folder lexical folders in
      elim (fs.resolve folder.root) [
        | failed e ↦ none
        | located root ↦ if is_within_root lexical root then some (some folder) else rest
      ]

  -- `str(candidate.resolve(strict=False))`, or the lexical path.
  unfoldable pub preview : Parts → Parts → Text
  preview candidate lexical = elim (fs.resolve candidate) [
    | failed e ↦ fs.to_text lexical
    | located path ↦ fs.to_text path
  ]

  module _ (config : PermissionsConfig) (requested_path : Text) (operation : FileOperation) where
    refused : Text → Text → Option Text → PathAccessResult
    refused resolved_path reason matched_folder = record {
      allowed = false;
      operation = operation;
      requested_path = requested_path;
      resolved_path = resolved_path;
      reason = reason;
      matched_folder = matched_folder;
    }

    -- The target with its symbolic links followed, against the real root.
    unfoldable pub check_target : AllowedFolder → Parts → Parts → Resolved → PathAccessResult
    unfolding refused is_within_root
    check_target folder lexical real_root (failed e) =
        refused (fs.to_text lexical) (codes "Unable to resolve real path: " ++ e)
          (some folder.raw_path)
    check_target folder lexical real_root (located real_target) =
        if is_within_root real_target real_root
        then record {
          allowed = true;
          operation = operation;
          requested_path = requested_path;
          resolved_path = fs.to_text real_target;
          reason = codes "Allowed.";
          matched_folder = some folder.raw_path;
        }
        else refused (fs.to_text real_target)
            (codes "Symlink escape outside the allowed folder is not permitted.")
            (some folder.raw_path)

    unfoldable pub check_folder : AllowedFolder → Parts → Option PathAccessResult
    unfolding check_target refused permitted
    check_folder folder lexical =
        if permitted folder operation
        then elim (fs.resolve folder.root) [
          | failed e ↦ none
          | located real_root ↦ some (check_target folder lexical real_root (fs.realpath lexical))
        ]
        else some (
            refused (fs.to_text lexical)
              (capitalize operation ++ codes " access is not allowed for this folder.")
              (some folder.raw_path))

    unfoldable pub check_match : Parts → Parts → Option AllowedFolder → Option PathAccessResult
    unfolding check_folder refused preview
    check_match candidate lexical none =
        some
          (refused (preview candidate lexical) (codes "Path is outside all allowed folders.") none)
    check_match candidate lexical (some folder) = check_folder folder lexical

    unfoldable pub no_folders : List AllowedFolder → Bool
    no_folders [] = true
    no_folders (folder ∷ folders) = false

    unfoldable pub check_lexical : Parts → Resolved → Option PathAccessResult
    unfolding check_match match_folder refused no_folders
    check_lexical candidate (failed e) =
        some (refused (fs.to_text candidate) (codes "Unable to resolve path: " ++ e) none)
    check_lexical candidate (located lexical) =
        if no_folders config.allowed_folders
        then some (refused (fs.to_text lexical) (codes "No allowed folders are configured.") none)
        else match_folder lexical config.allowed_folders >>= check_match candidate lexical

    unfoldable pub check_candidate : Parts → Option PathAccessResult
    unfolding check_lexical refused contains_parent_reference absolute_lexical_path
    check_candidate candidate =
        if contains_parent_reference candidate
        then some
            (refused (fs.to_text candidate) (codes "Path traversal with '..' is not allowed.") none)
        else check_lexical candidate (absolute_lexical_path candidate)

    -- The result that check_path hands to `_finalize`.
    unfoldable pub verdict : Option PathAccessResult
    unfolding check_candidate refused strip is_empty
    verdict =
        if is_empty (strip requested_path)
        then some (refused [] (codes "Empty path is not allowed.") none)
        else fs.expand (strip requested_path) >>= check_candidate

    -- The store of a gateway that has one, after a result.
    unfoldable pub logged : Text → Option FileAccessLog → PathAccessResult → Option FileAccessLog
    unfolding log_file_access
    logged now none result = none
    logged now (some log) result =
        some (if config.log_file_access then log_file_access result now log else log)

    -- `_finalize`
    unfoldable pub finalize :
        Text → Option FileAccessLog → PathAccessResult → PathAccessResult × Option FileAccessLog
    unfolding logged
    finalize now store result = (result, logged now store result)

    -- `none` is an exception that the code does not catch.
    unfoldable pub check_path :
        Text → Option FileAccessLog → Option (PathAccessResult × Option FileAccessLog)
    unfolding verdict finalize
    check_path now store = verdict >>= (λ result. some (finalize now store result))

-- ===== src/Examples/Files.antt =====
-- Runs of the file gateway, on a file system in which one link leads out of the sandbox.
use cyber_companion.Base.{
  ◌≡◌, refl, Bool, true, false, Option, none, some, [], ◌∷◌, ◌↔◌, if◌then◌else◌,
}
use cyber_companion.Base.Text.{Text, codes, text_eq, text_in, join}
use cyber_companion.Files.Gateway.{
  Parts, located, FileOperation, AllowedFolder, PermissionsConfig, PathAccessResult, FileAccessLog,
  FileSystem, list_file_access_logs, logged, check_path,
}
use cyber_companion.Files.Gateway.Grants.{Granted, Allows, check_path-Allows_iff}
use cyber_companion.Files.Gateway.Log.{entry, check_path-logged}

-- The parts of a path, between the slashes.
abbrev split_parts : Text → Parts
split_parts [] = [] ∷ []
split_parts (c ∷ s) = elim (split_parts s) [
  | [] ↦ []
  | part ∷ parts ↦ if text_eq (c ∷ []) (codes "/") then [] ∷ part ∷ parts else (c ∷ part) ∷ parts
]

abbrev starts_empty : Parts → Bool
starts_empty [] = false
starts_empty (p ∷ ps) = text_eq p []

-- A path through the part `link` leads to `/etc`.
abbrev followed : Parts → Parts
followed path = if text_in (codes "link") path then [] ∷ codes "etc" ∷ [] else path

abbrev disk : FileSystem
disk = record {
  expand = λ s. some (split_parts s);
  is_absolute = starts_empty;
  normpath = λ p. p;
  cwd = located ([] ∷ codes "home" ∷ []);
  resolve = λ p. located (followed p);
  realpath = λ p. located (followed p);
  to_text = join (codes "/");
}

abbrev notes : AllowedFolder
notes = record {
  raw_path = codes "notes";
  root = [] ∷ codes "home" ∷ codes "notes" ∷ [];
  may_read = true;
  may_write = false;
}

abbrev permissions : PermissionsConfig
permissions = record {
  allowed_folders = notes ∷ [];
  deny_shell_execution = true;
  log_file_access = true;
}

abbrev empty_log : FileAccessLog
empty_log = record { rows = []; last_id = 0 }

abbrev answer : Text → FileOperation → Option Bool
answer path operation = elim (check_path disk permissions path operation [] none) [
  | none ↦ none
  | some r ↦ some r.0.allowed
]

read_inside : answer (codes " notes/today.md") FileOperation.read ≡ some true
unfolding check_path text_in
read_inside = refl

write_inside : answer (codes "notes/today.md") FileOperation.write ≡ some false
unfolding check_path text_in
write_inside = refl

read_through_link : answer (codes "/home/notes/link/passwd") FileOperation.read ≡ some false
unfolding check_path text_in
read_through_link = refl

read_above : answer (codes "notes/../secret") FileOperation.read ≡ some false
unfolding check_path text_in
read_above = refl

check_path-Allows_iff_example :
    Allows disk permissions
      (codes "notes/today.md")
      FileOperation.read
      []
      (some empty_log)
      (codes "/home/notes/today.md")
    ↔ ((target : Parts) × (Granted disk permissions
            (codes "notes/today.md")
            FileOperation.read
            target
          × (codes "/home/notes/today.md" ≡ join (codes "/") target)))
check_path-Allows_iff_example =
    check_path-Allows_iff disk permissions (codes "notes/today.md") FileOperation.read []
      (some empty_log) (codes "/home/notes/today.md")

abbrev escape : Text
escape = codes "notes/link"

abbrev escaped : PathAccessResult
escaped = record {
  allowed = false;
  operation = FileOperation.read;
  requested_path = escape;
  resolved_path = codes "/etc";
  reason = codes "Symlink escape outside the allowed folder is not permitted.";
  matched_folder = some (codes "notes");
}

check_path-logged_example :
    (log' : FileAccessLog) × ((logged disk permissions escape FileOperation.read
          (codes "12:00")
          (some empty_log)
          escaped
        ≡ some log')
      × (list_file_access_logs 5 log' ≡ entry escaped 1 (codes "12:00") ∷ []))
unfolding join list_file_access_logs
check_path-logged_example =
    check_path-logged disk permissions escape FileOperation.read (codes "12:00") empty_log escaped
      (logged disk permissions escape FileOperation.read (codes "12:00") (some empty_log) escaped) 4
      refl (unfold check_path text_in in refl)

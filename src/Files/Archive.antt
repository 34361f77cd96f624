-- ===== src/Files/Archive.antt =====
-- src/deployment/fs.rs: the files of a saved deployment, written from an archive and read by
-- target. The file system is the state; whether an access of it succeeds is the parameter `Access`.
-- The archive, which the crates tar and flate2 read, is the list of its entries.
use Prim.Native.String.{String}
use laqista.Base.{
  ℕ, if◌then◌else◌, List, [], ◌∷◌, Option, none, some, Outcome, ok, err, panic, blocked, ok_or,
  str_eq,
}
use laqista.Base.Task.{Task, lift, pure, ◌>>=◌, ◌>>◌}

abbrev pub Bytes : Type 0
Bytes = List ℕ

-- A directory: its files in the order in which they are listed.
abbrev pub Dir : Type 0
Dir = List (String × Bytes)

pub record Access : Type 0 where
  pub read : Outcome String (Unit {0})
  pub create : Outcome String (Unit {0})
  pub write : String → Outcome String (Unit {0})

-- A directory that is missing is created. Any other error of reading it is passed on.
unfoldable pub open_dir : {A : Type 0} → Access → Task (Option (List A)) String (Unit {0})
open_dir a none = elim a.create [
  | ok t ↦ (a.read, some [])
  | err e ↦ (err e, none)
  | panic ↦ (panic, none)
  | blocked ↦ (blocked, none)
]
open_dir a (some d) = (a.read, some d)

-- `fs::write`
unfoldable pub put : String → Bytes → Dir → Dir
put name contents [] = (name, contents) ∷ []
put name contents ((n, b) ∷ d) =
    let rest = put name contents d in if str_eq n name then (n, contents) ∷ d else (n, b) ∷ rest

abbrev pub write_file : Access → String → Bytes → Task (Option Dir) String (Unit {0})
write_file a name contents none = (err "No such file or directory", none)
write_file a name contents (some d) = elim (a.write name) [
  | ok t ↦ (ok tt, some (put name contents d))
  | err e ↦ (err e, some d)
  | panic ↦ (panic, some d)
  | blocked ↦ (blocked, some d)
]

-- An entry of the archive: the file name of its path, which may have none, and its contents.
pub record ArchiveEntry : Type 0 where
  pub path : Outcome String (Option String)
  pub contents : Outcome String Bytes

-- The closure of `write_tgz`.
unfoldable pub write_entry : Access → Outcome String ArchiveEntry → Task (Option Dir) String String
unfolding put
write_entry a entry_result = do
  entry ← lift entry_result
  entry_path ← lift entry.path
  file_name ← lift (ok_or "entity not found" entry_path)
  contents ← lift entry.contents
  write_file a file_name contents
  pure file_name

-- `collect` stops at the first entry that fails. What has been written before stays.
unfoldable pub write_entries :
    Access → List (Outcome String ArchiveEntry) → Task (Option Dir) String (List String)
unfolding write_entry
write_entries a [] = pure []
write_entries a (e ∷ entries) = do
  written ← write_entry a e
  more ← write_entries a entries
  pure (written ∷ more)

unfoldable pub write_tgz :
    Access
    → Outcome String (List (Outcome String ArchiveEntry))
    → Task (Option Dir) String (Unit {0})
unfolding open_dir write_entries
write_tgz a archive = do
  open_dir a
  entries ← lift archive
  written_files ← write_entries a entries
  pure tt

-- ===== src/Files/Targets.antt =====
-- src/deployment/fs.rs: the file that is read for a target from the directory of a deployment.
use Prim.Native.String.{String}
use laqista.Base.{
  if◌then◌else◌, List, [], ◌∷◌, Option, none, some, Outcome, ok, err, panic, blocked, ◌>>=◌, ok_or,
}
use laqista.Base.Text.{str_append}
use laqista.Disk.{Target}
use laqista.Disk.Naming.{extension_matches, to_string}
use laqista.Files.Archive.{Bytes}

-- An entry of a directory that is read: its name if it is a text, and its contents.
abbrev pub DirEntry : Type 0
DirEntry = Option String × Outcome String Bytes

-- `find_map`: an entry that cannot be read is passed over.
unfoldable pub find_entry :
    Target → List (Outcome String DirEntry) → Outcome String (Option DirEntry)
unfolding extension_matches
find_entry target [] = ok none
find_entry target (e ∷ entries) =
    let rest = find_entry target entries in
    elim e [
      | ok (filename, contents) ↦ elim (extension_matches target filename) [
        | ok matches ↦ if matches then ok (some (filename, contents)) else rest
        | err x ↦ err x
        | panic ↦ panic
        | blocked ↦ blocked
      ]
      | err x ↦ rest
      | panic ↦ panic
      | blocked ↦ blocked
    ]

unfoldable pub read_binary :
    Target → Outcome String (List (Outcome String DirEntry)) → Outcome String Bytes
unfolding find_entry
read_binary target dir = do
  entries ← dir
  found ← find_entry target entries
  entry ← ok_or (str_append "target not found: " (to_string target)) found
  entry.1

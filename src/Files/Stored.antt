-- ===== src/Files/Stored.antt =====
-- What is read for a target from the files that an archive has left.
use Prim.Native.String.{String}
use laqista.Base.{
  ◌≡◌, inl, inr, refl, ap, ◌∙◌, true, false, if◌then◌else◌, List, [], ◌∷◌, ◌++◌, map, Option, none,
  some, All, Outcome, ok, str_eq_iff, Bool-cases, arith,
}
use laqista.Disk.{Target}
use laqista.Disk.Naming.{ends_with, extension_matches, to_string}
use laqista.Files.Archive.{
  Access, ArchiveEntry, Bytes, Dir, put, open_dir, write_entry, write_entries, write_tgz,
}
use laqista.Files.Targets.{DirEntry, find_entry, read_binary}

-- A directory whose entries can all be read, and whose names are texts.
abbrev pub listed : String × Bytes → Outcome String DirEntry
listed (name, contents) = ok (some name, ok contents)

-- The first file whose name ends with the target's extension.
unfoldable pub first_of : Target → Dir → Option (String × Bytes)
unfolding ends_with
first_of target [] = none
first_of target ((name, contents) ∷ d) =
    let rest = first_of target d in
    if ends_with name (to_string target) then some (name, contents) else rest

-- An entry of an archive that can be read.
abbrev pub readable : String × Bytes → Outcome String ArchiveEntry
readable (name, contents) = ok (record { path = ok (some name); contents = ok contents })

-- The files of an archive, put into a directory one after another.
abbrev pub put_all : List (String × Bytes) → Dir → Dir
put_all [] d = d
put_all ((name, contents) ∷ files) d = put_all files (put name contents d)

pub record IsWritable (a : Access) : Type 0 where
  pub reads : a.read ≡ ok tt
  pub creates : a.create ≡ ok tt
  pub writes : (name : String) → a.write name ≡ ok tt

write_entries-readable :
    (a : Access) (files : List (String × Bytes)) (d : Dir)
    → IsWritable a
    → write_entries a (map readable files) (some d)
      ≡ (ok (map (λ (f : String × Bytes). f.0) files), some (put_all files d))
unfolding write_entries write_entry
write_entries-readable a [] d h = refl
write_entries-readable a ((name, contents) ∷ files) d h =
    rw (h.writes name, write_entry)
      (rw (write_entries-readable a files (put name contents d) h) refl)

-- The files of a directory, which may be missing.
abbrev pub files_of : Option Dir → Dir
files_of none = []
files_of (some d) = d

write_tgz-readable :
    (a : Access) (files : List (String × Bytes)) (old : Option Dir)
    → IsWritable a
    → write_tgz a (ok (map readable files)) old ≡ (ok tt, some (put_all files (files_of old)))
unfolding write_tgz open_dir
write_tgz-readable a files none h =
    rw (h.creates, open_dir) (rw h.reads (rw (write_entries-readable a files [] h) refl))
write_tgz-readable a files (some d) h =
    rw (h.reads, open_dir) (rw (write_entries-readable a files d h) refl)

abbrev pub IsOther : Target → String × Bytes → Type 0
IsOther target (name, contents) = ends_with name (to_string target) ≡ false

first_of-put :
    (target : Target) (name : String) (contents : Bytes) (d : Dir)
    → ends_with name (to_string target) ≡ false
    → first_of target (put name contents d) ≡ first_of target d
unfolding first_of put
first_of-put target name contents [] h = ground arith
first_of-put target name contents ((n, b) ∷ d) h = ground (
  arith,
  first_of-put target name contents d h,
  str_eq_iff n name,
  (λ (e : n ≡ name). ap (λ s. ends_with s (to_string target)) e),
)

first_of-put_match :
    (target : Target) (name : String) (contents : Bytes) (d : Dir)
    → ends_with name (to_string target) ≡ true
    → first_of target d ≡ none
    → first_of target (put name contents d) ≡ some (name, contents)
unfolding first_of put
first_of-put_match target name contents [] h k = ground arith
first_of-put_match target name contents ((n, b) ∷ d) h k = ground (
  arith,
  first_of-put_match target name contents d h,
  str_eq_iff n name,
  (λ (e : n ≡ name). ap (λ s. ends_with s (to_string target)) e),
)

first_of-put_all :
    (target : Target) (files : List (String × Bytes)) (d : Dir)
    → All (IsOther target) files
    → first_of target (put_all files d) ≡ first_of target d
first_of-put_all target [] d h = refl
first_of-put_all target ((name, contents) ∷ files) d (here, later) =
    first_of-put_all target files (put name contents d) later
    ∙ first_of-put target name contents d here

first_of-none : (target : Target) (d : Dir) → All (IsOther target) d → first_of target d ≡ none
unfolding first_of
first_of-none target [] h = refl
first_of-none target ((n, b) ∷ d) (here, later) = ground (arith, first_of-none target d later)

put_all-append :
    (front back : List (String × Bytes)) (d : Dir)
    → put_all (front ++ back) d ≡ put_all back (put_all front d)
put_all-append [] back d = refl
put_all-append ((n, b) ∷ front) back d = put_all-append front back (put n b d)

abbrev as_entry : Option (String × Bytes) → Option DirEntry
as_entry none = none
as_entry (some (name, contents)) = some (some name, ok contents)

find_entry-listed :
    (target : Target) (d : Dir)
    → find_entry target (map listed d) ≡ ok (as_entry (first_of target d))
unfolding first_of find_entry extension_matches
find_entry-listed target [] = refl
find_entry-listed target ((n, b) ∷ d) = elim (Bool-cases (ends_with n (to_string target))) [
  | inl e ↦ ground (arith, e)
  | inr e ↦ ground (arith, e, find_entry-listed target d)
]

-- An archive that can be read is written into a directory, new or old, and one of its files, but no
-- other file of either, has the target's extension: that file's contents are read for the target.
pub read_binary-write_tgz :
    (a : Access) (target : Target) (old : Option Dir) (front back : List (String × Bytes))
    (name : String) (contents : Bytes)
    → IsWritable a
    → All (IsOther target) (files_of old)
    → All (IsOther target) front
    → ends_with name (to_string target) ≡ true
    → All (IsOther target) back
    → (d : Dir) × (write_tgz a (ok (map readable (front ++ (name, contents) ∷ back))) old
        ≡ (ok tt, some d))
      × (read_binary target (ok (map listed d)) ≡ ok contents)
unfolding read_binary
read_binary-write_tgz a target old front back name contents h ho hf hit hb =
    let d = put_all front (files_of old) in
    let before : first_of target d ≡ none =
      first_of-put_all target front (files_of old) hf ∙ first_of-none target (files_of old) ho in
    let found : first_of target (put_all back (put name contents d)) ≡ some (name, contents) =
      first_of-put_all target back (put name contents d) hb
      ∙ first_of-put_match target name contents d hit before in
    (
      put_all back (put name contents d),
      write_tgz-readable a (front ++ (name, contents) ∷ back) old h
          ∙ ap (λ (x : Dir). (ok tt, some x))
              (put_all-append front ((name, contents) ∷ back) (files_of old)),
      rw (find_entry-listed target (put_all back (put name contents d))) (rw found refl),
    )

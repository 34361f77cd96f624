-- ===== src/Files/Root.antt =====
-- The directory of all applications: `open_dir_root` of src/deployment/fs.rs and what is read
-- behind it.
use Prim.Native.String.{String}
use laqista.Base.{
  ◌≡◌, refl, sym, subst, ◌∙◌, ok_inj, >>=-ok, Outcome-cases, str_eq, if◌then◌else◌, List, [], ◌∷◌,
  Option, none, some, Outcome, ok, err, panic, blocked, ◌>>=◌, Bool-cases, inl, inr, arith,
}
use laqista.Base.Task.{Task, ◌>>◌, continue-ok}
use laqista.IdMap.{IdMap, empty, insert}
use laqista.Types.{Crates, Deployment}
use laqista.Disk.{SavedDeployment, SavedApplication}
use laqista.Wasm.Runner.{Codec}
use laqista.Files.{RootEntry, app_dir, other, read_per_app, read_from, read_apps}
use laqista.Files.Archive.{Access, Bytes, open_dir}
use laqista.Files.Saving.{AppDir, entries_of}

-- What stands in the directory: the directory of an application, or a file.
pub data Node : Type 0 where
  app : AppDir → Node
  plain : Bytes → Node

abbrev pub RootDir : Type 0
RootDir = List (String × Node)

abbrev pub gitignore_file_name : String
gitignore_file_name = ".gitignore"

-- `GITIGNORE_CONTENT` is one star.
abbrev pub gitignore_content : Bytes
gitignore_content = 42 ∷ []

-- A file is written in the place of the one that is there. It cannot replace a directory.
unfoldable pub write_plain : String → Bytes → RootDir → Outcome String RootDir
write_plain name contents [] = ok ((name, plain contents) ∷ [])
write_plain name contents ((n, app d) ∷ dir) =
    let rest = write_plain name contents dir in
    if str_eq n name then err "Is a directory" else rest >>= λ dir. ok ((n, app d) ∷ dir)
write_plain name contents ((n, plain b) ∷ dir) =
    let rest = write_plain name contents dir in
    if str_eq n name
    then ok ((n, plain contents) ∷ dir)
    else rest >>= λ dir. ok ((n, plain b) ∷ dir)

abbrev pub writing : Access → String → Bytes → Task (Option RootDir) String (Unit {0})
writing a name contents none = (err "No such file or directory", none)
writing a name contents (some dir) = elim (a.write name >>= λ t. write_plain name contents dir) [
  | ok dir' ↦ (ok tt, some dir')
  | err e ↦ (err e, some dir)
  | panic ↦ (panic, some dir)
  | blocked ↦ (blocked, some dir)
]

-- `open_dir_root`
unfoldable pub open_dir_root : Access → Task (Option RootDir) String (Unit {0})
unfolding open_dir write_plain
open_dir_root a = do open_dir a; writing a gitignore_file_name gitignore_content

writing-ok :
    (a : Access) (name : String) (contents : Bytes) (dir : RootDir) (after : Option RootDir)
    → writing a name contents (some dir) ≡ (ok tt, after)
    → (now : RootDir) × (after ≡ some now) × (write_plain name contents dir ≡ ok now)
writing-ok a name contents dir after h =
    elim (Outcome-cases (a.write name >>= λ t. write_plain name contents dir)) [
      | inl (now, e) ↦
          let (t, allowed, wrote) = >>=-ok (a.write name) (λ t. write_plain name contents dir) e in
          (now, ground (arith, e, h), wrote)
      | inr failed ↦ absurd (ground (arith, failed, h))
    ]

alike :
    {E A B : Type 0} (o : Outcome E A) {f g : A → Outcome E B}
    → ((a : A) → f a ≡ g a)
    → (o >>= f) ≡ (o >>= g)
alike (ok a) h = h a
alike (err e) h = refl
alike panic h = refl
alike blocked h = refl

not_ok : {E A : Type 0} {e : E} {a : A} → ¬ (◌≡◌ {A = Outcome E A} (err e) (ok a))
not_ok h = cc

module _ ⦃k : Crates⦄ (codec : Codec Deployment) where
  abbrev pub root_entries : RootDir → List (Outcome String RootEntry)
  root_entries [] = []
  root_entries ((n, app d) ∷ dir) = ok (app_dir (entries_of codec (some d))) ∷ root_entries dir
  root_entries ((n, plain b) ∷ dir) = ok other ∷ root_entries dir

  module _ (read_name : String → Option SavedDeployment) where
    write_plain-read :
        (name : String) (contents : Bytes) (dir after : RootDir) (m : IdMap SavedApplication)
        → write_plain name contents dir ≡ ok after
        → read_from read_name m (root_entries after) ≡ read_from read_name m (root_entries dir)
    unfolding write_plain read_from
    write_plain-read name contents [] after m h =
        subst (λ x. read_from read_name m (root_entries x) ≡ ok m) (ok_inj h) refl
    write_plain-read name contents ((n, app d) ∷ dir) after m h =
        elim (Bool-cases (str_eq n name)) [
          | inl e ↦ absurd (not_ok {e = "Is a directory"} (sym (rw (write_plain, e) refl) ∙ h))
          | inr e ↦
              let (dir', wrote, made) =
                >>=-ok (write_plain name contents dir) (λ dir. ok ((n, app d) ∷ dir))
                  (sym (rw (write_plain, e) refl) ∙ h) in
              subst
                (λ x.
                  read_from read_name m (root_entries x)
                  ≡ read_from read_name m (root_entries ((n, app d) ∷ dir)))
                (ok_inj made)
                (alike (read_per_app read_name (entries_of codec (some d)))
                  (λ a. write_plain-read name contents dir dir' (insert m a.info.id a) wrote))
        ]
    write_plain-read name contents ((n, plain b) ∷ dir) after m h =
        elim (Bool-cases (str_eq n name)) [
          | inl e ↦
              subst
                (λ x.
                  read_from read_name m (root_entries x) ≡ read_from read_name m (root_entries dir))
                (ok_inj {a = (n, plain contents) ∷ dir} (sym (rw (write_plain, e) refl) ∙ h)) refl
          | inr e ↦
              let (dir', wrote, made) =
                >>=-ok (write_plain name contents dir) (λ dir. ok ((n, plain b) ∷ dir))
                  (sym (rw (write_plain, e) refl) ∙ h) in
              subst
                (λ x.
                  read_from read_name m (root_entries x) ≡ read_from read_name m (root_entries dir))
                (ok_inj made) (write_plain-read name contents dir dir' m wrote)
        ]

    -- The file that hides the directory from git is not seen when the applications are read: where
    -- opening the directory succeeds, what is read is what was there before.
    pub open_dir_root-read :
        (a : Access) (dir : RootDir) (after : Option RootDir)
        → open_dir_root a (some dir) ≡ (ok tt, after)
        → (now : RootDir) × (after ≡ some now)
          × (read_apps read_name (root_entries now) ≡ read_apps read_name (root_entries dir))
    unfolding open_dir_root open_dir read_apps
    open_dir_root-read a dir after h =
        let (t, opened, h) = continue-ok a.read _ (some dir) h in
        let (now, same, wrote) = writing-ok a gitignore_file_name gitignore_content dir after h in
        (now, same, write_plain-read gitignore_file_name gitignore_content dir now empty wrote)

-- ===== src/Files/Restart.antt =====
-- What a daemon knows again when it starts over on the directory that it has written.
use Prim.Native.String.{String}
use laqista.Base.{
  ap, ◌∙◌, ◌≢◌, ◌++◌, All-append, Bool, false, str_eq, str_eq_iff, if◌then◌else◌, ℕ, ◌<◌, ◌^◌, ◌≡◌,
  refl, List, [], ◌∷◌, map, some, All, Outcome, ok, true, subst, sym,
}
use laqista.Base.Int.{pos}
use laqista.IdMap.{Uuid, IdMap, empty, insert, collect_from, from_pairs}
use laqista.IdMap.Keys.{Distinct, Fresh, from_pairs-Distinct}
use laqista.Types.{Crates, IsUuid}
use laqista.Disk.{cut, whole, SavedDeployment, SavedApplication}
use laqista.Disk.Naming.{IsHash, Hex, read, dir_name}
use laqista.Disk.Names.{read-positive}
use laqista.Files.{RootEntry, app_dir, other, read_from, read_apps, read_inner, default_database}
use laqista.Files.Reading.{written, AllRead, read_per_app-written}

-- Whether a directory of a name is there: that of an application is named by its name, not by its
-- id.
abbrev named : String → List SavedApplication → Bool
named name [] = false
named name (a ∷ apps) = if str_eq a.info.name name then true else named name apps

-- What is saved in a directory that is there stands beside the deployments in it, and its
-- information replaces that in it.
abbrev merged : SavedApplication → List SavedApplication → List SavedApplication
merged a [] = []
merged a (b ∷ apps) =
    if str_eq b.info.name a.info.name
    then record { info = a.info; deployments = b.deployments ++ a.deployments } ∷ apps
    else b ∷ merged a apps

-- The directories of the root, after applications have been saved there, the last one first.
unfoldable pub root_of : List SavedApplication → List SavedApplication
root_of [] = []
root_of (a ∷ apps) =
    let there = root_of apps in if named a.info.name there then merged a there else a ∷ there

abbrev pub DistinctNames : List SavedApplication → Type 0
DistinctNames [] = Unit
DistinctNames (a ∷ apps) = All (λ b. b.info.name ≢ a.info.name) apps × DistinctNames apps

abbrev pub DistinctIds : List SavedApplication → Type 0
DistinctIds [] = Unit
DistinctIds (a ∷ apps) = All (λ b. a.info.id ≢ b.info.id) apps × DistinctIds apps

-- The applications by their own ids.
abbrev pub keyed : List SavedApplication → IdMap SavedApplication
keyed = map (λ a. (a.info.id, a))

-- An application with the times of its deployments in whole seconds.
abbrev pub whole_app : SavedApplication → SavedApplication
whole_app a = record a { deployments = map cut a.deployments }

keyed-Fresh :
    (id : Uuid) (apps : List SavedApplication)
    → All (λ b. id ≢ b.info.id) apps
    → Fresh id (keyed (map whole_app apps))
keyed-Fresh id [] others = tt
keyed-Fresh id (a ∷ apps) (here, later) = (here, keyed-Fresh id apps later)

keyed-Distinct :
    (apps : List SavedApplication) → DistinctIds apps → Distinct (keyed (map whole_app apps))
keyed-Distinct [] d = tt
keyed-Distinct (a ∷ apps) (others, later) =
    (keyed-Fresh a.info.id apps others, keyed-Distinct apps later)

-- What two applications of one name come to, the second of them saved last.
abbrev pub shared : SavedApplication → SavedApplication → SavedApplication
shared first second = record {
  info = second.info;
  deployments = first.deployments ++ second.deployments;
}

root_of-shared :
    (first second : SavedApplication)
    → first.info.name ≡ second.info.name
    → root_of (second ∷ first ∷ []) ≡ shared first second ∷ []
unfolding root_of
root_of-shared first second same =
    let e : str_eq first.info.name second.info.name ≡ true =
      (str_eq_iff first.info.name second.info.name).1 same in
    rw e refl

module _ ⦃k : Crates⦄ ⦃h : Hex⦄ where
  open h use {single}

  -- A deployment that was saved at a time since 1970 (its part of a second is not kept), and whose
  -- hash has 32 bytes.
  abbrev pub IsKept : SavedDeployment → Type 0
  IsKept s =
      (n : ℕ) × (s.timestamp.seconds ≡ pos n)
      × (n < 2 ^ 63)
      × (single (pos n) ≡ true)
      × IsHash s.hash

  abbrev pub IsKeptApp : SavedApplication → Type 0
  IsKeptApp a = IsUuid a.info.id × All IsKept a.deployments

  -- What stands in the directory of an application: the directories of its deployments, and its
  -- information.
  abbrev pub dir_of : SavedApplication → Outcome String RootEntry
  dir_of a = ok (app_dir (written (map dir_name a.deployments) a.info))

  abbrev pub put_apps : List SavedApplication → IdMap SavedApplication → IdMap SavedApplication
  put_apps [] m = m
  put_apps (a ∷ apps) m = put_apps apps (insert m a.info.id a)

  kept-read : (s : SavedDeployment) → IsKept s → read (dir_name s) ≡ some (cut s)
  kept-read s (n, e, fits, real, long) =
      subst
        (λ t.
          read (
            dir_name (record {
              timestamp = record { seconds = t; nanos = s.timestamp.nanos };
              hash = s.hash;
            }))
          ≡ some (record { timestamp = whole t; hash = s.hash }))
        (sym e) (read-positive n s.timestamp.nanos s.hash long real fits)

  kept-AllRead :
      (ds : List SavedDeployment) → All IsKept ds → AllRead read (map dir_name ds) (map cut ds)
  kept-AllRead [] t = tt
  kept-AllRead (s ∷ ds) (here, later) = (kept-read s here, kept-AllRead ds later)

  read_from-written :
      (apps : List SavedApplication) (m : IdMap SavedApplication)
      → All IsKeptApp apps
      → read_from read m (map dir_of apps) ≡ ok (put_apps (map whole_app apps) m)
  unfolding read_from
  read_from-written [] m t = refl
  read_from-written (a ∷ apps) m ((valid, kept), later) =
      rw
        (read_per_app-written read (map dir_name a.deployments) (map cut a.deployments) a.info valid
          (kept-AllRead a.deployments kept))
        (read_from-written apps (insert m a.info.id (whole_app a)) later)

  put_apps-collect_from :
      (apps : List SavedApplication) (m : IdMap SavedApplication)
      → put_apps apps m ≡ collect_from m (keyed apps)
  unfolding collect_from
  put_apps-collect_from [] m = refl
  put_apps-collect_from (a ∷ apps) m = put_apps-collect_from apps (insert m a.info.id a)

  put_apps-Distinct :
      (apps : List SavedApplication) → Distinct (keyed apps) → put_apps apps empty ≡ keyed apps
  unfolding from_pairs
  put_apps-Distinct apps d = put_apps-collect_from apps empty ∙ from_pairs-Distinct (keyed apps) d

  default_database-kept :
      (apps : List SavedApplication)
      → All IsKeptApp apps
      → DistinctIds apps
      → default_database read (ok other ∷ map dir_of apps)
        ≡ ok (record { apps = keyed (map whole_app apps); instances = [] })
  unfolding default_database read_inner read_apps read_from
  default_database-kept apps kept ids =
      rw (read_from-written apps empty kept)
        (rw (put_apps-Distinct (map whole_app apps) (keyed-Distinct apps ids)) refl)

  -- Where the last application that was saved has the name of one that was there, only its id is
  -- known after a restart, with the deployments of both: the other id is gone.
  pub default_database-shared :
      (first second : SavedApplication)
      → IsKeptApp first
      → IsKeptApp second
      → first.info.name ≡ second.info.name
      → default_database read (ok other ∷ map dir_of (root_of (second ∷ first ∷ [])))
        ≡ ok (record { apps = keyed (whole_app (shared first second) ∷ []); instances = [] })
  default_database-shared first second (_, kept) (valid, kept') same =
      let both = shared first second in
      ap (λ l. default_database read (ok other ∷ map dir_of l)) (root_of-shared first second same)
      ∙ default_database-kept (both ∷ [])
          ((valid, All-append IsKept first.deployments second.deployments kept kept'), tt) (tt, tt)

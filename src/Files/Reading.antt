-- ===== src/Files/Reading.antt =====
-- What is read from the directory of a daemon.
use mathlib.Core.List.{append-nil, append_assoc}
use laqista.Base.{
  ◌≡◌, refl, sym, ap, subst, String, List, [], ◌∷◌, ◌++◌, Option, none, some, Outcome, ok, err,
  panic, blocked, >>=-ok,
}
use laqista.IdMap.{Uuid, IdMap, empty, insert}
use laqista.IdMap.Keys.{Distinct, Entries, insert-Distinct, insert-Entries}
use laqista.Types.{Crates, DeploymentInfo, IsUuid}
use laqista.Types.Convert.{into_deployment}
use laqista.Types.RoundTrip.{deployment_info_from-into_deployment}
use laqista.Disk.{SavedDeployment, SavedApplication}
use laqista.Files.{
  Entry, file, deployment_dir, RootEntry, app_dir, other, read_entries, read_per_app, read_from,
  read_apps,
}

-- An application is kept under its own id.
abbrev pub AppAt : Uuid → SavedApplication → Type 0
AppAt k a = a.info.id ≡ k

module _ ⦃k : Crates⦄ where
  -- The entries that a daemon has written for an application: the directories of its deployments,
  -- in any number, and then the file with its information. They are read as that very application.
  abbrev pub written : List String → DeploymentInfo → List (Outcome String Entry)
  written [] info = ok (file (ok (into_deployment info))) ∷ []
  written (name ∷ names) info = ok (deployment_dir (some name)) ∷ written names info

module _ ⦃k : Crates⦄ (read_name : String → Option SavedDeployment) where
  read_from-Entries :
      (map m : IdMap SavedApplication) (entries : List (Outcome String RootEntry))
      → Distinct map
      → Entries AppAt map
      → read_from read_name map entries ≡ ok m
      → Distinct m × Entries AppAt m
  unfolding read_from
  read_from-Entries map m [] d at h =
      let same : map ≡ m = cc in subst (λ x. Distinct x × Entries AppAt x) same (d, at)
  read_from-Entries map m (err e ∷ entries) d at h = cc
  read_from-Entries map m (panic ∷ entries) d at h = cc
  read_from-Entries map m (blocked ∷ entries) d at h = cc
  read_from-Entries map m (ok other ∷ entries) d at h = read_from-Entries map m entries d at h
  read_from-Entries map m (ok (app_dir inner) ∷ entries) d at h =
      let (app, read, rest) = >>=-ok (read_per_app read_name inner) _ h in
      read_from-Entries (insert map app.info.id app) m entries
        (insert-Distinct map app.info.id app d) (insert-Entries AppAt map app.info.id app refl at)
        rest

  -- Whatever the directory holds: if it can be read, the map holds each application once, under its
  -- own id.
  pub read_apps-Entries :
      (entries : List (Outcome String RootEntry)) (m : IdMap SavedApplication)
      → read_apps read_name entries ≡ ok m
      → Distinct m × Entries AppAt m
  unfolding read_apps
  read_apps-Entries entries m h = read_from-Entries empty m entries tt tt h

  -- Each name is read as the deployment beside it.
  abbrev pub AllRead : List String → List SavedDeployment → Type 0
  AllRead [] [] = Unit
  AllRead (n ∷ ns) (d ∷ ds) = (read_name n ≡ some d) × AllRead ns ds
  AllRead _ _ = ⊥

  read_entries-written :
      (names : List String) (ds v : List SavedDeployment) (info : DeploymentInfo)
      → IsUuid info.id
      → AllRead names ds
      → read_entries read_name (written names info) v none ≡ ok (some info, v ++ ds)
  unfolding read_entries
  read_entries-written [] [] v info valid h =
      rw (deployment_info_from-into_deployment info valid)
        (ap (λ l. ok (some info, l)) (sym (append-nil v)))
  read_entries-written [] (d ∷ ds) v info valid h = absurd h
  read_entries-written (n ∷ ns) [] v info valid h = absurd h
  read_entries-written (n ∷ ns) (d ∷ ds) v info valid h =
      rw (h.0, read_entries-written ns ds (v ++ d ∷ []) info valid h.1)
        (ap (λ l. ok (some info, l)) (append_assoc v (d ∷ []) ds))

  -- The directory that a daemon has written for an application with a valid id, the names of its
  -- deployments first and then its information, is read as that application, with the deployments
  -- that the names are read as, in their order.
  pub read_per_app-written :
      (names : List String) (ds : List SavedDeployment) (info : DeploymentInfo)
      → IsUuid info.id
      → AllRead names ds
      → read_per_app read_name (written names info) ≡ ok (record { info = info; deployments = ds })
  unfolding read_per_app
  read_per_app-written names ds info valid h = rw (read_entries-written names ds [] info valid h)

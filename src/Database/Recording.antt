-- ===== src/Database/Recording.antt =====
-- What the database records, and which binary it gives out.
use laqista.Base.{
  ◌≡◌, ◌≢◌, ◌⊎◌, refl, ◌∙◌, String, false, if◌then◌else◌, List, [], ◌∷◌, ◌++◌, Option, none, some,
  is_none, arith, ok, err, last?, Outcome-cases, Option-cases, inl, inr, ◌==◌,
}
use laqista.IdMap.{Uuid, get}
use laqista.IdMap.Laws.{get-modify_or_insert}
use laqista.Types.{DeploymentInfo}
use laqista.Disk.{
  SavedDeployment, SavedApplication, Inner, Target, Disk, insert_saved, fetch, get_binary,
}
use laqista.Database.{add_app, add_instance}

last?-append : {A : Type 0} (xs : List A) (x : A) → last? (xs ++ x ∷ []) ≡ some x
last?-append [] x = refl
last?-append (y ∷ []) x = refl
last?-append (y ∷ z ∷ xs) x = last?-append (z ∷ xs) x

-- What an application's entry is once a deployment is saved.
abbrev pushed : DeploymentInfo → SavedDeployment → Option SavedApplication → SavedApplication
pushed info saved none = record { info = info; deployments = saved ∷ [] }
pushed info saved (some a) = record a { deployments = a.deployments ++ saved ∷ [] }

get-insert_saved :
    (m : Inner) (info : DeploymentInfo) (saved : SavedDeployment) (j : Uuid)
    → get (insert_saved m info saved).apps j
      ≡ (if info.id == j then some (pushed info saved (get m.apps info.id)) else get m.apps j)
unfolding insert_saved
get-insert_saved m info saved j =
    get-modify_or_insert m.apps info.id j
      (λ (a : SavedApplication). record a { deployments = a.deployments ++ saved ∷ [] })
      (record { info = info; deployments = saved ∷ [] })
    ∙ ground arith

instances-insert_saved :
    (m : Inner) (info : DeploymentInfo) (saved : SavedDeployment)
    → (insert_saved m info saved).instances ++ info.id ∷ [] ≡ m.instances ++ info.id ∷ []
unfolding insert_saved
instances-insert_saved m info saved = refl

last-pushed :
    (info : DeploymentInfo) (saved : SavedDeployment) (o : Option SavedApplication)
    → last? (pushed info saved o).deployments ≡ some saved
last-pushed info saved none = refl
last-pushed info saved (some a) = last?-append a.deployments saved

add_app-saved :
    (disk : Disk) (info : DeploymentInfo) (m m' : Inner)
    → add_app disk info m ≡ (ok tt, m')
    → (saved : SavedDeployment) × (fetch disk info ≡ ok saved) × (m' ≡ insert_saved m info saved)
unfolding add_app
add_app-saved disk info m m' h = elim (Outcome-cases (fetch disk info)) [
  | inl (s, e) ↦ (s, e, ground arith)
  | inr failed ↦ absurd (ground arith)
]

-- Once an application has been added, its binary is the one that has been saved just now, however
-- many deployments of it there were before.
pub get_binary-add_app :
    (shown : DeploymentInfo → String) (disk : Disk) (info : DeploymentInfo) (target : Target)
    (m m' : Inner)
    → add_app disk info m ≡ (ok tt, m')
    → (saved : SavedDeployment) × (fetch disk info ≡ ok saved)
      × (get_binary shown disk info target m' ≡ disk.read_binary info saved target)
unfolding get_binary
get_binary-add_app shown disk info target m m' h =
    let (saved, found, same) = add_app-saved disk info m m' h in
    let now : get m'.apps info.id ≡ some (pushed info saved (get m.apps info.id)) =
      rw same (ground (arith, get-insert_saved m info saved info.id)) in
    (saved, found, rw (now, last-pushed info saved (get m.apps info.id)))

-- What is left when an application that was not known has been fetched.
added :
    (disk : Disk) (info : DeploymentInfo) (m m' : Inner) (s : SavedDeployment)
    → get m.apps info.id ≡ none
    → fetch disk info ≡ ok s
    → add_instance disk info m ≡ (ok tt, m')
    → m' ≡ record (insert_saved m info s) {
      instances = (insert_saved m info s).instances ++ info.id ∷ [];
    }
unfolding add_instance add_app
added disk info m m' s unknown e h = ground arith

-- An instance that is added with success is the last one, its application is known, and no other
-- application changes.
pub add_instance_records :
    (disk : Disk) (info : DeploymentInfo) (m m' : Inner) (j : Uuid)
    → add_instance disk info m ≡ (ok tt, m')
    → info.id ≢ j
    → (m'.instances ≡ m.instances ++ info.id ∷ [])
      × (is_none (get m'.apps info.id) ≡ false)
      × (get m'.apps j ≡ get m.apps j)
unfolding add_instance add_app
add_instance_records disk info m m' j h other = elim (Option-cases (get m.apps info.id)) [
  | inr (a, known) ↦ (ground arith, ground arith, ground arith)
  | inl unknown ↦ elim (Outcome-cases (fetch disk info)) [
    | inl (s, e) ↦
        let now = added disk info m m' s unknown e h in
        rw now (
          instances-insert_saved m info s,
          ground (arith, get-insert_saved m info s info.id),
          ground (arith, get-insert_saved m info s j),
        )
    | inr failed ↦ absurd (ground arith)
  ]
]

-- One that fails has recorded nothing, unless it is the daemon that could not be told.
pub add_instance_fails :
    (disk : Disk) (info : DeploymentInfo) (m m' : Inner) (e : String)
    → add_instance disk info m ≡ (err e, m')
    → (m' ≡ m) ⊎ (disk.send_keep ≡ err e)
unfolding add_instance add_app
add_instance_fails disk info m m' e h = ground arith

-- ===== src/Daemon/Serving.antt =====
-- `common_services` of src/server/run.rs, built with the face detector: which applications a daemon
-- serves besides its own handlers.
use mathlib.Core.List.{Mem, mem-cons_self, mem-cons_of_mem}
use laqista.IdMap.{values}
use laqista.Base.{
  All, List, [], ◌∷◌, ◌⊎◌, ◌≢◌, Bool-cases, str_eq, str_eq_iff, ◌≡◌, refl, String, Option, none,
  some, Outcome, ok, err, ◌>>=◌, map_err, ok_inj, subst, sym, ◌∙◌, >>=-ok, inl, inr,
}
use laqista.Base.Text.{str_append}
use laqista.Types.{Error, text, app_instantiation, DeploymentInfo}
use laqista.Disk.{Inner, Disk, onnx, wasm, get_binary, lookup, find_named, SavedApplication}
use laqista.Face.Server.{Host, AbtsractServer, from_bytes, create}

-- An error of the database.
abbrev pub from_database : {A : Type 0} → Outcome String A → Outcome Error A
from_database =
    map_err (λ e. text (str_append "failed to read application binary from database: " e))

map_err-ok : {E K A : Type 0} (f : E → K) (o : Outcome E A) (a : A) → map_err f o ≡ ok a → o ≡ ok a
map_err-ok f (ok b) a e = cc
map_err-ok f (err b) a e = cc
map_err-ok f Outcome.panic a e = cc
map_err-ok f Outcome.blocked a e = cc

-- An application is found by its name, or none has it.
find_named-cases :
    (name : String) (apps : List SavedApplication)
    → ((find_named name apps ≡ none) × All (λ a. a.info.name ≢ name) apps)
      ⊎ ((a : SavedApplication) × Mem a apps
          × (a.info.name ≡ name)
          × (find_named name apps ≡ some a.info))
unfolding find_named
find_named-cases name [] = inl (refl, tt)
find_named-cases name (a ∷ apps) = elim (Bool-cases (str_eq a.info.name name)) [
  | inl e ↦ inr (a, mem-cons_self, (str_eq_iff a.info.name name).0 e, rw e refl)
  | inr e ↦ elim (find_named-cases name apps) [
    | inl (nothing, others) ↦
        inl (rw e nothing, ((λ p. cc (e, (str_eq_iff a.info.name name).1 p)), others))
    | inr (b, member, named, found) ↦ inr (b, mem-cons_of_mem a member, named, rw e found)
  ]
]

module _ (F : Type 0) ⦃h : Host F⦄ (shown : DeploymentInfo → String) (disk : Disk) where
  open h use {GpuSession}

  -- The server of the face detector that a deployment is for.
  unfoldable pub face_server : Inner → DeploymentInfo → Outcome Error (AbtsractServer GpuSession)
  unfolding get_binary create
  face_server m deployment = do
    model ← from_database (get_binary shown disk deployment onnx m)
    code ← from_database (get_binary shown disk deployment wasm m)
    map_err app_instantiation (create F model code)

  -- The router has the face detector if there is a deployment of this name.
  unfoldable pub common_services : Inner → Outcome Error (Option (AbtsractServer GpuSession))
  unfolding face_server
  common_services m = elim (lookup "face" m) [
    | some deployment ↦ face_server m deployment >>= λ server. ok (some server)
    | none ↦ ok none
  ]

  abbrev pub Serves : Inner → AbtsractServer GpuSession → DeploymentInfo → Type 0
  Serves m server deployment =
      (get_binary shown disk deployment onnx m ≡ ok server.onnx)
      × (get_binary shown disk deployment wasm m ≡ ok server.wasm)
      × (from_bytes F server.onnx ≡ ok server.session)

  face_server-Serves :
      (m : Inner) (deployment : DeploymentInfo) (server : AbtsractServer GpuSession)
      → face_server m deployment ≡ ok server
      → Serves m server deployment
  unfolding face_server create
  face_server-Serves m deployment server h =
      let (model, got_model, h) =
        >>=-ok (from_database (get_binary shown disk deployment onnx m)) _ h in
      let (code, got_code, h) =
        >>=-ok (from_database (get_binary shown disk deployment wasm m)) _ h in
      let (session, made, built) = >>=-ok (from_bytes F model) _ (map_err-ok _ _ server h) in
      subst (λ k. Serves m k deployment) (ok_inj built)
        (map_err-ok _ _ model got_model, map_err-ok _ _ code got_code, made)

  -- What it means that a daemon serves a face detector, or none: an application named "face" is
  -- saved, the detector has its binaries and the session of the first of them; or no application
  -- has that name.
  abbrev pub ServesFace : Inner → Option (AbtsractServer GpuSession) → Type 0
  ServesFace m none = All (λ a. a.info.name ≢ "face") (values m.apps)
  ServesFace m (some server) =
      (a : SavedApplication) × Mem a (values m.apps)
      × (a.info.name ≡ "face")
      × Serves m server a.info

  -- Whatever services a daemon comes to, by the applications that are saved: it serves a face
  -- detector exactly when one of them is named "face". The detector has the binaries of the last
  -- deployment of such an application, the model and the code, and the session of that model.
  pub common_services-deployed :
      (m : Inner) (served : Option (AbtsractServer GpuSession))
      → common_services m ≡ ok served
      → ServesFace m served
  unfolding common_services
  common_services-deployed m served h = elim (find_named-cases "face" (values m.apps)) [
    | inl (nothing, others) ↦
        let e : common_services m ≡ ok none = rw (common_services, nothing) refl in
        subst (ServesFace m) (ok_inj (sym e ∙ h)) others
    | inr (a, member, named, found) ↦
        let (server, e, given) =
          >>=-ok (face_server m a.info) (λ server. ok (some server))
            (sym (rw (common_services, found) refl) ∙ h) in
        subst (ServesFace m) (ok_inj given) (a, member, named, face_server-Serves m a.info server e)
  ]

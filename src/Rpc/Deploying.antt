-- ===== src/Rpc/Deploying.antt =====
-- What `deploy` and `deploy_in_us` leave behind.
use laqista.Base.{
  ◌≡◌, ◌⊎◌, ◌∙◌, true, false, [], ◌∷◌, ◌++◌, some, arith, ok, err, Bool-cases, Outcome-cases, inl,
  inr,
}
use laqista.Base.Task.{Shared}
use laqista.IdMap.{Uuid, get}
use laqista.IdMap.Laws.{get-insert}
use laqista.Types.{
  Crates, Error, ServerInfo, DeploymentInfo, SpawnResponse, DeployRequest, DeployResponse,
}
use laqista.Types.Convert.{into_deployment}
use laqista.Cluster.{get_instance_server_ids}
use laqista.Cluster.Instances.{ids_of, get_instance_server_ids-insert_instance}
use laqista.Runtime.{
  AppStore, RuntimeOf, choose_target, record_spawn, Network, spawn_on, save_deployment,
}
use laqista.Rpc.{deploy_in_us, deploy}

module _ ⦃k : Crates⦄ ⦃a : AppStore⦄ where
  -- What the two critical sections of `deploy_in_us` come to, once the spawn has succeeded.
  record Deployed (net : Network) (others : RuntimeOf → RuntimeOf) (d : DeploymentInfo)
      (m m' : Shared RuntimeOf) (resp : SpawnResponse) : Type 0 where
    target : ServerInfo
    chosen : choose_target m.inner ≡ ok target
    answered : spawn_on net d target ≡ ok resp
    written : m'.inner ≡ record_spawn d target (others m.inner)
    free : m'.held ≡ false

  deploy_in_us-Deployed :
      (net : Network) (others : RuntimeOf → RuntimeOf) (d : DeploymentInfo)
      (m m' : Shared RuntimeOf) (resp : SpawnResponse)
      → deploy_in_us net others d m ≡ (ok resp, m')
      → Deployed net others d m m' resp
  unfolding deploy_in_us
  deploy_in_us-Deployed net others d m m' resp h = elim (Bool-cases m.held) [
    | inl e ↦ absurd (ground arith)
    | inr e ↦ elim (Outcome-cases (choose_target m.inner)) [
      | inl (t, et) ↦ elim (Outcome-cases (spawn_on net d t)) [
        | inl (r, er) ↦ record {
          target = t;
          chosen = et;
          answered = ground arith;
          written = ground arith;
          free = ground arith;
        }
        | inr failed ↦ absurd (ground arith)
      ]
      | inr failed ↦ absurd (ground arith)
    ]
  ]

  -- A deployment that fails with an error has written nothing: what is left is the work of the
  -- other tasks, and the mutex is free.
  pub deploy_in_us_fails :
      (net : Network) (others : RuntimeOf → RuntimeOf) (d : DeploymentInfo)
      (m m' : Shared RuntimeOf) (e : Error)
      → deploy_in_us net others d m ≡ (err e, m')
      → ((m'.inner ≡ m.inner) ⊎ (m'.inner ≡ others m.inner)) × (m'.held ≡ false)
  unfolding deploy_in_us
  deploy_in_us_fails net others d m m' e h = ground arith

  spawn_on-success :
      (net : Network) (d : DeploymentInfo) (t : ServerInfo) (resp : SpawnResponse)
      → spawn_on net d t ≡ ok resp
      → resp.success ≡ true
  unfolding spawn_on
  spawn_on-success net d t resp h = ground arith

  abbrev pub info_of : Uuid → DeployRequest → DeploymentInfo
  info_of id request = record { id = id; name = request.name; source = request.source }

  -- The runtime after the database has taken the application in.
  abbrev pub saved : DeploymentInfo → Shared RuntimeOf → Shared RuntimeOf
  saved d m = record m { inner = (save_deployment d m.inner).1 }

  deploy-inner :
      (net : Network) (others : RuntimeOf → RuntimeOf) (id : Uuid) (request : DeployRequest)
      (m m' : Shared RuntimeOf) (resp : DeployResponse)
      → deploy net others id request m ≡ (ok resp, m')
      → (r : SpawnResponse) × (deploy_in_us net others
            (info_of id request)
            (saved (info_of id request) m)
          ≡ (ok r, m'))
        × (resp.success ≡ r.success)
        × (resp.deployment ≡ some (into_deployment (info_of id request)))
  unfolding deploy
  deploy-inner net others id request m m' resp h =
      let inner = deploy_in_us net others (info_of id request) (saved (info_of id request) m) in
      elim (Bool-cases m.held) [
        | inl e ↦ absurd (ground arith)
        | inr e ↦ elim (Outcome-cases inner.0) [
          | inl (r, er) ↦ (r, ground arith, ground arith, ground arith)
          | inr failed ↦ absurd (ground arith)
        ]
      ]

  deployments-record_spawn :
      (d : DeploymentInfo) (t : ServerInfo) (r : RuntimeOf)
      → get (record_spawn d t r).deployments d.id ≡ some d
  unfolding record_spawn
  deployments-record_spawn d t r = ground (arith, get-insert r.deployments d.id d.id d)

  ids-record_spawn :
      (d : DeploymentInfo) (t : ServerInfo) (r : RuntimeOf)
      → get_instance_server_ids (record_spawn d t r).cluster d.id
        ≡ ok (ids_of (get_instance_server_ids r.cluster d.id) ++ t.id ∷ [])
  unfolding record_spawn
  ids-record_spawn d t r =
      ground (arith, get_instance_server_ids-insert_instance r.cluster d (t ∷ []) d.id)

  -- A deployment that succeeds answers with success and with the deployment under its new id. It is
  -- known to the scheduler, runs on the chosen target behind the servers that it ran on already,
  -- and the mutex is free.
  pub deploy_registers :
      (net : Network) (others : RuntimeOf → RuntimeOf) (id : Uuid) (request : DeployRequest)
      (m m' : Shared RuntimeOf) (resp : DeployResponse)
      → deploy net others id request m ≡ (ok resp, m')
      → (target : ServerInfo) × (choose_target (saved (info_of id request) m).inner ≡ ok target)
        × (resp.success ≡ true)
        × (resp.deployment ≡ some (into_deployment (info_of id request)))
        × (get m'.inner.deployments id ≡ some (info_of id request))
        × (get_instance_server_ids m'.inner.cluster id
            ≡ ok (
                ids_of
                  (get_instance_server_ids (others (saved (info_of id request) m).inner).cluster id)
                ++ target.id ∷ []))
        × (m'.held ≡ false)
  deploy_registers net others id request m m' resp h =
      let d = info_of id request in
      let (r, inner, success, deployment) = deploy-inner net others id request m m' resp h in
      let p = deploy_in_us-Deployed net others d (saved d m) m' r inner in
      (
        p.target,
        p.chosen,
        success ∙ spawn_on-success net d p.target r p.answered,
        deployment,
        rw p.written (deployments-record_spawn d p.target _),
        rw p.written (ids-record_spawn d p.target _),
        p.free,
      )

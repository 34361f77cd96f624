-- ===== src/Cluster/Instances.antt =====
-- What the queries of a cluster answer after `insert_instance` and `insert_stats`.
use mathlib.Core.List.{map-append}
use laqista.Base.{
  ◌≡◌, ◌==◌, if◌then◌else◌, List, [], ◌++◌, map, none, some, arith, Outcome, ok, err, panic,
  blocked, Option-cases, inl, inr,
}
use laqista.IdMap.{Uuid, get}
use laqista.IdMap.Laws.{get-modify_or_insert}
use laqista.Types.{Error, ServerInfo, DeploymentInfo, AppInstancesInfo, MonitorWindow}
use laqista.Scheduler.Stats.{ServerStats, append}
use laqista.Cluster.{Cluster, insert_instance, insert_stats, get_instance_server_ids}

-- The ids that a query found, none if it failed.
abbrev pub ids_of : Outcome Error (List Uuid) → List Uuid
ids_of (ok ids) = ids
ids_of (err e) = []
ids_of panic = []
ids_of blocked = []

abbrev pub infos_ids : List ServerInfo → List Uuid
infos_ids = map (λ s. s.id)

-- After `insert_instance` its deployment runs on the servers that it ran on before, in front, and
-- on the new ones; the answer for any other deployment is the same, an error included.
pub get_instance_server_ids-insert_instance :
    (c : Cluster) (d : DeploymentInfo) (ss : List ServerInfo) (id : Uuid)
    → get_instance_server_ids (insert_instance c d ss) id ≡ (
        if d.id == id
        then ok (ids_of (get_instance_server_ids c d.id) ++ infos_ids ss)
        else get_instance_server_ids c id)
unfolding get_instance_server_ids insert_instance
get_instance_server_ids-insert_instance c d ss id =
    let add = λ (i : AppInstancesInfo). record i { servers = i.servers ++ ss } in
    let fresh : AppInstancesInfo = record { deployment = d; servers = ss } in
    let now = get-modify_or_insert c.instances d.id id add fresh in
    elim (Option-cases (get c.instances d.id)) [
      | inl e ↦ ground (arith, now)
      | inr (i, e) ↦ ground (arith, now, map-append (λ (s : ServerInfo). s.id) i.servers ss)
    ]

-- The windows that are stored for a server.
unfoldable pub reported : Cluster → Uuid → List MonitorWindow
reported c id = elim (get c.server_stats id) [ none ↦ [] | some s ↦ s.stats ]

-- A report adds its windows behind those of its own server, and leaves every other server's.
pub reported-insert_stats :
    (c : Cluster) (s : ServerStats) (id : Uuid)
    → reported (insert_stats c s) id
      ≡ (if s.server.id == id then reported c s.server.id ++ s.stats else reported c id)
unfolding reported insert_stats append
reported-insert_stats c s id =
    ground (arith, get-modify_or_insert c.server_stats s.server.id id (append s.stats) s)

-- ===== src/Rpc/Members.antt =====
-- Who belongs to the cluster: what `join`, `report` and `handle_failed_server` do to it.
use laqista.Base.{
  String, ◌≡◌, refl, ap, ◌∙◌, true, false, List, [], ◌∷◌, ◌++◌, Option, none, some, arith, ok, err,
  panic, inl, inr,
}
use laqista.Base.Task.{Shared}
use laqista.IdMap.{Uuid, empty}
use laqista.Types.{
  Crates, Status, transport_error, ServerInfo, Server, ClusterState, MonitorWindow, HasId,
}
use laqista.Types.Convert.{into_server, into_group, parse_uuid, server_info_from}
use laqista.Types.RoundTrip.{server_info_from-into_server, group_info_from-into_group}
use laqista.Scheduler.Stats.{ServerStats, from_stats}
use laqista.Cluster.{Cluster, insert_stats, into_cluster_state, cluster_from, remove_server}
use laqista.Cluster.Instances.{reported, reported-insert_stats}
use laqista.Base.{◌==◌, if◌then◌else◌}
use laqista.Cluster.Invariant.{IsWellFormed, insert_stats-IsWellFormed}
use laqista.Cluster.Removal.{
  DistinctIds, Lacks, without, remove_server-without, remove_server-Lacks, remove_server-splits,
}
use laqista.Daemon.{running}
use laqista.Runtime.{AppStore, RuntimeOf, push_server}
use laqista.Cluster.RoundTrip.{cluster_from-into_cluster_state}
use laqista.Daemon.Run.{Outside, join_cluster}
use laqista.Rpc.{join, report, handle_failed_server}

module _ ⦃k : Crates⦄ ⦃a : AppStore⦄ where
  -- Every branch of `join`, with the mutex free. A request without a server is a panic, and one
  -- with an invalid id an error; neither changes anything. A valid one is answered with the group,
  -- and the server is the last of the cluster then.
  pub join-cases :
      (s : Server) (info : ServerInfo) (m : Shared RuntimeOf)
      → m.held ≡ false
      → server_info_from s ≡ ok info
      → (join (record { server = none }) m ≡ (panic, m))
        × (join (record { server = some s }) m ≡ (
          ok (record { success = true; group = some (into_group m.inner.cluster.group) }),
          record { held = false; inner = push_server info m.inner },
        ))
  unfolding join push_server
  join-cases s info m free valid = (ground arith, ground arith)

  -- A server with a valid id that reaches a free scheduler, whose own id is valid, and is answered
  -- by its handler: it runs in the scheduler's group, and the scheduler has it, with its id and
  -- address, as the last of the servers.
  pub join_cluster-join :
      (out : Outside a.Store) (info : ServerInfo) (addr : String) (m : Shared RuntimeOf)
      → HasId info
      → HasId m.inner.cluster.group.scheduler_info
      → m.held ≡ false
      → out.connect addr ≡ ok tt
      → out.join (record { server = some (into_server info) })
        ≡ (join (record { server = some (into_server info) }) m).0
      → (join_cluster out info addr ≡ ok (running m.inner.cluster.group))
        × ((join (record { server = some (into_server info) }) m).1.inner.cluster.servers
            ≡ m.inner.cluster.servers ++ info ∷ [])
  unfolding join_cluster push_server
  join_cluster-join out info addr m id_valid scheduler_valid free connected answered =
      let (_, joined) =
        join-cases (into_server info) info m free (server_info_from-into_server info id_valid) in
      (
        ground (
          arith,
          connected,
          answered,
          joined,
          group_info_from-into_group m.inner.cluster.group scheduler_valid,
        ),
        ground (arith, joined),
      )

  rest_kept :
      (c : Cluster) (s : ServerStats)
      → record (insert_stats c s) { server_stats = empty } ≡ record c { server_stats = empty }
  unfolding insert_stats
  rest_kept c s = refl

  -- A report of a server with a valid id, to a free scheduler of a well-formed cluster. Of the
  -- server the scheduler has the windows that it had and the new ones behind them, and of every
  -- other server the windows that it had; the mutex is free, and nothing else has changed. What the
  -- answer holds is read back as the new cluster, without the statistics.
  pub report_answers :
      (info : ServerInfo) (windows : List MonitorWindow) (m : Shared RuntimeOf) (id : Uuid)
      → HasId info
      → m.held ≡ false
      → IsWellFormed m.inner.cluster
      → (state : ClusterState) × (report
            (record { server = some (into_server info); windows = windows })
            m
          ≡ (
            ok (record { success = true; cluster = some state }),
            record {
              held = false;
              inner = record m.inner {
                cluster = insert_stats m.inner.cluster (from_stats info windows);
              };
            },
          ))
        × (cluster_from state ≡ ok (record m.inner.cluster { server_stats = empty }))
        × (reported (insert_stats m.inner.cluster (from_stats info windows)) id ≡ (
            if info.id == id
            then reported m.inner.cluster info.id ++ windows
            else reported m.inner.cluster id))
  unfolding report
  report_answers info windows m id id_valid free w =
      let c = insert_stats m.inner.cluster (from_stats info windows) in
      (
        into_cluster_state c,
        ground (arith, server_info_from-into_server info id_valid),
        cluster_from-into_cluster_state c
              (insert_stats-IsWellFormed m.inner.cluster (from_stats info windows) id_valid w)
            ∙ ap ok (rest_kept m.inner.cluster (from_stats info windows)),
        reported-insert_stats m.inner.cluster (from_stats info windows) id,
      )

  remove_server-ok :
      (c : Cluster) (id : Uuid)
      → (o : Option ServerInfo) × (c' : Cluster) × (remove_server {E = Status} c id ≡ ok (o, c'))
  remove_server-ok c id = elim (remove_server-splits {E = Status} c id) [
    | inl (_, e) ↦ (none, c, e)
    | inr (before, s, after, _, _, _, e) ↦ (some s, record c { servers = before ++ after }, e)
  ]

  -- A server that is lost (a transport error), under a valid id, is taken out of the cluster of a
  -- free scheduler whose servers have distinct ids: no server of the cluster has its id then, and
  -- the servers of other ids are all there, in their order. One that has answered stays.
  pub failed_server_leaves :
      (e : String) (x : Unit {0}) (s : Server) (id : Uuid) (m : Shared RuntimeOf)
      → m.held ≡ false
      → parse_uuid s.id ≡ ok id
      → DistinctIds m.inner.cluster.servers
      → ((handle_failed_server {A = Unit {0}} (err (transport_error e)) s m).0 ≡ ok none)
        × Lacks id
            (handle_failed_server {A = Unit {0}}
              (err (transport_error e))
              s
              m).1.inner.cluster.servers
        × ((handle_failed_server {A = Unit {0}}
              (err (transport_error e))
              s
              m).1.inner.cluster.servers
            ≡ without id m.inner.cluster.servers)
        × (handle_failed_server {A = Unit {0}} (ok x) s m ≡ (ok none, m))
  unfolding handle_failed_server
  failed_server_leaves e x s id m free parsed distinct =
      let (o, c', removed) = remove_server-ok m.inner.cluster id in
      let (lacks, _, _) =
        remove_server-Lacks {E = Status} m.inner.cluster c' id o distinct removed in
      let others = remove_server-without {E = Status} m.inner.cluster c' id o distinct removed in
      (
        ground (arith, parsed, removed),
        rw (parsed, free, removed) lacks,
        rw (parsed, free, removed) others,
        refl,
      )

-- ===== src/Cluster/Received.antt =====
-- What `TryFrom<ClusterState>` makes of a message, whoever has sent it.
use laqista.Base.{
  ◌^◌, ◌<◌, ◌≡◌, refl, subst, List, [], ◌∷◌, arith, Outcome, ok, ok_or, collect, All, >>=-ok,
}
use laqista.IdMap.{Uuid, empty, from_pairs}
use laqista.IdMap.Keys.{Distinct, Entries, collect_from-Distinct', collect_from-Entries}
use laqista.Types.{
  Crates, text, GroupInfo, Group, DeploymentInfo, Deployment, AppInstancesInfo,
  AppInstanceLocations, ClusterState, IsUuid, HasId, HasIds,
}
use laqista.Types.Convert.{
  parse_uuid, server_info_from, group_info_from, deployment_info_from, instances_info_from,
}
use laqista.Types.RoundTrip.{server_info_from-HasId}
use laqista.Cluster.{Cluster, keyed_instances, cluster_from}
use laqista.Cluster.Invariant.{IsWellFormed, InstanceAt, StatsAt}

collect-All {ℓ κ μ ν} :
    {E : Type ℓ} {A : Type κ} {B : Type μ} (P : B → Type ν) (f : A → Outcome E B)
    → ((x : A) (y : B) → f x ≡ ok y → P y)
    → (xs : List A) (ys : List B) → collect f xs ≡ ok ys
    → All P ys
collect-All P f each [] ys h = let same : [] ≡ ys = cc in subst (All P) same tt
collect-All P f each (x ∷ xs) ys h =
    let (y, one, h₁) = >>=-ok (f x) _ h in
    let (rest, others, h₂) = >>=-ok (collect f xs) _ h₁ in
    let same : y ∷ rest ≡ ys = cc in
    subst (All P) same (each x y one, collect-All P f each xs rest others)

module _ ⦃k : Crates⦄ where
  group_info_from-HasId :
      (m : Group) (g : GroupInfo) → group_info_from m ≡ ok g → HasId g.scheduler_info
  unfolding group_info_from
  group_info_from-HasId m g h =
      let (s, found, h₁) = >>=-ok (ok_or (text "No scheduler") m.scheduler) _ h in
      let (info, read, h₂) = >>=-ok (server_info_from s) _ h₁ in
      let valid = server_info_from-HasId s info read in
      let same : record { number = m.number; scheduler_info = info } ≡ g = cc in
      subst (λ (x : GroupInfo). HasId x.scheduler_info) same valid

  deployment_info_from-IsUuid :
      (m : Deployment) (d : DeploymentInfo) → deployment_info_from m ≡ ok d → IsUuid d.id
  unfolding deployment_info_from parse_uuid
  deployment_info_from-IsUuid m d h = ground (arith, k.parse_str-lt m.id d.id)

  instances_info_from-HasIds :
      (m : AppInstanceLocations) (i : AppInstancesInfo) → instances_info_from m ≡ ok i → HasIds i
  unfolding instances_info_from
  instances_info_from-HasIds m i h =
      let (d, found, h₁) = >>=-ok (ok_or (text "Deployment cannot be empty") m.deployment) _ h in
      let (deployment, read, h₂) = >>=-ok (deployment_info_from d) _ h₁ in
      let (servers, listed, h₃) = >>=-ok (collect server_info_from m.locations) _ h₂ in
      let same : record { deployment = deployment; servers = servers } ≡ i = cc in
      subst HasIds same (
        deployment_info_from-IsUuid d deployment read,
        collect-All HasId server_info_from server_info_from-HasId m.locations servers listed,
      )

  keyed_instances-InstanceAt :
      (m : AppInstanceLocations) (e : Uuid × AppInstancesInfo)
      → keyed_instances m ≡ ok e
      → InstanceAt e.0 e.1
  keyed_instances-InstanceAt m e h =
      let (i, read, same) = >>=-ok (instances_info_from m) _ h in
      let valid = instances_info_from-HasIds m i read in
      let it : (i.deployment.id, i) ≡ e = cc in
      subst (λ (x : Uuid × AppInstancesInfo). InstanceAt x.0 x.1) it (refl, valid)

  -- A cluster that is read from a message, whatever the message holds, is well-formed, provided
  -- that the group's number is one of 32 bits, as it always is in a message.
  pub cluster_from-IsWellFormed :
      (state : ClusterState) (c : Cluster)
      → cluster_from state ≡ ok c
      → c.group.number < 2 ^ 32
      → IsWellFormed c
  unfolding cluster_from from_pairs
  cluster_from-IsWellFormed state c h number =
      let (g, found, h₁) = >>=-ok (ok_or (text "Group cannot be empty") state.group) _ h in
      let (group, read, h₂) = >>=-ok (group_info_from g) _ h₁ in
      let (servers, listed, h₃) = >>=-ok (collect server_info_from state.servers) _ h₂ in
      let (pairs, keyed, h₄) = >>=-ok (collect keyed_instances state.instances) _ h₃ in
      let same : record {
        group = group;
        servers = servers;
        instances = from_pairs pairs;
        server_stats = empty;
      }
          ≡ c =
        cc in
      record {
        scheduler =
            subst (λ (x : Cluster). HasId x.group.scheduler_info) same
              (group_info_from-HasId g group read);
        number = number;
        servers =
            subst (λ (x : Cluster). All HasId x.servers) same
              (collect-All HasId server_info_from server_info_from-HasId state.servers servers
                listed);
        instances_at =
            subst (λ (x : Cluster). Entries InstanceAt x.instances) same
              (collect_from-Entries InstanceAt [] pairs tt (
                collect-All (λ e. InstanceAt e.0 e.1) keyed_instances keyed_instances-InstanceAt
                  state.instances pairs keyed));
        instances_distinct =
            subst (λ (x : Cluster). Distinct x.instances) same (collect_from-Distinct' [] pairs tt);
        stats_at = subst (λ (x : Cluster). Entries StatsAt x.server_stats) same tt;
        stats_distinct = subst (λ (x : Cluster). Distinct x.server_stats) same tt;
      }

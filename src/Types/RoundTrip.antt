-- ===== src/Types/RoundTrip.antt =====
-- What is converted to a message and back is what it was, and what a message yields has valid ids.
use laqista.Base.{◌≡◌, refl, List, [], ◌∷◌, map, arith, ok, collect, All}
use laqista.Types.Errors.{Crates}
use laqista.Types.Messages.{Server}
use laqista.Types.Infos.{
  ServerInfo, GroupInfo, DeploymentInfo, AppInstancesInfo, IsUuid, HasId, HasIds,
}
use laqista.Types.Convert.{
  into_server, server_info_from, into_group, group_info_from, into_deployment, deployment_info_from,
  into_locations, instances_info_from,
}

module _ ⦃c : Crates⦄ where
  pub server_info_from-into_server :
      (s : ServerInfo) → HasId s → server_info_from (into_server s) ≡ ok s
  unfolding server_info_from into_server
  server_info_from-into_server s h = rw (c.parse_str-to_string s.id h)

  pub group_info_from-into_group :
      (g : GroupInfo) → HasId g.scheduler_info → group_info_from (into_group g) ≡ ok g
  unfolding group_info_from into_group
  group_info_from-into_group g h = rw (c.parse_str-to_string g.scheduler_info.id h)

  pub deployment_info_from-into_deployment :
      (d : DeploymentInfo) → IsUuid d.id → deployment_info_from (into_deployment d) ≡ ok d
  unfolding deployment_info_from into_deployment
  deployment_info_from-into_deployment d h = rw (c.parse_str-to_string d.id h)

  pub collect-map-into_server :
      (ss : List ServerInfo) → All HasId ss → collect server_info_from (map into_server ss) ≡ ok ss
  collect-map-into_server [] h = refl
  collect-map-into_server (s ∷ ss) h =
      rw (server_info_from-into_server s h.0, collect-map-into_server ss h.1)

  -- The instances of a deployment survive the trip as a message.
  pub instances_info_from-into_locations :
      (i : AppInstancesInfo) → HasIds i → instances_info_from (into_locations i) ≡ ok i
  unfolding instances_info_from into_locations
  instances_info_from-into_locations i h =
      rw (
        deployment_info_from-into_deployment i.deployment h.0,
        collect-map-into_server i.servers h.1,
      )

  pub server_info_from-HasId : (m : Server) (s : ServerInfo) → server_info_from m ≡ ok s → HasId s
  unfolding server_info_from
  server_info_from-HasId m s h = ground (arith, c.parse_str-lt m.id s.id)

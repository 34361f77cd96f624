-- ===== src/Types/Convert.antt =====
-- The constructors and conversions of src/lib.rs.
use Prim.Native.String.{String}
use laqista.Base.{ℕ, some, map, Outcome, ok, ◌>>=◌, ok_or, map_err, collect}
use laqista.Base.Text.{str_append}
use laqista.IdMap.{Uuid}
use laqista.Types.Errors.{Crates, Error, text, from_uuid}
use laqista.Types.Messages.{Server, Group, Deployment, AppInstanceLocations}
use laqista.Types.Infos.{ServerInfo, GroupInfo, DeploymentInfo, AppInstancesInfo}

-- `ServerInfo::with_id`
unfoldable pub with_id : String → Uuid → ServerInfo
with_id host id = record { id = id; addr = str_append "http://" host }

-- `GroupInfo::new` and `GroupInfo::with_number`
unfoldable pub new_group : ServerInfo → GroupInfo
new_group s = record { number = 0; scheduler_info = s }

unfoldable pub with_number : ServerInfo → ℕ → GroupInfo
with_number s n = record { number = n; scheduler_info = s }

module _ ⦃c : Crates⦄ where
  unfoldable pub parse_uuid : String → Outcome Error Uuid
  parse_uuid s = map_err from_uuid (c.parse_str s)

  unfoldable pub with_id_str : String → String → Outcome Error ServerInfo
  unfolding parse_uuid with_id
  with_id_str id host = do u ← parse_uuid id; ok (with_id host u)

  unfoldable pub into_server : ServerInfo → Server
  into_server s = record { id = c.to_string s.id; addr = s.addr }

  unfoldable pub server_info_from : Server → Outcome Error ServerInfo
  unfolding parse_uuid
  server_info_from s = do id ← parse_uuid s.id; ok (record { id = id; addr = s.addr })

  unfoldable pub into_group : GroupInfo → Group
  unfolding into_server
  into_group g = record { number = g.number; scheduler = some (into_server g.scheduler_info) }

  unfoldable pub group_info_from : Group → Outcome Error GroupInfo
  unfolding server_info_from
  group_info_from g = do
    s ← ok_or (text "No scheduler") g.scheduler
    info ← server_info_from s
    ok (record { number = g.number; scheduler_info = info })

  unfoldable pub into_deployment : DeploymentInfo → Deployment
  into_deployment d = record { id = c.to_string d.id; source = d.source; name = d.name }

  unfoldable pub deployment_info_from : Deployment → Outcome Error DeploymentInfo
  unfolding parse_uuid
  deployment_info_from d = do
    id ← parse_uuid d.id
    ok (record { id = id; name = d.name; source = d.source })

  unfoldable pub into_locations : AppInstancesInfo → AppInstanceLocations
  unfolding into_deployment into_server
  into_locations i = record {
    deployment = some (into_deployment i.deployment);
    locations = map into_server i.servers;
  }

  unfoldable pub instances_info_from : AppInstanceLocations → Outcome Error AppInstancesInfo
  unfolding deployment_info_from server_info_from
  instances_info_from l = do
    d ← ok_or (text "Deployment cannot be empty") l.deployment
    deployment ← deployment_info_from d
    servers ← collect server_info_from l.locations
    ok (record { deployment = deployment; servers = servers })

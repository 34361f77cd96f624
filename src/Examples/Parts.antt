-- ===== src/Examples/Parts.antt =====
-- The theorems on the policies, the comparison of states, the database, and what passes between a
-- daemon and an application.
use mathlib.Core.List.{Perm}
use laqista.Base.{◌≡◌, ◌↔◌, refl, false, List, [], ◌∷◌, some, ok}
use laqista.Base.Int.{ℤ, pos, ◌-ℤ◌, ◌+ℤ◌, ◌*ℤ◌, as_i64}
use laqista.IdMap.{modify_or_insert, values}
use laqista.Types.{Server}
use laqista.Types.Convert.{into_server}
use laqista.Scheduler.Stats.{ServerStats, StatsMap, windows_of}
use laqista.Scheduler.Mean.{cpu_utilized_rate, utilized_rate, schedule}
use laqista.Scheduler.Mean.Choice.{PickedAt, NoneBelow, AllRated, schedule-picks}
use laqista.Utils.{subtract_window, shl32, server_ids, servers_differ}
use laqista.Utils.Differs.{servers_differ_iff}
use laqista.Disk.{whole, SavedDeployment, Inner, Disk, wasm, fetch, get_binary}
use laqista.Database.{add_app}
use laqista.Database.Recording.{get_binary-add_app}
use laqista.Examples.Sample.{tallies, whole_numbers, server, face, window}

abbrev reports : StatsMap
reports =
    (2, record { server = server 2; stats = window 90 ∷ [] })
    ∷ (3, record { server = server 3; stats = window 10 ∷ [] })
    ∷ []

schedule-sample : schedule reports ≡ ok (some (server 2))
unfolding schedule utilized_rate windows_of ◌+ℤ◌ ◌*ℤ◌ subtract_window as_i64 ◌-ℤ◌ shl32
schedule-sample = refl

schedule-picks_example :
    (e : ServerStats) × (r : ℤ) × (e.server ≡ server 2)
    × PickedAt cpu_utilized_rate e r (values reports)
    × NoneBelow cpu_utilized_rate r (values reports)
schedule-picks_example = schedule-picks reports (server 2) schedule-sample

reports-AllRated : AllRated cpu_utilized_rate (values reports)
unfolding utilized_rate windows_of ◌+ℤ◌ ◌*ℤ◌ subtract_window as_i64 ◌-ℤ◌ shl32
reports-AllRated = ((pos 0, refl, refl), ((pos 0, refl, refl), tt))

abbrev two_servers : List Server
two_servers = into_server (server 1) ∷ into_server (server 2) ∷ []

servers_differ_iff_example :
    (servers_differ two_servers two_servers ≡ false)
    ↔ Perm (server_ids two_servers) (server_ids two_servers)
servers_differ_iff_example = servers_differ_iff two_servers two_servers

abbrev pub disk : Disk
disk = record {
  download = λ source. ok (1 ∷ 2 ∷ []);
  now = whole (pos 1700000000);
  sha256 = λ bin. bin;
  write_tgz = λ info saved tgz. ok tt;
  write_info = λ info. ok tt;
  read_binary = λ info saved target. ok saved.hash;
  send_keep = ok tt;
}

abbrev pub saved : SavedDeployment
saved = record { timestamp = whole (pos 1700000000); hash = 1 ∷ 2 ∷ [] }

abbrev nothing_yet : Inner
nothing_yet = record { apps = []; instances = [] }

abbrev pub known : Inner
known = record { apps = (7, record { info = face; deployments = saved ∷ [] }) ∷ []; instances = [] }

add_app-sample : add_app disk face nothing_yet ≡ (ok tt, known)
unfolding add_app modify_or_insert
add_app-sample = refl

get_binary-add_app_example :
    (s : SavedDeployment) × (fetch disk face ≡ ok s)
    × (get_binary (λ d. d.name) disk face wasm known ≡ disk.read_binary face s wasm)
get_binary-add_app_example =
    get_binary-add_app (λ d. d.name) disk face wasm nothing_yet known add_app-sample

-- ===== src/Examples/Sample.antt =====
-- A small world in which the theorems are applied: ids as tallies, a store that lists the ids that
-- it has seen, whole numbers for floating point, and a cluster of three servers.
use Prim.Native.String.{String}
use laqista.Base.{
  ℕ, zero, suc, ◌/◌, ◌^◌, ◌<◌, ◌≡◌, refl, ap, true, false, ltb, if◌then◌else◌, List, [], ◌∷◌, none,
  some, Outcome, ok, err, arith,
}
use laqista.Base.Int.{ℤ, pos, pos_part, ltb_ℤ, ◌+ℤ◌, ◌-ℤ◌, ◌*ℤ◌}
use laqista.IdMap.{Uuid}
use laqista.Types.{Crates, ServerInfo, DeploymentInfo, MonitorWindow}
use laqista.Scheduler.Mean.{Floats, mean_scheduler}
use laqista.Cluster.{Cluster}
use laqista.Cluster.Removal.{DistinctIds}
use laqista.Cluster.Invariant.{IsWellFormed}
use laqista.Runtime.{AppStore, SchedulerRuntime, Network}

abbrev pub tally : ℕ → String
tally zero = ""
tally (suc n) = String.◌∷◌ "i" (tally n)

abbrev pub count : String → ℕ
count String.[] = 0
count (String.◌∷◌ c s) = suc (count s)

abbrev pub read_tally : String → Outcome String ℕ
read_tally s = if ltb (count s) (2 ^ 128) then ok (count s) else err "too long"

count-tally : (n : ℕ) → count (tally n) ≡ n
count-tally zero = refl
count-tally (suc n) = ap suc (count-tally n)

pub read_tally-tally : (n : ℕ) → n < 2 ^ 128 → read_tally (tally n) ≡ ok n
read_tally-tally n h = ground (arith, count-tally n)

pub read_tally-lt : (s : String) (n : ℕ) → read_tally s ≡ ok n → n < 2 ^ 128
read_tally-lt s n h = ground arith

instance abbrev pub tallies : Crates
tallies = record {
  parse_str = read_tally;
  to_string = tally;
  display_status = λ s. s.message;
  parse_str-to_string = read_tally-tally;
  parse_str-lt = read_tally-lt;
}

instance abbrev pub id_list : AppStore
id_list = record {
  Store = List Uuid;
  add_app = λ d db. (ok tt, d.id ∷ db);
  add_instance = λ d db. (ok tt, d.id ∷ db);
}

abbrev pub div_ℤ : ℤ → ℤ → ℤ
div_ℤ a b = pos (pos_part a / pos_part b)

pub ltb_ℤ_irrefl : (x : ℤ) → ltb_ℤ x x ≡ false
ltb_ℤ_irrefl x = ground arith

pub ltb_ℤ_trans : (x y z : ℤ) → ltb_ℤ x y ≡ true → ltb_ℤ y z ≡ true → ltb_ℤ x z ≡ true
ltb_ℤ_trans x y z h k = ground arith

instance abbrev pub whole_numbers : Floats
whole_numbers = record {
  F64 = ℤ;
  of_i64 = λ z. z;
  to_i64 = λ z. z;
  add = ◌+ℤ◌;
  sub = ◌-ℤ◌;
  mul = ◌*ℤ◌;
  div = div_ℤ;
  lt = ltb_ℤ;
  lt_irrefl = ltb_ℤ_irrefl;
  lt_trans = ltb_ℤ_trans;
}

abbrev pub server : ℕ → ServerInfo
server n = record { id = n; addr = "http://host" }

abbrev pub face : DeploymentInfo
face = record { id = 7; name = "face"; source = "http://source" }

abbrev pub window : ℕ → MonitorWindow
window load = record {
  window = some (record {
    start = some (record { seconds = pos 10; nanos = pos 0 });
    end = some (record { seconds = pos 10; nanos = pos 100 });
  });
  utilization = some (record {
    cpu = pos load;
    ram_total = pos 8;
    ram_used = pos 1;
    gpu = pos load;
    vram_total = pos 8;
    vram_used = pos 1;
  });
}

-- Server 2 is the scheduler, and an instance of `face` runs on the server 3, which reports a load.
abbrev pub cluster : Cluster
cluster = record {
  group = record { number = 4; scheduler_info = server 2 };
  servers = server 2 ∷ server 3 ∷ server 1 ∷ [];
  instances = (7, record { deployment = face; servers = server 3 ∷ [] }) ∷ [];
  server_stats = (3, record { server = server 3; stats = window 90 ∷ [] }) ∷ [];
}

pub cluster-DistinctIds : DistinctIds cluster.servers
cluster-DistinctIds = (
  ((λ e. absurd (omega arith)), ((λ e. absurd (omega arith)), tt)),
  (((λ e. absurd (omega arith)), tt), (tt, tt)),
)

pub cluster-IsWellFormed : IsWellFormed cluster
cluster-IsWellFormed = record {
  scheduler = omega arith;
  number = omega arith;
  servers = (omega arith, (omega arith, (omega arith, tt)));
  instances_at = ((refl, (omega arith, (omega arith, tt))), tt);
  instances_distinct = (tt, tt);
  stats_at = ((refl, omega arith), tt);
  stats_distinct = (tt, tt);
}

abbrev pub runtime : SchedulerRuntime (List Uuid)
runtime = record {
  cluster = cluster;
  scheduler = mean_scheduler;
  deployments = (7, face) ∷ [];
  database = [];
}

-- A network in which every spawn succeeds.
abbrev pub reachable : Network
reachable = record {
  connect = λ s. ok tt;
  spawn = λ s request. ok (record { success = true; deployment = none; server = none });
}

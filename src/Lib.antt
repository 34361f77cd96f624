-- ===== src/Lib.antt =====
-- Laqista: a cluster of servers that run applications for clients. One server is the scheduler
-- of its group: servers join it and report their load, and clients deploy and look up
-- applications through it. Where the scheduler is lost, the reporters elect the next one among
-- the servers that are left.
--
-- Base, Chars, IdMap: what the parts share: the ends of a run (Outcome: a value, an error, a
--   panic, or waiting for a lock forever), machine integers (Base.Word: u8 and u64 as numbers
--   below their bound), sorting, cutting texts, asynchronous code over a mutex (Task), and the
--   maps from ids of src/utils.rs as association lists.
-- Types: the messages of proto/laqista.proto, the data and conversions of src/lib.rs and
--   laqista-core/src/lib.rs, the errors of src/error.rs.
-- Utils: src/utils.rs: subtract_window, cluster_differs and what it calls.
-- Scheduler: src/scheduler/stats.rs, interface.rs and mean.rs.
-- Cluster: Cluster of src/scheduler.rs, its methods by their names, TryFrom and
--   Into<ClusterState> as cluster_from and into_cluster_state. Cluster.Invariant says when a
--   cluster is well-formed.
-- Runtime, Rpc: SchedulerRuntime and AuthoritativeScheduler of src/scheduler.rs. A handler is a
--   task over the runtime behind its mutex. The mutex is not reentrant: who locks it twice is
--   blocked. What other tasks write while deploy_in_us waits for the network is its argument
--   `others`. Rpc.Finding and Scheduler.Mean.Total say when a lookup and the policy succeed.
-- Daemon: src/server/run.rs (Daemon.Run: run_start over the list of events that end its turns)
--   and src/server/server.rs (Daemon.Handlers). Daemon.Address is create_info and get_socket,
--   Daemon.Serving common_services, whose router is the optional face detector. Daemon.Reporters
--   keeps the reporters that services start, and Daemon.Starting is new, run and src/main.rs
--   with the command line.
-- Report: src/report.rs: the report of one window, put_cluster, and the election. Report.Task is
--   new, start and stop, the task that start_reporter spawns around start, and what the monitor
--   meets when the task is gone. Report.Succession is about elections one after another,
--   Report.Staleness about what put_cluster does not notice.
-- Monitor: src/monitor: Monitor.Parse is linux/parse.rs with the functions' names,
--   Monitor.Radeon linux/radeon.rs, Monitor.Apple apple.rs, Monitor.Report what both share with
--   src/utils.rs; Monitor.Nom states what is asked of the parser combinators, in the words of
--   Chars.
-- Disk, Database: src/deployment/database.rs; Disk.Naming is SavedDeployment::read and dir_name.
--   It fills the interface AppStore, through which the scheduler and the daemon use it.
-- Files: src/deployment/fs.rs: read_apps and read_per_app, Files.Archive write_tgz,
--   Files.Targets read_binary; Files.Restart what a daemon finds again of what it has written,
--   with a directory per name of an application; Files.Saving write_info and read_info, with
--   save in the directory of one application, and Files.Root open_dir_root.
-- Wasm: WasmPointer and WasmRunner (Wasm.Runner, whose compile is compile_with) of
--   laqista-core/src/wasm.rs, Memory and slice_to_i64 of apps/face-wasm/src, and its
--   interface.rs and grow_to (Wasm.Exits). Wasm.Growing is about the pages that a write asks
--   for.
-- Face: apps/face-wasm/src/lib.rs, whose functions run and get_prob_run are under main and
--   get_probability; Face.Server apps/face/src/server.rs with laqista-core/src/server.rs, and
--   Face.Detecting its run_detection. Face.Tensor is laqista-core/src/tensor.rs with
--   apps/face/src/proto.rs; Face.Calls, Face.Parameters and Face.Answering follow a request
--   through both sides of the memory. Face.Benching are the functions for benchmarks,
--   Face.Opening is apps/face/src/lib.rs, and Face.Shape the size of a tensor.
-- Hello: apps/hello/src/lib.rs.
-- Proxy: src/proxy.rs, over a connection that is a parameter. No other part uses it.
-- Retry: laqista-core/src/client.rs.
-- Examples: each theorem of the list below at a concrete case.
--
-- How the parts interact: the daemon's loop hands its scheduler (Runtime) to the handlers (Rpc),
-- whose join and spawn meet join_cluster and spawn of another daemon (Daemon); a report's answer
-- is the cluster as a message (Cluster), which the reporter keeps (Report) and elects from; the
-- command that it sends is one that the loop takes (Daemon.Run). The windows that the monitors
-- send (Monitor) are what a reporter reports and the policy reads (Scheduler); Monitor.Windows
-- says what becomes of them.
--
-- Abstract views: Cluster.Membership is the bag of server ids, where order and addresses are
-- forgotten, and Runtime.Refinement the promise that the operations on the membership keep on
-- it; Rpc.Reachable are the states that handlers reach, one after another and interleaved.
--
-- Parameters: the texts of ids and statuses (Crates), f64 (Floats), the network (Network, Peer,
-- Outside), the disk (Disk), the parser combinators of nom (Nom), the calendar of chrono
-- (Chrono), the reader of property lists (Plist), the printing of hashes (Hex), the access to
-- files (Access), pictures and sorting (Detection, Pictures), the server behind a proxy
-- (Upstream), the engine and the inference session (Host), the encoding of messages (Codec). Ids
-- have 128 bits, the group number 32 and wraps; nanoseconds are i32 and the length of a window
-- i64; an address of WebAssembly has 32 bits; a cell of its memory is a byte, and the numbers of
-- a slice are u64. The time of a saved deployment has nanoseconds, which the name of its
-- directory cuts off. A loop of the program is a recursion on the list it runs over, retry one
-- on its three attempts. Only Monitor.Apple.spawn takes a bound on its rounds: one round more
-- than there are lines is enough.
--
-- Not modelled: the formats of archives and messages, paths, the download, the wasm engine and
-- inference, the parsing of the command line. They are calls into other crates. Of the monitors'
-- tasks, the start of the other program.
pub mod Base
pub mod Chars
pub mod IdMap
pub mod Types
pub mod Utils
pub mod Scheduler
pub mod Cluster
pub mod Runtime
pub mod Monitor
pub mod Rpc
pub mod Daemon
pub mod Report
pub mod Disk
pub mod Database
pub mod Files
pub mod Wasm
pub mod Hello
pub mod Proxy
pub mod Retry
pub mod Face
pub mod Examples

-- ===== src/Daemon/Starting.antt =====
-- From the command line to the loop: src/server/cmd.rs, `ServerRunner` of src/server/run.rs with
-- `new` and `run`, and src/main.rs. The parsing of the command line is of the crate clap.
use laqista.Base.{
  ℕ, ◌≡◌, String, List, [], ◌∷◌, Option, some, Outcome, ok, err, panic, blocked, ◌>>=◌, map_ok,
  expect, to_option, >>=-ok,
}
use laqista.Types.{Crates, Error, ServerInfo}
use laqista.Scheduler.Mean.{Floats}
use laqista.Daemon.{DaemonState, joining, update}
use laqista.Daemon.Address.{Addresses, get_socket, create_info}
use laqista.Daemon.Run.{
  Outside, Event, serviced, join_cluster, start_service, determine_state, next_state, turn,
  run_start,
}

pub record StartCommand : Type 0 where
  pub bootstrap_addr : Option String
  pub listen_host : String
  pub id : Option String

pub data ServerCommand : Type 0 where
  start : StartCommand → ServerCommand

-- `Cli` with `Commands`
pub record Cli : Type 0 where
  pub command : ServerCommand

abbrev pub default_host : String
default_host = "127.0.0.1:50051"

module _ ⦃a : Addresses⦄ where
  -- The channel of the runner is the list of events that its loop gets.
  pub record ServerRunner (S : Type 0) : Type 0 where
    pub command : ServerCommand
    pub socket : a.Ip × ℕ
    pub database : S

  module _ {S : Type 0} where
    -- `ServerRunner::new`, with how the database is read. A host that does not parse is a panic.
    unfoldable pub new : Outcome Error S → ServerCommand → Outcome Error (ServerRunner S)
    new default command = do
      socket ← expect (to_option (a.parse default_host))
      database ← default
      ok (record { command = command; socket = socket; database = database })

    module _ ⦃k : Crates⦄ ⦃f : Floats⦄ where
      -- The start of `run_start`: the socket, the own information and the first state.
      unfoldable pub run_command :
          ServerRunner S → StartCommand → List (Event S) → Outcome Error (DaemonState S)
      unfolding get_socket create_info determine_state run_start
      run_command runner start_command events = do
        socket ← get_socket start_command.listen_host
        info ← create_info socket start_command.id
        run_start info runner.database
            (determine_state start_command.bootstrap_addr info runner.database) events

      -- `ServerRunner::run`
      unfoldable pub run : ServerRunner S → List (Event S) → Outcome Error (DaemonState S)
      unfolding run_command
      run runner events = elim runner.command [ start subcmd ↦ run_command runner subcmd events ]

      -- `main`
      unfoldable pub main : Outcome Error S → Cli → List (Event S) → Outcome Error (DaemonState S)
      unfolding new run
      main default cli events = do runner ← new default cli.command; run runner events

      -- The state that a service ends in is the next one.
      updated :
          (database : S) (state final : DaemonState S) (o : Outcome Error (DaemonState S))
          → (map_ok (next_state database state) (map_ok update o) >>= λ next. ok next) ≡ ok final
          → o ≡ ok final
      unfolding next_state
      updated database state final (ok new) h = h
      updated database state final (err e) h = h
      updated database state final panic h = h
      updated database state final blocked h = h

      -- A daemon that is started with the address of a scheduler and has joined it runs in the
      -- group of which the scheduler tells it. It has joined under the information that its own
      -- command line makes.
      pub run_command-joins :
          (runner : ServerRunner S) (c : StartCommand) (addr : String) (out : Outside S)
          (final : DaemonState S)
          → run_command runner (record c { bootstrap_addr = some addr }) (serviced out ∷ [])
            ≡ ok final
          → (socket : a.Ip × ℕ) × (info : ServerInfo) × (get_socket c.listen_host ≡ ok socket)
            × (create_info socket c.id ≡ ok info)
            × (join_cluster out info addr ≡ ok final)
      unfolding run_command run_start turn start_service determine_state
      run_command-joins runner c addr out final h =
          let (socket, listens, h) = >>=-ok (get_socket c.listen_host) _ h in
          let (info, named, h) = >>=-ok (create_info socket c.id) _ h in
          (
            socket,
            info,
            listens,
            named,
            updated runner.database (joining addr) final (join_cluster out info addr) h,
          )

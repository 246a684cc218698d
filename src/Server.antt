-- ===== src/Server.antt =====
-- main.cpp, server.h and server.cpp of both programs: what main makes of its argument and of the
-- configuration file, and which io_service GetIoService gives. Parameters: whether a file can be
-- opened (`accessible`), the number of threads that the machine has (`pool`), and those of Config and
-- of the two Startup modules. Threads, and so OnStop, which nothing calls, are left out.
pub mod Picking
pub mod Running
use r_nat.Common.{
  ℕ, zero, suc, ◌+◌, ◌%◌, ◌^◌, Option, none, some, List, [], ◌∷◌, Bool, true, false, ◌==◌,
  if◌then◌else◌, length, ◌>>=◌,
}
use r_nat.Protocol.{Bytes}
use r_nat.Endpoint.{Endpoint}
use r_nat.Config.{Config, Xml, Loading, refused, crashed, ready, relay_init, agent_init}
use r_nat.Relay.Startup as Relay
use r_nat.Agent.Startup as Agent

-- `pool` is the length of ioservices_. A size_t has 64 bits here.
pub record Server : Type 0 where
  pub pool : ℕ
  pub next_ioservice : ℕ

abbrev pub new_server : ℕ → Server
new_server pool = record { pool = pool; next_ioservice = 0 }

-- GetIoService: the index of the io_service; `none` is the division by zero.
unfoldable pub get_io_service : Server → Option (ℕ × Server)
get_io_service s =
    if s.pool == 0
    then none
    else some
        (s.next_ioservice % s.pool, record s { next_ioservice = (s.next_ioservice + 1) % 2 ^ 64 })

-- Calls of GetIoService in a row.
unfoldable pub get_io_services : ℕ → Server → Option (List ℕ × Server)
unfolding get_io_service
get_io_services zero s = some ([], s)
get_io_services (suc n) s = get_io_service s >>= λ (p : ℕ × Server).
    get_io_services n p.1 >>= λ (q : List ℕ × Server). some (p.0 ∷ q.0, q.1)

-- How main ends: with -1; with 0 after an exception that OnRuning reports; in a fault, or in an
-- exception that nothing catches; or not, while the threads run.
pub data Outcome (A : Type 0) : Type 0 where
  fails reports terminates : Outcome A
  runs : A → Outcome A

-- "config.xml", unless the command line names a file.
abbrev pub config_file : Option Bytes → Bytes
config_file none = 99 ∷ 111 ∷ 110 ∷ 102 ∷ 105 ∷ 103 ∷ 46 ∷ 120 ∷ 109 ∷ 108 ∷ []
config_file (some name) = name

-- What main does with what ConfigManager::init gives.
abbrev with_config : {A : Type 0} → Loading → (Config → Outcome A) → Outcome A
with_config refused f = fails
with_config crashed f = terminates
with_config (ready c) f = f c

abbrev main :
    {A : Type 0}
    → (Bytes → Bool)
    → (Bytes → Loading)
    → Option Bytes
    → (Config → Outcome A)
    → Outcome A
main accessible load argument running =
    let file = config_file argument in
    let loaded = with_config (load file) running in if accessible file then loaded else fails

-- OnRuning: an exception of Init is a std::exception, which is reported; where Init gives false, a
-- string literal is thrown; Start runs on a thread, where nothing catches.
abbrev start_relay :
    (Endpoint → Bool) → ℕ → Config → Option (Relay.Relay × Bool) → Outcome Relay.Relay
start_relay listen pool c none = reports
start_relay listen pool c (some (r, false)) = terminates
start_relay listen pool c (some (r, true)) =
    let started = Relay.start_up listen c r in
    if pool == 0 then terminates else elim started [ none ↦ terminates | some q ↦ runs q ]

-- main of r-nat-s. With no io_service, `seq % ioservices_.size()` of the agents' server faults.
unfoldable pub relay_main :
    (Bytes → Bool)
    → Xml
    → (Bytes → Bytes → List Endpoint)
    → Bool
    → (Endpoint → Bool)
    → ℕ
    → Option Bytes
    → Outcome Relay.Relay
relay_main accessible xml resolve signed listen pool argument =
    main accessible (relay_init xml) argument
      (λ c. start_relay listen pool c (Relay.init resolve signed c))

-- A started agent, and the io_services of the clients of relays_, in their order.
pub record Started : Type 0 where
  pub agent : Agent.Agent
  pub server : Server
  pub io_services : List ℕ

abbrev with_clients : Agent.Agent → Option (List ℕ × Server) → Outcome Started
with_clients a none = terminates
with_clients a (some (io_services, s)) =
    runs (record { agent = Agent.start_up a; server = s; io_services = io_services })

abbrev start_agent : ℕ → Option (Agent.Agent × Bool) → Outcome Started
start_agent pool none = reports
start_agent pool (some (a, false)) = terminates
start_agent pool (some (a, true)) =
    with_clients a (get_io_services (length a.remote_ep) (new_server pool))

-- main of r-nat-c.
unfoldable pub agent_main :
    (Bytes → Bool)
    → Xml
    → (Bytes → Bytes → List Endpoint)
    → (Bytes → ℕ)
    → Bool
    → ℕ
    → Option Bytes
    → Outcome Started
unfolding get_io_services
agent_main accessible xml resolve atol signed pool argument =
    main accessible (agent_init xml) argument
      (λ c. start_agent pool (Agent.init resolve atol signed c))

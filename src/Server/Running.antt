-- ===== src/Server/Running.antt =====
-- main of both programs, from the configuration file on.
use Prim.Native.String.{String}
use r_nat.Common.{
  ℕ, ◌+◌, ◌^◌, ◌<◌, ◌≡◌, refl, Option, some, List, [], ◌∷◌, Bool, true, false, ◌==◌, length, arith,
}
use r_nat.Protocol.{Bytes}
use r_nat.Endpoint.{Endpoint}
use r_nat.Config.{Config, Xml, AddressInfo, ready, agent_init, agent_config, is_empty}
use r_nat.Relay.Startup as Relay
use r_nat.Agent.Startup as Agent
use r_nat.Agent.Startup.Endpoints.{init_lem}
use r_nat.Agent.Startup.Tunnels.{starts, wanted, start_up-starts}
use r_nat.Server.{new_server, runs, config_file, agent_main, Started}
use r_nat.Server.Picking.{remainders, picks, IsFair, get_io_services-IsFair}

-- A file whose root is the node `config`.
pub record HasConfig (xml : Xml) (file : Bytes) : Type 0 where
  pub root : String → Option xml.Node
  pub config : xml.Node
  pub parsed : xml.document file ≡ some root
  pub rooted : root "config" ≡ some config

module _ (xml : Xml) (file : Bytes) (h : HasConfig xml file) where
  agent_init-ready :
      is_empty (agent_config xml h.config).remotes ≡ false
      → is_empty (agent_config xml h.config).locals ≡ false
      → agent_init xml file ≡ ready (agent_config xml h.config)
  unfolding agent_init
  agent_init-ready e f = rw (h.parsed, h.rooted, e, f, agent_init) refl

some_remotes :
    (resolve : Bytes → Bytes → List Endpoint) (remotes : List AddressInfo) (eps : List Endpoint)
    → Agent.resolve_remotes resolve remotes [] ≡ some eps
    → (length eps == 0) ≡ false
    → is_empty remotes ≡ false
unfolding Agent.resolve_remotes
some_remotes resolve [] eps e n = absurd (ground (arith, e, n))
some_remotes resolve (a ∷ others) eps e n = refl

some_services :
    (resolve : Bytes → Bytes → List Endpoint) (atol : Bytes → ℕ) (signed : Bool) (c : Config)
    (a : Agent.Agent) (locals : List AddressInfo)
    → c.locals ≡ locals
    → Agent.init resolve atol signed c ≡ some (a, true)
    → is_empty locals ≡ false
unfolding Agent.init Agent.resolve_services
some_services resolve atol signed c a (l ∷ ls) e i = refl
some_services resolve atol signed c a [] e i = absurd (ground (arith, e, i))

-- The agent's main: with a file that can be opened and that has a configuration on which Init succeeds,
-- on a machine that names its number of threads and with fewer than 2^64 connections to make and threads to make them on, the
-- program runs, starts one client for each endpoint of remote_ep_ in order and nothing else, as many as
-- the remotes of the file ask for and at least one, and gives them the io_services in turn; and the next calls of GetIoService, as many as there are
-- io_services, give each of them exactly once.
pub agent_main-starts :
    (accessible : Bytes → Bool) (xml : Xml) (resolve : Bytes → Bytes → List Endpoint)
    (atol : Bytes → ℕ) (signed : Bool) (pool : ℕ) (argument : Option Bytes)
    (h : HasConfig xml (config_file argument)) (a : Agent.Agent)
    → accessible (config_file argument) ≡ true
    → Agent.init resolve atol signed (agent_config xml h.config) ≡ some (a, true)
    → length a.remote_ep + pool < 2 ^ 64
    → 0 < pool
    → (q : Started) × (agent_main accessible xml resolve atol signed pool argument ≡ runs q)
      × (q.agent.app.effects ≡ starts 0 a.remote_ep [])
      × (q.agent.relays ≡ wanted resolve (agent_config xml h.config).remotes)
      × (0 < q.agent.relays)
      × (q.io_services ≡ remainders pool 0 (length a.remote_ep))
      × IsFair q.server
unfolding agent_main
agent_main-starts accessible xml resolve atol signed pool argument h a can_open inited few p =
    let c = agent_config xml h.config in
    let (m, _, _, remotes, some_eps) = init_lem resolve atol signed c a inited in
    let loaded =
      agent_init-ready xml (config_file argument) h
        (some_remotes resolve c.remotes a.remote_ep remotes some_eps)
        (some_services resolve atol signed c a c.locals refl inited) in
    let picked = picks (length a.remote_ep) (new_server pool) p (omega (arith, few)) in
    let (effects, relays, some_relays) = start_up-starts resolve atol signed c a inited in
    let s = record (new_server pool) { next_ioservice = 0 + length a.remote_ep } in
    (
      record {
        agent = Agent.start_up a;
        server = s;
        io_services = remainders pool 0 (length a.remote_ep);
      },
      rw (can_open, loaded, inited, picked, agent_main) refl,
      effects,
      relays,
      some_relays,
      refl,
      get_io_services-IsFair s p (omega (arith, few)),
    )

-- ===== src/Tests/StartupTests.antt =====
-- Both programs from their configuration on.
use r_nat.Common.{
  ℕ, ◌+◌, ◌*◌, ◌<◌, ◌≡◌, ◌≢◌, refl, Option, none, some, List, [], ◌∷◌, ◌++◌, Bool, true, false,
  ◌==◌, ◌||◌, arith, lookup, insert, length, nat_key, update,
}
use r_nat.Protocol.{Bytes, R2a, put_r2a, parse_r2a}
use r_nat.Endpoint.{Endpoint}
use r_nat.Text.{trim, same_text}
use r_nat.Config.{Config, AddressInfo, default_system, default_address, load_policy}
use r_nat.Config.{Xml, agent_config}
use r_nat.Server.{Started, runs, config_file, agent_main}
use r_nat.Server.Picking.{remainders, IsFair}
use r_nat.Server.Running.{HasConfig, agent_main-starts}
use r_nat.Relay.Startup as Relay
use r_nat.Agent.Startup as Agent
use r_nat.Relay.User.{cli_index}
use r_nat.Agent.Tunnel.{on_connect, on_server_connect, on_server_recv, open_session}
use r_nat.Agent.Step.{Event, server_connects, server_sends, step, run}
use r_nat.Agent.Sessions.{IsOpened}
use r_nat.Agent.Startup.Endpoints.{IsFound, init-on_connect}
use r_nat.Agent.Startup.Tunnels.{starts, wanted}

abbrev here : Endpoint
here = record { address = 1; port = 443 }

abbrev found : Bytes → Bytes → List Endpoint
found address port = here ∷ []

-- atol, on one digit.
abbrev digit : Bytes → ℕ
digit [] = 0
digit (b ∷ bs) = b

abbrev node : AddressInfo
node = record default_address {
  address = 32 ∷ 97 ∷ [];
  port = 52 ∷ [];
  service_port = 80 ∷ [];
  concurrency = 3;
}

abbrev config : Config
config = record { system = default_system; locals = node ∷ []; remotes = node ∷ [] }

abbrev any_port : Endpoint → Bool
any_port ep = true

-- A parsed file whose one node has the attributes of `node`, and all groups.
abbrev one_node : Xml
one_node = record {
  Node = Unit {0};
  document = λ file. some (λ name. some tt);
  first_attribute = λ n name. some (52 ∷ []);
  nodes = λ n name. tt ∷ [];
  extract = λ t bs old. 3;
}

abbrev readable : Bytes → Bool
readable file = true

abbrev on_root : HasConfig one_node (config_file none)
on_root = record { root = λ name. some tt; config = tt; parsed = refl; rooted = refl }

abbrev agent : Agent.Agent
agent = record {
  app = Agent.new_app found digit true config ((80, here ∷ []) ∷ []);
  remote_ep = here ∷ here ∷ here ∷ [];
  relays = 0;
}

agent-init : Agent.init found digit true config ≡ some (agent, true)
unfolding Agent.init trim lookup r_nat.Common.insert
agent-init = refl

-- A user came before.
abbrev earlier : List Event
earlier = server_connects 0 ∷ server_sends 0 (put_r2a (R2a.connect 80 5 1 2)) ∷ []

init-on_connect_example :
    let s = run earlier (Agent.start_up agent).app in
    (0 < length (here ∷ []))
    × (o : IsOpened s (on_connect 0 80 6 1 s) 0 80 6 1 (here ∷ [])) × IsFound found digit
        config.locals 80 o.endpoint
unfolding lookup insert run step on_server_connect on_server_recv on_connect open_session parse_r2a
    put_r2a cli_index Agent.start_up load_policy same_text
init-on_connect_example =
    init-on_connect found digit true config agent earlier 0 80 6 1 (here ∷ []) agent-init refl refl

abbrev file_agent : Agent.Agent
file_agent = record {
  app = Agent.new_app found digit true (agent_config one_node tt) ((52, here ∷ []) ∷ []);
  remote_ep = here ∷ here ∷ here ∷ [];
  relays = 0;
}

file_agent-init : Agent.init found digit true (agent_config one_node tt) ≡ some (file_agent, true)
unfolding Agent.init trim lookup insert agent_config
file_agent-init = refl

agent_main-starts_example :
    (q : Started) × (agent_main readable one_node found digit true 2 none ≡ runs q)
    × (q.agent.app.effects ≡ starts 0 (here ∷ here ∷ here ∷ []) [])
    × (q.agent.relays ≡ wanted found (agent_config one_node tt).remotes)
    × (0 < q.agent.relays)
    × (q.io_services ≡ remainders 2 0 3)
    × IsFair q.server
agent_main-starts_example =
    agent_main-starts readable one_node found digit true 2 none on_root file_agent refl
      file_agent-init (omega arith) (omega arith)

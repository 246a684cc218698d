-- ===== src/Tests/HostingTests.antt =====
-- The relay of RelayTests as a directory, and a relay that accepts its first agent.
use r_nat.Common.{
  none, some, List, [], ◌∷◌, true, false, ◌==◌, if◌then◌else◌, ◌≡◌, refl, arith, nat_key, lookup,
  insert,
}
use r_nat.Endpoint.{Endpoint}
use r_nat.Connection.{Connection}
use r_nat.TcpServer.{
  TcpServer, Settings, Effect, async_accept, post_start, connected, tcp_ops, configure_tcp,
  start_next_connection, on_accept, get_next_seq, search_seq,
}
use r_nat.Relay.Step.{agent_connects, agent_disconnects, step}
use r_nat.Relay.Registry.Invariant.{IsRegistered, Admits}
use r_nat.Relay.Directory.{Directory, Matches, Agrees, advance, providers_of}
use r_nat.Relay.Directory.Refinement.{step-Agrees}
use r_nat.Relay.Hosting.{Host, begins, accepts, here, next}
use r_nat.Relay.Hosting.Admission.{HostReach-Admits}
use r_nat.Tests.RelayTests.{empty_relay, user_session, relay_with, listening, relay-IsRegistered}

abbrev seven_at_80 : Directory
seven_at_80 = record {
  connected = λ a. 7 == a;
  providers = λ p. if 80 == p then (7, tt) ∷ [] else [];
}

relay-Matches : Matches (relay_with user_session) seven_at_80
unfolding lookup providers_of
relay-Matches = record { connected = λ a. ground arith; providers = λ p. ground arith }

step-Agrees_example :
    Agrees
      (step listening (agent_disconnects 7) (relay_with user_session))
      (advance listening (agent_disconnects 7) seven_at_80)
step-Agrees_example =
    step-Agrees listening (agent_disconnects 7) (relay_with user_session) seven_at_80
      relay-IsRegistered relay-Matches

abbrev nobody : Directory
nobody = record { connected = λ a. false; providers = λ p. [] }

empty_relay-Matches : Matches empty_relay nobody
unfolding lookup providers_of
empty_relay-Matches = record { connected = λ a. refl; providers = λ p. refl }

abbrev host_settings : Settings
host_settings = record {
  max_packet_length = 70000;
  recv_buf_length = 8192;
  nodelay = 1;
  defragment = 0;
}

-- What the server asked for before.
abbrev asked : List Effect
asked = []

abbrev at_80 : Endpoint
at_80 = record { address = 0; port = 80 }

abbrev server : TcpServer Connection
server = record {
  inited = true;
  next_seq = 0;
  port = 80;
  settings = host_settings;
  acceptors = at_80 ∷ [];
  conns = [];
  on_connect = true;
  on_disconnect = true;
  on_recv = true;
  effects = asked;
}

abbrev idle : Host
idle = record {
  server = server;
  app = empty_relay;
  pending = λ a. false;
  opened = λ a. false;
  posted = [];
}

abbrev accepting : TcpServer Connection
accepting = record server {
  next_seq = 1;
  conns = (1, configure_tcp host_settings) ∷ [];
  effects = async_accept at_80 1 ∷ [];
}

server-accepting : start_next_connection tcp_ops at_80 server ≡ some accepting
unfolding start_next_connection get_next_seq search_seq lookup insert
server-accepting = refl

abbrev accepted_one : TcpServer Connection
accepted_one = record server {
  next_seq = 2;
  conns = (1, configure_tcp host_settings) ∷ (2, configure_tcp host_settings) ∷ [];
  effects = async_accept at_80 2 ∷ post_start 1 ∷ connected 1 ∷ async_accept at_80 1 ∷ [];
}

server-accepted : on_accept tcp_ops 1 at_80 none accepting ≡ some accepted_one
unfolding on_accept start_next_connection get_next_seq search_seq lookup insert
server-accepted = refl

HostReach-Admits_example : Admits (agent_connects 1) empty_relay × IsRegistered empty_relay
HostReach-Admits_example =
    HostReach-Admits {listens = listening} {h = idle} (agent_connects 1) []
      (record {
        services = refl;
        agents = refl;
        pending = λ a. refl;
        opened = λ a. refl;
        posted = refl;
      })
      (next (next here (begins idle at_80 accepting server-accepting))
        (accepts _ 1 at_80 accepted_one refl refl refl server-accepted))
      refl

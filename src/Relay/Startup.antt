-- ===== src/Relay/Startup.antt =====
-- AppLogic1::Init and Start of r-nat-s/app1/app1.cpp. The resolver is the parameter `resolve`: what it
-- finds for an address and a port. `none` is an exception.
pub mod Listening
use r_nat.Common.{
  ℕ, Option, none, some, List, [], ◌∷◌, ◌++◌, Bool, true, false, not, map, ◌>>=◌, length, ◌==◌,
}
use r_nat.Protocol.{Bytes}
use r_nat.Endpoint.{Endpoint}
use r_nat.Text.{trim}
use r_nat.Config.{Config, AddressInfo, load_policy}
use r_nat.Connection.{Connection}
use r_nat.TcpServer.{TcpServer, tcp_ops, start}
use r_nat.TcpServer.Setting.{
  new_tcp_server, set_max_packet_length, set_no_delay, set_recvbuf_size, set_defragment,
}
use r_nat.Relay.State.{App, new_session}

-- The application with listenep_ and agent_tcpserver_.
pub record Relay : Type 0 where
  pub app : App
  pub listenep : List Endpoint
  pub server : Option (TcpServer Connection)

-- The loop over the local addresses.
unfoldable pub resolve_locals :
    (Bytes → Bytes → List Endpoint) → List AddressInfo → List Endpoint → Option (List Endpoint)
resolve_locals resolve [] found = some found
resolve_locals resolve (a ∷ others) found =
    trim a.address >>= λ address. resolve_locals resolve others (found ++ resolve address a.port)

abbrev pub empty_app : Bool → Config → App
empty_app char_is_signed c = record {
  load_policy = load_policy c.system;
  queue_limit = c.system.queue_limit;
  char_is_signed = char_is_signed;
  services = [];
  agents = [];
  service_at = λ r. record { port = 0; agents = []; sessions = [] };
  session_at = λ r. new_session;
  next_ref = 0;
  effects = [];
}

-- Init; its result is false where no address was found.
unfoldable pub init : (Bytes → Bytes → List Endpoint) → Bool → Config → Option (Relay × Bool)
unfolding resolve_locals
init resolve char_is_signed c = resolve_locals resolve c.locals [] >>= λ eps. some (
  record { app = empty_app char_is_signed c; listenep = eps; server = none },
  not (length eps == 0),
)

-- The agents' server before it starts.
abbrev pub new_server : Config → TcpServer Connection
new_server c = set_defragment c.system.packet_defragment (
    set_recvbuf_size c.system.recv_buf_size (
      set_no_delay c.system.tcp_send_no_delay
        (set_max_packet_length c.system.max_packet_size new_tcp_server)))

-- Start. What the server's Start gives is not looked at.
unfoldable pub start_up : (Endpoint → Bool) → Config → Relay → Option Relay
start_up listen c r =
    start tcp_ops listen r.listenep (new_server c) >>= λ s. some (record r { server = some s.0 })

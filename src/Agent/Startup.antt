-- ===== src/Agent/Startup.antt =====
-- AppLogic1::Init, Start and Stop of r-nat-c/app1/app1.cpp. Parameters: what the resolver finds for an
-- address and a port, and atol. `none` is an exception.
pub mod Sets
pub mod Services
pub mod Endpoints
pub mod Tunnels
use r_nat.Common.{
  ℕ, zero, suc, ◌+◌, ◌%◌, ◌^◌, Option, none, some, List, [], ◌∷◌, ◌++◌, Bool, true, false, not,
  ◌&&◌, map, ◌>>=◌, length, ◌==◌, Map, KeySet, Key, nat_key, lookup, insert, if◌then◌else◌,
}
use r_nat.Protocol.{Bytes}
use r_nat.Endpoint.{Endpoint, endpoint_key}
use r_nat.Text.{trim}
use r_nat.Config.{Config, AddressInfo, load_policy}
use r_nat.Agent.State.{
  App, RemoteInfo, Effect, Client, tunnel_conn, start, close, emit, set_remote, new_session,
}

-- The application with remote_ep_ and the number of relays_; the relay at an index of relays_ is the
-- remote of that number.
pub record Agent : Type 0 where
  pub app : App
  pub remote_ep : List Endpoint
  pub relays : ℕ

-- A std::set of endpoints as the list that the application walks.
abbrev pub add_endpoint : Endpoint → List Endpoint → List Endpoint
add_endpoint ep eps =
    map (λ (x : Endpoint × Unit {0}). x.0) (insert ep tt (map (λ (e : Endpoint). (e, tt)) eps))

abbrev pub endpoints_at : ℕ → Map ℕ (List Endpoint) → List Endpoint
endpoints_at port service_ep = elim (lookup port service_ep) [ none ↦ [] | some eps ↦ eps ]

-- service_ep_[service_port].insert(endpoint) for each endpoint found.
unfoldable pub add_service : ℕ → List Endpoint → Map ℕ (List Endpoint) → Map ℕ (List Endpoint)
add_service port [] service_ep = service_ep
add_service port (ep ∷ eps) service_ep =
    add_service port eps (insert port (add_endpoint ep (endpoints_at port service_ep)) service_ep)

-- Each endpoint as often as `concurrency` says.
unfoldable pub repeat : ℕ → Endpoint → List Endpoint
repeat zero ep = []
repeat (suc n) ep = ep ∷ repeat n ep

unfoldable pub repeat_each : ℕ → List Endpoint → List Endpoint
unfolding repeat
repeat_each n [] = []
repeat_each n (ep ∷ eps) = repeat n ep ++ repeat_each n eps

-- The loop over the remotes.
unfoldable pub resolve_remotes :
    (Bytes → Bytes → List Endpoint) → List AddressInfo → List Endpoint → Option (List Endpoint)
unfolding repeat_each
resolve_remotes resolve [] found = some found
resolve_remotes resolve (a ∷ others) found = trim a.address >>= λ address.
    resolve_remotes resolve others (found ++ repeat_each a.concurrency (resolve address a.port))

module _ (resolve : Bytes → Bytes → List Endpoint) (atol : Bytes → ℕ) where
  -- The loop over the services.
  unfoldable pub resolve_services :
      List AddressInfo → Map ℕ (List Endpoint) → Option (Map ℕ (List Endpoint))
  unfolding add_service
  resolve_services [] service_ep = some service_ep
  resolve_services (a ∷ others) service_ep = trim a.address >>= λ address.
      resolve_services others
        (add_service (atol a.service_port % 2 ^ 16) (resolve address a.port) service_ep)

  abbrev pub new_app : Bool → Config → Map ℕ (List Endpoint) → App
  new_app char_is_signed c service_ep = record {
    load_policy = load_policy c.system;
    queue_limit = c.system.queue_limit;
    char_is_signed = char_is_signed;
    service_ports = map (λ (a : AddressInfo). atol a.service_port % 2 ^ 16) c.locals;
    service_ep = service_ep;
    remote_at = λ r. record { ep = record { address = 0; port = 0 }; tunnel = 0; users = [] };
    session_at = λ r. new_session;
    next_ref = 0;
    effects = [];
  }

  abbrev init_remotes : Config → App → Option (Agent × Bool)
  init_remotes c app = resolve_remotes resolve c.remotes [] >>= λ eps.
      some (record { app = app; remote_ep = eps; relays = 0 }, not (length eps == 0))

  -- Init; its result is false where no service or no remote was found.
  unfoldable pub init : Bool → Config → Option (Agent × Bool)
  unfolding resolve_services resolve_remotes
  init char_is_signed c = resolve_services c.locals [] >>= λ service_ep.
      let app = new_app char_is_signed c service_ep in
      if length service_ep == 0
      then some (record { app = app; remote_ep = []; relays = 0 }, false)
      else init_remotes c app

-- The first loop of Start: a remote for each endpoint, numbered from `n`.
unfoldable pub create_relays : ℕ → List Endpoint → App → App
create_relays n [] s = s
create_relays n (ep ∷ eps) s =
    create_relays (suc n) eps (set_remote n (record { ep = ep; tunnel = 0; users = [] }) s)

-- The second: each remote's client is started, the `count` ones from `n` on.
unfoldable pub start_relays : ℕ → ℕ → App → App
start_relays n zero s = s
start_relays n (suc count) s =
    start_relays (suc n) count (emit (start (tunnel_conn n 0) (s.remote_at n).ep) s)

-- Start, which the program calls once, while relays_ is empty.
unfoldable pub start_up : Agent → Agent
unfolding create_relays start_relays
start_up a =
    let count = length a.remote_ep in
    record a { app = start_relays 0 count (create_relays 0 a.remote_ep a.app); relays = count }

unfoldable pub close_relays : ℕ → ℕ → App → App
close_relays n zero s = s
close_relays n (suc count) s =
    close_relays (suc n) count (emit (close (tunnel_conn n (s.remote_at n).tunnel)) s)

-- Stop.
unfoldable pub stop : Agent → Agent
unfolding close_relays
stop a = record a { app = close_relays 0 a.relays a.app; relays = 0 }

-- ===== src/Relay/State.antt =====
-- r-nat-s/app1/app1.h, and __CleanSession and Stop of app1.cpp. Sessions and services stand behind
-- shared pointers: a reference is a number, and a store gives its object. An AgentInfo is held by
-- agents_ alone. A call of a network object is an entry of `effects`, newest first. The handlers
-- run on one strand, one at a time.
use r_nat.Common.{
  ℕ, Option, none, some, List, [], ◌∷◌, Bool, false, ◌&&◌, if◌then◌else◌, Map, nat_key, KeySet,
  Store, update, lookup, insert, erase,
}
use r_nat.Protocol.{Bytes}

pub record Session : Type 0 where
  pub seq : ℕ
  pub agent_id : ℕ
  pub using_session_conn : Bool
  pub user_traffic : ℕ
  pub tunnel_traffic : ℕ
  pub user_corked : Bool
  pub tunnel_corked : Bool
  pub user_disconnected : Bool
  pub tunnel_disconnected : Bool
  pub tunnel_hard_disconnected : Bool

pub record ServiceInfo : Type 0 where
  pub port : ℕ
  pub agents : KeySet
  pub sessions : Map ℕ ℕ

pub record AgentInfo : Type 0 where
  pub seq : ℕ
  pub ports : KeySet
  pub sessions : Map ℕ ℕ

-- The callbacks that a send hands over, with what they capture.
pub data Sent : Type 0 where
  tunnel_sent : (service session seq queue_limit : ℕ) → Sent
  user_sent : (service session seq queue_limit : ℕ) → Sent

-- Calls of agent_tcpserver_, and of the service_tcpserver_ of a service.
pub data Effect : Type 0 where
  agent_send : ℕ → Bytes → Effect
  agent_send_v : ℕ → List Bytes → Sent → Effect
  agent_block_recv : ℕ → Bool → Effect
  agent_close_all : Effect
  service_start : ℕ → ℕ → Effect
  service_send : ℕ → ℕ → Bytes → Sent → Effect
  service_block_recv : ℕ → ℕ → Bool → Effect
  service_close_user : ℕ → ℕ → Effect
  service_close : ℕ → Effect

-- Config::CONFIG_LOAD_POLICY.
pub data LoadPolicy : Type 0 where
  by_ip by_seq : LoadPolicy

pub record App : Type 0 where
  pub load_policy : LoadPolicy
  pub queue_limit : ℕ
  pub char_is_signed : Bool  -- the target's `char`
  pub services : Map ℕ ℕ
  pub agents : Map ℕ AgentInfo
  pub service_at : Store ServiceInfo
  pub session_at : Store Session
  pub next_ref : ℕ
  pub effects : List Effect

abbrev pub emit : Effect → App → App
emit e s = record s { effects = e ∷ s.effects }

abbrev pub set_session : ℕ → Session → App → App
set_session r ses s = record s { session_at = update s.session_at r ses }

abbrev pub set_service : ℕ → ServiceInfo → App → App
set_service r svc s = record s { service_at = update s.service_at r svc }

abbrev pub set_agent : ℕ → AgentInfo → App → App
set_agent k a s = record s { agents = insert k a s.agents }

-- A Session as its constructor leaves it.
abbrev pub new_session : Session
new_session = record {
  seq = 0;
  agent_id = 0;
  using_session_conn = false;
  user_traffic = 0;
  tunnel_traffic = 0;
  user_corked = false;
  tunnel_corked = false;
  user_disconnected = false;
  tunnel_disconnected = false;
  tunnel_hard_disconnected = false;
}

abbrev pub forget_in_agent : Option AgentInfo → ℕ → ℕ → App → App
forget_in_agent none k seq s = s
forget_in_agent (some a) k seq s = set_agent k (record a { sessions = erase seq a.sessions }) s

unfoldable pub forget : ℕ → Session → App → App
forget service ses s =
    let svc = s.service_at service in
    let s1 = set_service service (record svc { sessions = erase ses.seq svc.sessions }) s in
    let s2 = emit (service_close_user service ses.seq) s1 in
    forget_in_agent (lookup ses.agent_id s2.agents) ses.agent_id ses.seq s2

-- __CleanSession(service, session).
unfoldable pub clean_session : ℕ → ℕ → App → App
unfolding forget
clean_session service session s =
    let ses = s.session_at session in
    if ses.user_disconnected && ses.tunnel_disconnected then forget service ses s else s

unfoldable pub close_services : Map ℕ ℕ → List Effect → List Effect
close_services [] es = es
close_services ((port, service) ∷ rest) es = close_services rest (service_close service ∷ es)

-- Stop().
unfoldable pub stop : App → App
unfolding close_services
stop s = record s {
  services = [];
  agents = [];
  effects = close_services s.services (agent_close_all ∷ s.effects);
}

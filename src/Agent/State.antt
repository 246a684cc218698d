-- ===== src/Agent/State.antt =====
-- r-nat-c/app1/app1.h, and __CleanSession of app1.cpp. Sessions and remotes stand behind shared
-- pointers: a reference is a number, and a store gives its object. A call of a client object is an
-- entry of `effects`, newest first. The handlers run on one strand, one at a time.
use r_nat.Common.{
  ℕ, Option, List, ◌∷◌, Bool, true, false, ◌&&◌, if◌then◌else◌, Map, Key, nat_key, Store, update,
  erase, ltb, ◌==◌, ◌≡◌, ◌↔◌, ◌||◌, arith,
}
use r_nat.Protocol.{Bytes}
pub use r_nat.Endpoint.{Endpoint}
use r_nat.Relay.State.{LoadPolicy}

-- A port and a user's number: std::pair<uint16_t, uint32_t>, in the order of std::pair.
abbrev pub User : Type 0
User = ℕ × ℕ

abbrev pub same_user : User → User → Bool
same_user (p, i) (q, j) = p == q && i == j

abbrev pub user_before : User → User → Bool
user_before (p, i) (q, j) = ltb p q || (p == q && ltb i j)

pub same_user_iff : (a b : User) → (same_user a b ≡ true) ↔ (a ≡ b)
same_user_iff (p, i) (q, j) = ground arith

instance abbrev pub user_key : Key User
user_key = record { same = same_user; before = user_before; same_iff = same_user_iff }

pub record Session : Type 0 where
  pub session_conn_ready : Bool
  pub user_traffic : ℕ
  pub tunnel_traffic : ℕ
  pub user_corked : Bool
  pub tunnel_corked : Bool
  pub user_disconnected : Bool
  pub tunnel_disconnected : Bool
  pub tunnel_hard_disconnected : Bool

-- `tunnel` counts the clients that tcpclient_ has held.
pub record RemoteInfo : Type 0 where
  pub ep : Endpoint
  pub tunnel : ℕ
  pub users : Map User ℕ

-- A client object: user_conn_ and session_conn_ of a session, tcpclient_ of a remote.
pub data Client : Type 0 where
  user_conn : ℕ → Client
  session_conn : ℕ → Client
  tunnel_conn : (remote number : ℕ) → Client

-- The callbacks that a send hands over, with what they capture.
pub data Sent : Type 0 where
  tunnel_sent : (remote session : ℕ) → User → Sent
  user_sent : (remote session : ℕ) → User → Sent

pub data Effect : Type 0 where
  start : Client → Endpoint → Effect
  send : Client → Bytes → Option Sent → Effect
  send_v : Client → List Bytes → Sent → Effect
  block_recv : Client → Bool → Effect
  close : Client → Effect
  post_reconnect : ℕ → Effect

pub record App : Type 0 where
  pub load_policy : LoadPolicy
  pub queue_limit : ℕ
  pub char_is_signed : Bool  -- the target's `char`
  pub service_ports : List ℕ  -- (uint16_t)atol of the configured services' ports
  pub service_ep : Map ℕ (List Endpoint)
  pub remote_at : Store RemoteInfo
  pub session_at : Store Session
  pub next_ref : ℕ
  pub effects : List Effect

abbrev pub emit : Effect → App → App
emit e s = record s { effects = e ∷ s.effects }

abbrev pub set_session : ℕ → Session → App → App
set_session r ses s = record s { session_at = update s.session_at r ses }

abbrev pub set_remote : ℕ → RemoteInfo → App → App
set_remote r rem s = record s { remote_at = update s.remote_at r rem }

-- A Session as its constructor leaves it.
abbrev pub new_session : Session
new_session = record {
  session_conn_ready = false;
  user_traffic = 0;
  tunnel_traffic = 0;
  user_corked = false;
  tunnel_corked = false;
  user_disconnected = false;
  tunnel_disconnected = false;
  tunnel_hard_disconnected = false;
}

-- __CleanSession(remoteinfo, session, usr).
unfoldable pub clean_session : ℕ → ℕ → User → App → App
clean_session remote session usr s =
    let ses = s.session_at session in
    let rem = s.remote_at remote in
    if ses.user_disconnected && ses.tunnel_disconnected
    then set_remote remote (record rem { users = erase usr rem.users })
        (emit (close (session_conn session)) (emit (close (user_conn session)) s))
    else s

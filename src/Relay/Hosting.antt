-- ===== src/Relay/Hosting.antt =====
-- The relay's application together with the server of its agents (agent_tcpserver_): the server
-- announces connections and their ends to the application by functions on the application's strand,
-- which run one at a time in the order of their posting.
pub mod Fits
pub mod Known
pub mod Admission
use r_nat.Common.{ℕ, ◌≡◌, Option, none, some, List, [], ◌∷◌, ◌++◌, Bool, true, false, Store, update}
use r_nat.Endpoint.{Endpoint}
use r_nat.Connection.{Connection, ErrorCode, Failure}
use r_nat.TcpServer.{TcpServer, tcp_ops, start_next_connection, on_accept, on_conn_disconnect}
use r_nat.TcpServer.Numbers.{is_aborted}
use r_nat.Relay.State.{App}
use r_nat.Relay.Step.{
  Event, agent_connects, agent_disconnects, agent_sends, user_connects, user_disconnects,
  user_sends, completes, step,
}

-- `pending` are the numbers on which asio accepts, `opened` those announced and not ended, and `posted`
-- the functions that wait on the strand, oldest first.
pub record Host : Type 0 where
  pub server : TcpServer Connection
  pub app : App
  pub pending : Store Bool
  pub opened : Store Bool
  pub posted : List Event

-- An event that is no connection of an agent and no end of one.
abbrev pub is_other : Event → Bool
is_other (agent_connects seq) = false
is_other (agent_disconnects seq) = false
is_other (agent_sends seq buf) = true
is_other (user_connects service seq ip port) = true
is_other (user_disconnects service seq) = true
is_other (user_sends service seq buf) = true
is_other (completes sent) = true

-- Steps until Stop: Start begins to accept; an accept succeeds or fails; an announced connection ends,
-- which it reports once; something else is posted; the strand runs the oldest function.
pub data HostStep (listens : ℕ → Option Bool) : Host → Host → Type 0 where
  begins :
      (h : Host) (acceptor : Endpoint) (t : TcpServer Connection)
      → start_next_connection tcp_ops acceptor h.server ≡ some t
      → HostStep listens h (record h { server = t; pending = update h.pending t.next_seq true })
  accepts :
      (h : Host) (seq : ℕ) (acceptor : Endpoint) (t : TcpServer Connection)
      → h.pending seq ≡ true
      → h.server.inited ≡ true
      → h.server.on_connect ≡ true
      → on_accept tcp_ops seq acceptor none h.server ≡ some t
      → HostStep listens h (record h {
        server = t;
        pending = update (update h.pending seq false) t.next_seq true;
        opened = update h.opened seq true;
        posted = h.posted ++ agent_connects seq ∷ [];
      })
  fails :
      (h : Host) (seq : ℕ) (acceptor : Endpoint) (e : Failure) (t : TcpServer Connection)
      → h.pending seq ≡ true
      → h.server.inited ≡ true
      → h.server.on_connect ≡ true
      → is_aborted (some e) ≡ false
      → on_accept tcp_ops seq acceptor (some e) h.server ≡ some t
      → HostStep listens h
          (record h { server = t; pending = update (update h.pending seq false) t.next_seq true })
  ends :
      (h : Host) (seq : ℕ) (e : ErrorCode) (t : TcpServer Connection)
      → h.opened seq ≡ true
      → on_conn_disconnect seq e h.server ≡ some t
      → HostStep listens h (record h {
        server = t;
        opened = update h.opened seq false;
        posted = h.posted ++ agent_disconnects seq ∷ [];
      })
  posts :
      (h : Host) (e : Event)
      → is_other e ≡ true
      → HostStep listens h (record h { posted = h.posted ++ e ∷ [] })
  runs :
      (h : Host) (e : Event) (rest : List Event) (u : App)
      → h.posted ≡ e ∷ rest
      → step listens e h.app ≡ some u
      → HostStep listens h (record h { app = u; posted = rest })

pub data HostReach (listens : ℕ → Option Bool) (s : Host) : Host → Type 0 where
  here : HostReach listens s s
  next : {t u : Host} → HostReach listens s t → HostStep listens t u → HostReach listens s u

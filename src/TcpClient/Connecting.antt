-- ===== src/TcpClient/Connecting.antt =====
-- From Start of r-nat-c/network/tcpclient.cpp to the connection or its failure.
use r_nat.Common.{
  suc, ◌≡◌, refl, ap, ◌∙◌, none, some, List, [], ◌∷◌, ◌++◌, true, false, length, arith, is_some,
  Option-cases, inl, inr,
}
use r_nat.Protocol.{Bytes}
use r_nat.Endpoint.{Endpoint}
use r_nat.Connection.{
  Connection, Callback, Failure, do_send, do_recv, send, shut_down, disconnected, shutdown,
}
use r_nat.Connection.Stream.{stream, written, queued, stream-do_send}
use r_nat.Connection.Writing.{writes, Wire, complete, do_send-IsSettled, complete-IsDrained}
use r_nat.Connection.Delivery.{frames, send_all, stream-send_all, has_socket-send_all, wire_of}
use r_nat.TcpClient.{
  ClientConnection, TcpClient, connected, cancel_timer, on_connect, on_connect_timeout, start,
  make_tcp, tcp_client_ops, tcp_connecting,
}

-- A client that has been started and is not connected yet.
pub record IsConnecting (c : Connection) : Type 0 where
  pub socket : c.has_socket ≡ true
  pub allocator : c.on_allocbuf ≡ true
  pub waiting : is_some c.sending_pkt ≡ true
  pub unwritten : written c.effects ≡ []

-- While it connects, Send only queues.
send-IsConnecting :
    (pkt : Bytes) (pfn : Callback) (c : Connection) → IsConnecting c → IsConnecting (send pkt pfn c)
unfolding send do_send
send-IsConnecting pkt pfn c h = ground arith

send_all-IsConnecting :
    (pkts : List Bytes) (c : Connection) → IsConnecting c → IsConnecting (send_all pkts c)
unfolding send_all
send_all-IsConnecting [] c h = h
send_all-IsConnecting (pkt ∷ pkts) c h =
    send_all-IsConnecting pkts (send pkt none c) (send-IsConnecting pkt none c h)

-- What Start makes.
start-IsConnecting :
    (ep : Endpoint) (t : TcpClient Connection)
    → (c : ClientConnection Connection) × (start tcp_client_ops ep t
        ≡ some (record t { impl = some c }))
      × IsConnecting c.conn
      × (c.conn.outgoing_queue ≡ [])
      × (c.timer ≡ true)
      × (c.on_connect ≡ true)
unfolding start make_tcp tcp_connecting written
start-IsConnecting ep t = (
  _,
  refl,
  record { socket = refl; allocator = refl; waiting = refl; unwritten = refl },
  refl,
  refl,
  refl,
)

-- The end of connecting loses nothing that was queued.
do_recv-stream :
    (c d : Connection) → do_recv c ≡ some d → (stream d ≡ stream c) × (d.has_socket ≡ c.has_socket)
unfolding do_recv written
do_recv-stream c d e = ground arith

do_recv-total : (c : Connection) → c.on_allocbuf ≡ true → (d : Connection) × (do_recv c ≡ some d)
unfolding do_recv
do_recv-total c h = elim (Option-cases (do_recv c)) [
  | inl e ↦ absurd (ground arith)
  | inr (d, e) ↦ (d, e)
]

abbrev ready : Connection → Connection
ready c = record c { sending_pkt = none }

on_connect_lem :
    (c : ClientConnection Connection) (b : Connection)
    → c.timer ≡ true
    → c.on_connect ≡ true
    → do_recv (ready c.conn) ≡ some b
    → on_connect tcp_client_ops none c
      ≡ some (record c {
        conn = do_send b;
        timer = false;
        effects = connected ∷ cancel_timer ∷ c.effects;
      })
unfolding on_connect
on_connect_lem c b t o e = rw (t, e, on_connect) (rw o refl)

-- While it connects, no write is started.
send-effects :
    (pkt : Bytes) (c : Connection) → IsConnecting c → (send pkt none c).effects ≡ c.effects
unfolding send do_send
send-effects pkt c h = ground (arith, h.waiting)

send_all-effects :
    (pkts : List Bytes) (c : Connection) → IsConnecting c → (send_all pkts c).effects ≡ c.effects
unfolding send_all
send_all-effects [] c h = refl
send_all-effects (pkt ∷ pkts) c h =
    send_all-effects pkts (send pkt none c) (send-IsConnecting pkt none c h) ∙ send-effects pkt c h

do_recv-writes :
    (c d : Connection)
    → do_recv c ≡ some d
    → (writes d.effects ≡ writes c.effects) × (d.sending_pkt ≡ c.sending_pkt)
unfolding do_recv writes
do_recv-writes c d e = ground arith

-- The connection that has come up, with the writes that completed before, and its next completions.
abbrev pub first_writes : Connection → Connection → Wire
first_writes before c = complete (suc (length c.outgoing_queue)) (wire_of (writes before.effects) c)

wire :
    (pkts : List Bytes) (c b : Connection)
    → IsConnecting c
    → c.outgoing_queue ≡ []
    → do_recv (ready (send_all pkts c)) ≡ some b
    → (writes (first_writes c (do_send b)).conn.effects ≡ (first_writes c (do_send b)).done)
      × (written (first_writes c (do_send b)).conn.effects ≡ frames pkts)
wire pkts c b h q e =
    let s = send_all pkts c in
    let r = do_recv-stream (ready s) b e in
    let k = do_recv-writes (ready s) b e in
    let sock : b.has_socket ≡ true = r.1 ∙ has_socket-send_all pkts c ∙ h.socket in
    let settled =
      do_send-IsSettled (writes c.effects) b sock (ap is_some k.1)
        (k.0 ∙ ap writes (send_all-effects pkts c h)) in
    let fresh : stream c ≡ [] = unfold queued in ground (arith, h.unwritten, q) in
    let done =
      complete-IsDrained (suc (length (do_send b).outgoing_queue))
        (wire_of (writes c.effects) (do_send b)) settled (omega arith) in
    (
      done.completed,
      done.sent
          ∙ stream-do_send b
          ∙ r.0
          ∙ stream-send_all pkts c h.allocator
          ∙ ap (λ bs. bs ++ frames pkts) fresh,
    )

-- What a client was given to send before it was connected is what it sends first: Start makes a client
-- that connects; whatever packets are sent on it then, nothing is written; when the connection comes
-- up it is announced and the first write is started by itself, and while its writes complete one
-- after the other, each only after it was started and while no other is under way, exactly these
-- packets are written, all of them.
pub start-on_connect :
    (ep : Endpoint) (t : TcpClient Connection) (pkts : List Bytes)
    → (c : ClientConnection Connection) × (d : ClientConnection Connection) × (start tcp_client_ops
          ep t
        ≡ some (record t { impl = some c }))
      × (written (send_all pkts c.conn).effects ≡ [])
      × (on_connect tcp_client_ops none (record c { conn = send_all pkts c.conn }) ≡ some d)
      × (d.effects ≡ connected ∷ cancel_timer ∷ c.effects)
      × (writes (first_writes c.conn d.conn).conn.effects ≡ (first_writes c.conn d.conn).done)
      × (written (first_writes c.conn d.conn).conn.effects ≡ frames pkts)
start-on_connect ep t pkts =
    let (c, e, h, q, timer, announced) = start-IsConnecting ep t in
    let waiting = send_all-IsConnecting pkts c.conn h in
    let s = record c { conn = send_all pkts c.conn } in
    let (b, r) = do_recv-total (ready s.conn) waiting.allocator in
    let out = wire pkts c.conn b h q r in
    (
      c,
      record s { conn = do_send b; timer = false; effects = connected ∷ cancel_timer ∷ c.effects },
      e,
      waiting.unwritten,
      on_connect_lem s b timer announced r,
      refl,
      out.0,
      out.1,
    )

-- A connection attempt that fails is reported to the owner once, with its error, and never announced.
pub on_connect-fails :
    (e : Failure) (c : ClientConnection Connection)
    → c.timer ≡ true
    → c.conn.has_socket ≡ true
    → c.conn.on_disconnect ≡ true
    → (d : ClientConnection Connection) × (on_connect tcp_client_ops (some e) c ≡ some d)
      × (d.effects ≡ cancel_timer ∷ c.effects)
      × (d.conn.effects ≡ disconnected (some e) ∷ shutdown ∷ c.conn.effects)
      × (d.conn.on_disconnect ≡ false)
unfolding on_connect shut_down
on_connect-fails e c t s o = (_, refl, ground arith, ground arith, ground arith)

do_send-reads_on :
    (c : Connection) (q : List (Bytes × Callback))
    → c.outgoing_queue ≡ q
    → ((do_send c).recving_pkt ≡ c.recving_pkt) × ((do_send c).on_disconnect ≡ c.on_disconnect)
unfolding do_send
do_send-reads_on c [] e = ground arith
do_send-reads_on c ((pkt, pfn) ∷ q) e = ground arith

do_recv-reads :
    (c d : Connection)
    → c.has_socket ≡ true
    → c.blocking_recv ≡ false
    → do_recv c ≡ some d
    → (is_some d.recving_pkt ≡ true) × (d.on_disconnect ≡ c.on_disconnect)
unfolding do_recv
do_recv-reads c d s n e = ground arith

-- What a timeout makes of the connection below.
timed_out :
    (c : Connection)
    → IsConnecting c
    → c.on_disconnect ≡ true
    → ((shut_down none c).effects ≡ disconnected none ∷ shutdown ∷ c.effects)
      × ((shut_down none c).has_socket ≡ true)
      × ((shut_down none c).on_allocbuf ≡ true)
      × ((shut_down none c).on_disconnect ≡ false)
      × ((shut_down none c).blocking_recv ≡ c.blocking_recv)
unfolding shut_down
timed_out c h x = ground arith

-- A timeout of a connection attempt only shuts the socket down and reports the end to the owner, with
-- the error code that means success; if the connection comes up all the same, it is announced and
-- reads begin, while the callback that would report its end is gone.
pub on_connect_timeout-connects :
    (c : ClientConnection Connection)
    → IsConnecting c.conn
    → c.conn.blocking_recv ≡ false
    → c.timer ≡ true
    → c.on_connect ≡ true
    → c.conn.on_disconnect ≡ true
    → let u = on_connect_timeout tcp_client_ops none c in
      (u.conn.effects ≡ disconnected none ∷ shutdown ∷ c.conn.effects)
      × ((d : ClientConnection Connection) × (on_connect tcp_client_ops none u ≡ some d)
          × (d.effects ≡ connected ∷ cancel_timer ∷ c.effects)
          × (is_some d.conn.recving_pkt ≡ true)
          × (d.conn.on_disconnect ≡ false))
unfolding on_connect_timeout
on_connect_timeout-connects c h n t o x =
    let u = record c { conn = shut_down none c.conn } in
    let l = timed_out c.conn h x in
    let (b, r) = do_recv-total (ready u.conn) l.2 in
    let reads = do_recv-reads (ready u.conn) b l.1 (l.4 ∙ n) r in
    let kept = do_send-reads_on b b.outgoing_queue refl in
    (
      l.0,
      (
        record u {
          conn = do_send b;
          timer = false;
          effects = connected ∷ cancel_timer ∷ c.effects;
        },
        on_connect_lem u b t o r,
        refl,
        ap is_some kept.0 ∙ reads.0,
        kept.1 ∙ reads.1 ∙ l.3,
      ),
    )

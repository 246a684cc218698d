-- ===== src/TcpClient.antt =====
-- r-nat-c/network/tcpclient.hpp and tcpclient.cpp; rawtcpclient.* is the same code over the other
-- connection class, which is the parameter `ops`, but for Close. What a client asks of asio's timer
-- and connect, and what it announces, is an entry of its own `effects`, newest first; those of the
-- connection below it stand there. `none` is an exception or a call through the empty impl_.
-- The owner sets its callbacks before Start and keeps them, as r-nat-c/app1/app1.cpp does.
pub mod Connecting
pub mod Setting
use r_nat.Common.{
  ℕ, ◌%◌, Option, none, some, List, [], ◌∷◌, Bool, true, false, ◌==◌, if◌then◌else◌, length,
  get_elem?, ◌>>=◌,
}
use r_nat.Protocol.{Bytes}
use r_nat.Endpoint.{Endpoint}
use r_nat.Connection.{
  Connection, Callback, ErrorCode, Failure, operation_aborted, no_such_device, create,
  set_recvbuf_size, set_max_packet_length, shut_down, do_recv, do_send,
}
use r_nat.Connection as Framed
use r_nat.RawConnection.{RawConnection}
use r_nat.RawConnection as Raw

pub data Effect : Type 0 where
  async_connect : Endpoint → Effect
  async_wait : ℕ → Effect
  cancel_timer : Effect
  connected : Effect

pub record Settings : Type 0 where
  pub max_packet_length : ℕ
  pub recv_buf_length : ℕ
  pub connect_timeout : ℕ
  pub nodelay : ℕ
  pub defragment : ℕ

-- What the client uses of a connection class. `connecting` is `sending_pkt_ = on_allocbuf()`, the
-- flag under which nothing is written yet, and `connected` takes it back.
pub record ClientOps (C : Type 0) : Type 0 where
  pub make : Settings → C
  pub set_max_packet_length : ℕ → C → C
  pub set_no_delay : ℕ → C → C
  pub set_recvbuf_size : ℕ → C → C
  pub connecting : C → Option C
  pub ready : C → C
  pub shut_down : ErrorCode → C → C
  pub do_recv : C → Option C
  pub do_send : C → C
  pub send : Bytes → Callback → C → C
  pub send_v : List Bytes → Callback → C → Option C
  pub block_recv : Bool → C → C
  pub close : C → C

-- ClientTCPConnection.
pub record ClientConnection (C : Type 0) : Type 0 where
  pub conn : C
  pub timer : Bool
  pub on_connect : Bool
  pub connect_timeout : ℕ
  pub effects : List Effect

abbrev pub default_connect_timeout : ℕ
default_connect_timeout = 30

abbrev pub timeout_of : ℕ → ℕ
timeout_of l = if l == 0 then default_connect_timeout else l

module _ {C : Type 0} (ops : ClientOps C) where
  -- ClientTCPConnection::Start.
  unfoldable pub connect : Endpoint → ClientConnection C → Option (ClientConnection C)
  connect ep c = ops.connecting c.conn >>= λ d. some (record c {
    conn = d;
    timer = true;
    effects = async_connect ep ∷ async_wait c.connect_timeout ∷ c.effects;
  })

  abbrev drop_timer : ClientConnection C → ClientConnection C
  drop_timer c =
      if c.timer then record c { timer = false; effects = cancel_timer ∷ c.effects } else c

  -- `if (on_connect) on_connect();`
  abbrev announce : ClientConnection C → ClientConnection C
  announce c = if c.on_connect then record c { effects = connected ∷ c.effects } else c

  -- __OnConnect. __SetOpt only sets socket options.
  unfoldable pub on_connect : ErrorCode → ClientConnection C → Option (ClientConnection C)
  on_connect (some e) c =
      let d = drop_timer c in some (record d { conn = ops.shut_down (some e) d.conn })
  on_connect none c =
      let d = drop_timer c in
      ops.do_recv (ops.ready d.conn) >>= λ b. some (announce (record d { conn = ops.do_send b }))

  -- __OnConnectTimeout; timer_ stays.
  unfoldable pub on_connect_timeout : ErrorCode → ClientConnection C → ClientConnection C
  on_connect_timeout (some operation_aborted) c = c
  on_connect_timeout e c = record c { conn = ops.shut_down e c.conn }

-- `posted` are the errors that functions posted to the event loop report to the owner.
pub record TcpClient (C : Type 0) : Type 0 where
  pub settings : Settings
  pub impl : Option (ClientConnection C)
  pub posted : List Failure

module _ {C : Type 0} (ops : ClientOps C) where
  -- The new impl_ of Start, with its callbacks.
  unfoldable pub make_impl : Settings → ClientConnection C
  make_impl t = record {
    conn = ops.make t;
    timer = false;
    on_connect = true;
    connect_timeout = timeout_of t.connect_timeout;
    effects = [];
  }

  -- Start(endpoint).
  unfoldable pub start : Endpoint → TcpClient C → Option (TcpClient C)
  unfolding make_impl connect
  start ep t = connect ops ep (make_impl t.settings) >>= λ c. some (record t { impl = some c })

  abbrev start_chosen : Option Endpoint → TcpClient C → Option (TcpClient C)
  start_chosen none t = some t
  start_chosen (some ep) t = start ep t

  -- Start(domain, port): `found` is what the resolver gives, `random` is rand().
  unfoldable pub start_domain : List Endpoint → ℕ → TcpClient C → Option (TcpClient C)
  unfolding start
  start_domain found random t =
      if length found == 0
      then some (record t { posted = no_such_device ∷ t.posted })
      else start_chosen (get_elem? found (random % length found)) t

  abbrev on_impl : (C → Option C) → TcpClient C → Option (TcpClient C)
  on_impl f t = elim t.impl [
    | none ↦ none
    | some c ↦ f c.conn >>= λ d. some (record t { impl = some (record c { conn = d }) })
  ]

  -- Send and SendV, with what they post.
  unfoldable pub send : Bytes → Callback → TcpClient C → Option (TcpClient C)
  send pkt pfn t = on_impl (λ c. some (ops.send pkt pfn c)) t

  unfoldable pub send_v : List Bytes → Callback → TcpClient C → Option (TcpClient C)
  send_v ds pfn t = on_impl (ops.send_v ds pfn) t

  unfoldable pub block_recv : Bool → TcpClient C → TcpClient C
  block_recv b t = elim t.impl [
    | none ↦ t
    | some c ↦ record t { impl = some (record c { conn = ops.block_recv b c.conn }) }
  ]

  -- Close; RawTcpClient also forgets on_connect.
  unfoldable pub close : Bool → TcpClient C → TcpClient C
  close forgets t = elim t.impl [
    | none ↦ t
    | some c ↦
        let d = if forgets then record c { on_connect = false } else c in
        record t { impl = some (record d { conn = ops.close d.conn }) }
  ]

-- The new connection of TcpClient::Start: SetNoDelay and SetDefragment are not called.
unfoldable pub make_tcp : Settings → Connection
unfolding create set_recvbuf_size
make_tcp t =
    let c = set_recvbuf_size t.recv_buf_length (set_max_packet_length t.max_packet_length create) in
    record c { on_allocbuf = true; on_disconnect = true; on_recv = true }

unfoldable pub tcp_connecting : Connection → Option Connection
tcp_connecting c = if c.on_allocbuf then some (record c { sending_pkt = some [] }) else none

abbrev pub tcp_client_ops : ClientOps Connection
tcp_client_ops = record {
  make = make_tcp;
  set_max_packet_length = set_max_packet_length;
  set_no_delay = Framed.set_no_delay;
  set_recvbuf_size = set_recvbuf_size;
  connecting = tcp_connecting;
  ready = λ c. record c { sending_pkt = none };
  shut_down = shut_down;
  do_recv = do_recv;
  do_send = do_send;
  send = Framed.send;
  send_v = Framed.send_v;
  block_recv = Framed.block_recv;
  close = Framed.close;
}

-- The same of RawTcpClient.
unfoldable pub make_raw : Settings → RawConnection
unfolding Raw.create Raw.set_recvbuf_size
make_raw t =
    let c =
      Raw.set_recvbuf_size t.recv_buf_length
        (Raw.set_max_packet_length t.max_packet_length Raw.create) in
    record c { on_allocbuf = true; on_disconnect = true; on_recv = true }

unfoldable pub raw_connecting : RawConnection → Option RawConnection
raw_connecting c = if c.on_allocbuf then some (record c { sending_pkt = some [] }) else none

abbrev pub raw_client_ops : ClientOps RawConnection
raw_client_ops = record {
  make = make_raw;
  set_max_packet_length = Raw.set_max_packet_length;
  set_no_delay = Raw.set_no_delay;
  set_recvbuf_size = Raw.set_recvbuf_size;
  connecting = raw_connecting;
  ready = λ c. record c { sending_pkt = none };
  shut_down = Raw.shut_down;
  do_recv = Raw.do_recv;
  do_send = Raw.do_send;
  send = Raw.send;
  send_v = λ ds pfn c. some (Raw.send_v ds pfn c);
  block_recv = Raw.block_recv;
  close = Raw.close;
}

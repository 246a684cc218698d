-- ===== src/Tests/ClientTests.antt =====
-- A connecting client, and the pool of buffers.
use r_nat.Common.{◌≡◌, refl, none, some, [], ◌∷◌, true, false, is_some}
use r_nat.Protocol.{Bytes}
use r_nat.Endpoint.{Endpoint}
use r_nat.Connection.{Connection, create, disconnected, shutdown}
use r_nat.Connection.Stream.{written}
use r_nat.Connection.Delivery.{frames, send_all}
use r_nat.TcpClient.{
  TcpClient, ClientConnection, start, on_connect, on_connect_timeout, connected, cancel_timer,
  tcp_client_ops,
}
use r_nat.Connection.Writing.{writes}
use r_nat.TcpClient.Connecting.{
  IsConnecting, first_writes, start-on_connect, on_connect_timeout-connects,
}
use r_nat.Pool.{Pool, create_io_buffer}
use r_nat.Pool.Reuse.{
  Held, Reach, creates, releases, here, next, create_io_buffer-unused, created, released,
}

abbrev relay : Endpoint
relay = record { address = 1; port = 443 }

abbrev text : Bytes
text = 104 ∷ 105 ∷ []

abbrev client : TcpClient Connection
client = record {
  settings = record {
    max_packet_length = 0;
    recv_buf_length = 4096;
    connect_timeout = 0;
    nodelay = 1;
    defragment = 1;
  };
  impl = none;
  posted = [];
}

start-on_connect_example :
    (c : ClientConnection Connection) × (d : ClientConnection Connection) × (start tcp_client_ops
        relay client
      ≡ some (record client { impl = some c }))
    × (written (send_all (text ∷ text ∷ []) c.conn).effects ≡ [])
    × (on_connect tcp_client_ops none (record c { conn = send_all (text ∷ text ∷ []) c.conn })
        ≡ some d)
    × (d.effects ≡ connected ∷ cancel_timer ∷ c.effects)
    × (writes (first_writes c.conn d.conn).conn.effects ≡ (first_writes c.conn d.conn).done)
    × (written (first_writes c.conn d.conn).conn.effects ≡ frames (text ∷ text ∷ []))
start-on_connect_example = start-on_connect relay client (text ∷ text ∷ [])

abbrev attempt : ClientConnection Connection
attempt = record {
  conn = record create {
    on_allocbuf = true;
    on_disconnect = true;
    on_recv = true;
    sending_pkt = some [];
  };
  timer = true;
  on_connect = true;
  connect_timeout = 30;
  effects = [];
}

attempt-IsConnecting : IsConnecting attempt.conn
unfolding create written
attempt-IsConnecting = record { socket = refl; allocator = refl; waiting = refl; unwritten = refl }

on_connect_timeout-connects_example :
    let u = on_connect_timeout tcp_client_ops none attempt in
    (u.conn.effects ≡ disconnected none ∷ shutdown ∷ attempt.conn.effects)
    × ((d : ClientConnection Connection) × (on_connect tcp_client_ops none u ≡ some d)
        × (d.effects ≡ connected ∷ cancel_timer ∷ attempt.effects)
        × (is_some d.conn.recving_pkt ≡ true)
        × (d.conn.on_disconnect ≡ false))
unfolding create
on_connect_timeout-connects_example =
    on_connect_timeout-connects attempt attempt-IsConnecting refl refl refl refl

-- One buffer is created, written and released, and the next is created.
abbrev held : Held
held = record {
  pool = record { enable_buffer_pooling = true; buffer_pool = []; content = λ p. []; deleted = [] };
  in_use = λ p. false;
}

reused : Reach held (released 4 (created 4 held))
unfolding create_io_buffer
reused = next (next here (creates held 4 refl refl)) (releases (created 4 held) 4 refl)

create_io_buffer-unused_example :
    let k = released 4 (created 4 held) in
    let r = create_io_buffer 9 k.pool in (k.in_use r.1 ≡ false) × (r.0.content r.1 ≡ [])
unfolding create_io_buffer r_nat.Pool.release
create_io_buffer-unused_example = create_io_buffer-unused 9 refl reused refl refl

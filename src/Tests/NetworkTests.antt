-- ===== src/Tests/NetworkTests.antt =====
-- Connections, the protocol and the server at concrete inputs.
use r_nat.Common.{
  ℕ, none, some, [], ◌∷◌, ◌++◌, Bool, true, false, ◌≡◌, ◌↔◌, refl, arith, nat_key, lookup, inl,
  length,
}
use r_nat.Protocol.{Bytes, A2r, R2a, put_a2r, put_r2a, parse_a2r, parse_r2a}
use r_nat.Protocol.RoundTrip.{A2rFits, R2aFits}
use r_nat.Protocol.Accepted.{Begins, A2rTrails, R2aTrails}
use r_nat.Protocol.Exact.{parse_iff}
use r_nat.Connection.{
  Connection, Callback, create, send, send_v, close, on_recv_callback, length_header, concat,
  Effect, received, disconnected, async_read,
}
use r_nat.Connection.Stream.{stream, stream-send_v, written}
use r_nat.Connection.Writing.{writes, complete}
use r_nat.Connection.Delivery.{
  arrive, packets, IsReceiving, AcceptsAll, send_all, wire_of, send-arrive,
}
use r_nat.Connection.Lifecycle.{
  sends, starts, head, step, run, notices, handed, ToldOnce, step-ToldOnce, close_throws,
}
use r_nat.Connection.Closing.{owed, run-close-handed}
use r_nat.Connection.Limits.{reads_within, run-reads_within}
use r_nat.TcpServer.{TcpServer, tcp_ops, on_accept}
use r_nat.TcpServer.Numbers.{
  IsFresh, Accepting, accepted, get_next_seq-IsFresh, on_accept-Accepting,
}
use r_nat.Endpoint.{Endpoint}
use r_nat.TcpServer.Listening.{on_bind-throws, listens_with}
use r_nat.Relay.Tunnel.{on_bind}
use r_nat.Tests.RelayTests.{relay_with, user_session}

abbrev text : Bytes
text = 104 ∷ 105 ∷ []

-- A connection as TcpServer sets it up, connected.
abbrev connection : Connection
connection = record create {
  is_open = true;
  on_allocbuf = true;
  on_disconnect = true;
  on_recv = true;
}

connection-IsReceiving : IsReceiving connection
unfolding create
connection-IsReceiving = record {
  socket = refl;
  listener = refl;
  allocator = refl;
  unblocked = refl;
}

two_packets-AcceptsAll : AcceptsAll connection.max_packet_length (text ∷ [] ∷ [])
unfolding create
two_packets-AcceptsAll = ((omega arith, inl refl), ((omega arith, inl refl), tt))

send-arrive_example :
    let w = complete 5 (wire_of 0 (send_all (text ∷ [] ∷ []) connection)) in
    (writes w.conn.effects ≡ w.done)
    × (d : Connection) × (arrive 3 (written w.conn.effects) connection ≡ some d)
    × (packets d.effects ≡ packets connection.effects ++ text ∷ [] ∷ [])
unfolding create written writes send_all send r_nat.Connection.do_send
send-arrive_example =
    send-arrive (text ∷ [] ∷ []) connection connection 5 refl refl refl refl refl (omega arith)
      connection-IsReceiving two_packets-AcceptsAll

stream-send_v_example :
    (c' : Connection) × (send_v (text ∷ text ∷ []) none connection ≡ some c')
    × (stream c'
        ≡ stream connection
          ++ length_header (length (concat (text ∷ text ∷ [])))
          ++ concat (text ∷ text ∷ []))
stream-send_v_example = stream-send_v (text ∷ text ∷ []) none connection refl

step-ToldOnce_example : ToldOnce (send text none connection)
unfolding create notices step
step-ToldOnce_example =
    step-ToldOnce connection (send text none connection) (sends text none) refl (omega arith)

run-close-handed_example :
    let d = send text none (close connection) in
    (handed d.effects ≡ handed connection.effects) × (owed d ≡ owed connection)
unfolding run step
run-close-handed_example =
    run-close-handed (sends text none ∷ []) connection (send text none (close connection)) refl

-- A header of four bytes that claims five.
abbrev limited : Connection
limited = record connection { max_packet_length = 100 }

abbrev reading : Connection
reading = record limited { recving_pkt = some []; effects = async_read 5 ∷ async_read 4 ∷ [] }

limited-reading : run (starts ∷ head none (5 ∷ 0 ∷ 0 ∷ 0 ∷ []) ∷ []) limited ≡ some reading
unfolding create run step r_nat.Connection.start r_nat.Connection.on_head_recv_callback
    r_nat.Protocol.byte_at
limited-reading = refl

run-reads_within_example : reads_within 100 reading.effects ≡ true
unfolding create reads_within
run-reads_within_example =
    run-reads_within (starts ∷ head none (5 ∷ 0 ∷ 0 ∷ 0 ∷ []) ∷ []) 100 limited reading
      (omega arith) refl refl limited-reading

close_throws_example :
    (send text none (close connection) ≡ close connection)
    × (send_v (text ∷ []) none (close connection) ≡ none)
    × (on_recv_callback none text (close connection) ≡ none)
unfolding create
close_throws_example = close_throws connection text (text ∷ []) none refl refl

-- DISCONNECT with a byte after it, and UNBIND.
abbrev hung_up : Bytes
hung_up = 3 ∷ 80 ∷ 0 ∷ 5 ∷ 0 ∷ 0 ∷ 0 ∷ 9 ∷ []

abbrev unbound : Bytes
unbound = 1 ∷ 80 ∷ 0 ∷ 0 ∷ 0 ∷ 0 ∷ 0 ∷ []

parse_iff_example :
    ((parse_a2r hung_up ≡ some (A2r.disconnect 80 5))
      ↔ Begins put_a2r A2rFits A2rTrails hung_up (A2r.disconnect 80 5))
    × ((parse_r2a unbound ≡ some (R2a.unbind 80 0))
        ↔ Begins put_r2a R2aFits R2aTrails unbound (R2a.unbind 80 0))
parse_iff_example =
    parse_iff hung_up unbound (A2r.disconnect 80 5) (R2a.unbind 80 0) (ground arith) (ground arith)

abbrev at_80 : Endpoint
at_80 = record { address = 0; port = 80 }

-- A server that listens, whose counter has reached the last number.
abbrev server : TcpServer Connection
server = record {
  inited = true;
  next_seq = 4294967295;
  port = 80;
  settings = record { max_packet_length = 0; recv_buf_length = 4096; nodelay = 1; defragment = 0 };
  acceptors = at_80 ∷ [];
  conns = (0, connection) ∷ [];
  on_connect = true;
  on_disconnect = true;
  on_recv = true;
  effects = [];
}

get_next_seq-IsFresh_example : (seq : ℕ) × IsFresh server seq
get_next_seq-IsFresh_example = get_next_seq-IsFresh server (omega arith)

on_accept-Accepting_example :
    (t : TcpServer Connection) × (on_accept tcp_ops 0 at_80 none server ≡ some t)
    × Accepting tcp_ops at_80 (accepted 0 none server) t
on_accept-Accepting_example =
    on_accept-Accepting tcp_ops 0 at_80 none server refl refl (omega arith) refl

abbrev none_listen : Endpoint → Bool
none_listen ep = false

abbrev idle_server : TcpServer Connection
idle_server = record server { inited = false; next_seq = 0; acceptors = []; conns = [] }

on_bind-throws_example :
    on_bind (listens_with tcp_ops none_listen idle_server) 7 81 (relay_with user_session) ≡ none
unfolding lookup
on_bind-throws_example =
    on_bind-throws tcp_ops none_listen idle_server 7 81
      (record { seq = 7; ports = (80, tt) ∷ []; sessions = (5, 1) ∷ [] }) (relay_with user_session)
      refl refl refl

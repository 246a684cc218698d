-- ===== src/TcpServer.antt =====
-- r-nat-s/network/tcpserver.hpp and tcpserver.cpp; rawtcpserver.hpp and rawtcpserver.cpp are the same
-- code over the other connection class, which is the parameter `ops`. Connections are numbered; what
-- the server asks of asio, of its connections' threads and of its owner is an entry of `effects`,
-- newest first. `none` is an exception that leaves the call, or the endless search for a number.
pub mod Numbers
pub mod Listening
pub mod Setting
use r_nat.Common.{
  ℕ, zero, suc, ◌+◌, ◌%◌, ◌^◌, Option, none, some, List, [], ◌∷◌, ◌++◌, Bool, true, false, not,
  ◌&&◌, ◌||◌, if◌then◌else◌, length, is_some, ◌>>=◌, Map, nat_key, lookup, insert, erase, map,
}
use r_nat.Protocol.{Bytes}
use r_nat.Endpoint.{Endpoint}
use r_nat.Connection.{
  Connection, Callback, ErrorCode, Failure, operation_aborted, create, set_recvbuf_size,
  set_max_packet_length, set_no_delay, set_defragment, close as close_connection,
}

pub record Settings : Type 0 where
  pub max_packet_length : ℕ
  pub recv_buf_length : ℕ
  pub nodelay : ℕ
  pub defragment : ℕ

-- What the server uses of a connection class: to make and set up a connection, and to close it.
pub record ConnectionOps (C : Type 0) : Type 0 where
  pub configure : Settings → C
  pub close : C → C

-- ServerTCPConnection, set up as __StartNextConnection does.
unfoldable pub configure_tcp : Settings → Connection
unfolding create set_recvbuf_size
configure_tcp t =
    let c = set_defragment t.defragment (
      set_recvbuf_size t.recv_buf_length
        (set_no_delay t.nodelay (set_max_packet_length t.max_packet_length create))) in
    record c { on_allocbuf = true; on_disconnect = true; on_recv = true }

abbrev pub tcp_ops : ConnectionOps Connection
tcp_ops = record { configure = configure_tcp; close = close_connection }

pub data Effect : Type 0 where
  async_accept : (acceptor : Endpoint) (seq : ℕ) → Effect
  close_acceptor : Endpoint → Effect
  close_conn : ℕ → Effect
  connected : ℕ → Effect
  disconnected : ℕ → ErrorCode → Effect
  received : ℕ → Bytes → Effect
  post_start : ℕ → Effect
  post_send : ℕ → Bytes → Callback → Effect
  post_send_v : ℕ → List Bytes → Callback → Effect
  block_recv : ℕ → Bool → Effect

-- An acceptor is known by the endpoint that it is bound to.
pub record TcpServer (C : Type 0) : Type 0 where
  pub inited : Bool
  pub next_seq : ℕ
  pub port : ℕ
  pub settings : Settings
  pub acceptors : List Endpoint
  pub conns : Map ℕ C
  pub on_connect : Bool
  pub on_disconnect : Bool
  pub on_recv : Bool
  pub effects : List Effect

-- The loop of __GetNextSeq, with fuel: `seq = ++next_seq_` while the number is taken.
unfoldable pub search_seq : {C : Type 0} → ℕ → ℕ → Map ℕ C → Option ℕ
search_seq zero next_seq conns = none
search_seq (suc fuel) next_seq conns =
    let seq = (next_seq + 1) % 2 ^ 32 in
    let rest = search_seq fuel seq conns in if is_some (lookup seq conns) then rest else some seq

abbrev pub first_port : List Endpoint → ℕ → ℕ
first_port [] port = port
first_port (ep ∷ eps) port = ep.port

abbrev pub has_acceptor : List Endpoint → Bool
has_acceptor [] = false
has_acceptor (ep ∷ eps) = true

module _ {C : Type 0} where
  abbrev pub emit : Effect → TcpServer C → TcpServer C
  emit e s = record s { effects = e ∷ s.effects }

  -- One round more than there are connections.
  unfoldable pub get_next_seq : TcpServer C → Option ℕ
  unfolding search_seq
  get_next_seq s = search_seq (suc (length s.conns)) s.next_seq s.conns

  -- The lambdas that __StartNextConnection gives to a connection.
  unfoldable pub on_conn_disconnect : ℕ → ErrorCode → TcpServer C → Option (TcpServer C)
  on_conn_disconnect seq e s =
      if s.on_disconnect
      then some (record s { conns = erase seq s.conns; effects = disconnected seq e ∷ s.effects })
      else none

  unfoldable pub on_conn_recv : ℕ → Bytes → TcpServer C → Option (TcpServer C)
  on_conn_recv seq buf s = if s.on_recv then some (emit (received seq buf) s) else none

  -- __Send, __SendV and __BlockRecv: for a known connection, and otherwise nothing.
  abbrev on_conn : Effect → ℕ → TcpServer C → TcpServer C
  on_conn e seq s = if is_some (lookup seq s.conns) then emit e s else s

  unfoldable pub send : ℕ → Bytes → Callback → TcpServer C → TcpServer C
  send seq pkt pfn s = on_conn (post_send seq pkt pfn) seq s

  unfoldable pub send_v : ℕ → List Bytes → Callback → TcpServer C → TcpServer C
  send_v seq ds pfn s = on_conn (post_send_v seq ds pfn) seq s

  unfoldable pub set_block_recv : ℕ → Bool → TcpServer C → TcpServer C
  set_block_recv seq b s = on_conn (block_recv seq b) seq s

  -- acceptor open, set_option, bind and listen; each throws if it fails.
  unfoldable pub open_acceptors :
      (Endpoint → Bool) → List Endpoint → TcpServer C → Option (TcpServer C)
  open_acceptors listen [] s = some s
  open_acceptors listen (ep ∷ eps) s =
      let rest = open_acceptors listen eps (record s { acceptors = s.acceptors ++ ep ∷ [] }) in
      if listen ep then rest else none

  unfoldable pub init_listening : TcpServer C → TcpServer C
  init_listening s = record s {
    port = first_port s.acceptors s.port;
    inited = has_acceptor s.acceptors || s.inited;
  }

module _ {C : Type 0} (ops : ConnectionOps C) where
  -- __StartNextConnection.
  unfoldable pub start_next_connection : Endpoint → TcpServer C → Option (TcpServer C)
  unfolding get_next_seq
  start_next_connection acceptor s = get_next_seq s >>= λ seq. some (record s {
    next_seq = seq;
    conns = insert seq (ops.configure s.settings) s.conns;
    effects = async_accept acceptor seq ∷ s.effects;
  })

  unfoldable pub start_accepting : List Endpoint → TcpServer C → Option (TcpServer C)
  start_accepting [] s = some s
  start_accepting (ep ∷ eps) s = start_next_connection ep s >>= start_accepting eps

  -- Start: `listen` says whether asio can listen at an endpoint. The result is `inited_`.
  unfoldable pub start :
      (Endpoint → Bool) → List Endpoint → TcpServer C → Option (TcpServer C × Bool)
  unfolding open_acceptors init_listening start_accepting
  start listen eps s = open_acceptors listen eps s >>= λ s1.
      let s2 = init_listening s1 in start_accepting s2.acceptors s2 >>= λ s3. some (s3, s3.inited)

  -- __OnAccept, with the acceptor and the number that were bound to it.
  unfoldable pub on_accept : ℕ → Endpoint → ErrorCode → TcpServer C → Option (TcpServer C)
  unfolding start_next_connection
  on_accept seq acceptor (some operation_aborted) s = some s
  on_accept seq acceptor none s =
      if not s.inited
      then some s
      else if not s.on_connect
      then none
      else start_next_connection acceptor (emit (post_start seq) (emit (connected seq) s))
  on_accept seq acceptor (some e) s =
      if not s.inited then some s else start_next_connection acceptor s

  -- Close(seq): the connection is closed and stays in the table.
  unfoldable pub close_seq : ℕ → TcpServer C → TcpServer C
  close_seq seq s = elim (lookup seq s.conns) [
    | none ↦ s
    | some c ↦ record s { conns = insert seq (ops.close c) s.conns }
  ]

abbrev close_acceptors : List Endpoint → List Effect → List Effect
close_acceptors [] es = es
close_acceptors (ep ∷ eps) es = close_acceptors eps (close_acceptor ep ∷ es)

abbrev close_conns : {C : Type 0} → Map ℕ C → List Effect → List Effect
close_conns [] es = es
close_conns ((seq, c) ∷ m) es = close_conns m (close_conn seq ∷ es)

-- Close(). The connections are closed and then dropped.
unfoldable pub close_all : {C : Type 0} → TcpServer C → TcpServer C
close_all s = record s {
  inited = false;
  on_connect = false;
  on_disconnect = false;
  on_recv = false;
  acceptors = [];
  conns = [];
  effects = close_conns s.conns (close_acceptors s.acceptors s.effects);
}

-- ===== src/RawConnection.antt =====
-- r-nat-s/network/rawtcpconnection.hpp (the same code stands in r-nat-c): a connection that carries
-- bytes as they are, to a user or to a service. Effects and exceptions are as in Connection.
pub mod Stream
pub mod Writing
pub mod Delivery
pub mod Closing
pub mod Callbacks
use r_nat.Common.{
  ℕ, ◌+◌, Option, none, some, List, [], ◌∷◌, ◌++◌, Bool, true, false, not, ◌&&◌, ◌||◌, ltb,
  if◌then◌else◌, is_some, ◌>>=◌,
}
use r_nat.Protocol.{Bytes}
use r_nat.Connection.{Callback, ErrorCode, parts, default_buffer_length}

pub data Effect : Type 0 where
  async_write : Bytes → Effect
  async_read_some : ℕ → Effect
  post : ℕ → Effect
  post_do_recv : Effect
  shutdown close_socket : Effect
  disconnected : ErrorCode → Effect
  received : Bytes → Effect

pub record RawConnection : Type 0 where
  pub has_socket : Bool
  pub is_open : Bool
  pub outgoing_queue : List (Bytes × Callback)
  pub sending_pkt : Option Bytes
  pub recving_pkt : Option Bytes
  pub max_packet_length : ℕ
  pub nodelay : ℕ
  pub recv_buf_length : ℕ
  pub blocking_recv : Bool
  pub on_allocbuf : Bool
  pub on_disconnect : Bool
  pub on_recv : Bool
  pub effects : List Effect

abbrev emit : Effect → RawConnection → RawConnection
emit e c = record c { effects = e ∷ c.effects }

-- The constructor.
unfoldable pub create : RawConnection
create = record {
  has_socket = true;
  is_open = false;
  outgoing_queue = [];
  sending_pkt = none;
  recving_pkt = none;
  max_packet_length = 0;
  nodelay = 0;
  recv_buf_length = default_buffer_length;
  blocking_recv = false;
  on_allocbuf = false;
  on_disconnect = false;
  on_recv = false;
  effects = [];
}

abbrev pub set_max_packet_length : ℕ → RawConnection → RawConnection
set_max_packet_length l c = record c { max_packet_length = l }

abbrev pub set_no_delay : ℕ → RawConnection → RawConnection
set_no_delay nodelay c = record c { nodelay = nodelay }

unfoldable pub set_recvbuf_size : ℕ → RawConnection → RawConnection
set_recvbuf_size l c = record c {
  recv_buf_length = if ltb default_buffer_length l then l else default_buffer_length;
}

-- Close: the allocator stays.
unfoldable pub close : RawConnection → RawConnection
close c =
    let d = record c { on_recv = false; on_disconnect = false } in
    if c.has_socket && c.is_open
    then record d { is_open = false; effects = close_socket ∷ shutdown ∷ c.effects }
    else d

unfoldable pub block_recv : Bool → RawConnection → RawConnection
block_recv b c = let c' = record c { blocking_recv = b } in if b then c' else emit post_do_recv c'

-- `if (on_disconnect) { on_disconnect(e); on_disconnect = nullptr; }`
abbrev notify : ErrorCode → RawConnection → RawConnection
notify e c =
    if c.on_disconnect
    then record c { on_disconnect = false; effects = disconnected e ∷ c.effects }
    else c

unfoldable pub shut_down : ErrorCode → RawConnection → RawConnection
shut_down e c = notify e (if c.has_socket then emit shutdown c else c)

abbrev pub post_callback : Callback → List Effect → List Effect
post_callback none effects = effects
post_callback (some f) effects = post f ∷ effects

abbrev send_front : List (Bytes × Callback) → RawConnection → RawConnection
send_front [] c = c
send_front ((pkt, pfn) ∷ queue) c = record c {
  outgoing_queue = queue;
  sending_pkt = some pkt;
  effects = async_write pkt ∷ post_callback pfn c.effects;
}

unfoldable pub do_send : RawConnection → RawConnection
do_send c = if is_some c.sending_pkt || not c.has_socket then c else send_front c.outgoing_queue c

abbrev pub enqueue : List (Bytes × Callback) → RawConnection → RawConnection
enqueue pkts c = record c { outgoing_queue = c.outgoing_queue ++ pkts }

unfoldable pub send : Bytes → Callback → RawConnection → RawConnection
send pkt pfn c = do_send (enqueue ((pkt, pfn) ∷ []) c)

unfoldable pub send_v : List Bytes → Callback → RawConnection → RawConnection
unfolding parts
send_v ds pfn c = do_send (enqueue (parts ds pfn) c)

unfoldable pub on_send_callback : ErrorCode → RawConnection → RawConnection
unfolding do_send shut_down
on_send_callback none c = do_send (record c { sending_pkt = none })
on_send_callback (some e) c = notify (some e) (shut_down (some e) c)

unfoldable pub do_recv : RawConnection → Option RawConnection
do_recv c =
    if not c.has_socket || is_some c.recving_pkt || c.blocking_recv
    then some c
    else if not c.on_allocbuf
    then none
    else some (record c {
      recving_pkt = some [];
      effects = async_read_some c.recv_buf_length ∷ c.effects;
    })

-- `pkt` is what asio read into recving_pkt_, and the handler commits.
unfoldable pub on_recv_callback : ErrorCode → Bytes → RawConnection → Option RawConnection
unfolding shut_down do_recv
on_recv_callback (some e) pkt c = some (shut_down (some e) c)
on_recv_callback none pkt c =
    do_recv (record (if c.on_recv then emit (received pkt) c else c) { recving_pkt = none })

-- __Start of the server's class over it, in rawtcpserver.hpp.
unfoldable pub start : RawConnection → Option RawConnection
unfolding do_recv do_send
start c = do_recv c >>= λ c'. some (do_send c')

-- ===== src/Connection.antt =====
-- r-nat-s/network/tcpconnection.hpp (the same code stands in r-nat-c): a connection that carries
-- packets, each behind its length in four bytes. What a member function asks of asio, of the event
-- loop and of its owner is an entry of `effects`, newest first. The streambufs are lists of bytes.
-- `none` is an exception that leaves a handler: on_allocbuf is called while it is empty.
pub mod Stream
pub mod Writing
pub mod Delivery
pub mod Lifecycle
pub mod Closing
pub mod Limits
use r_nat.Common.{
  ℕ, suc, ◌+◌, ◌%◌, ◌^◌, Option, none, some, List, [], ◌∷◌, ◌++◌, Bool, true, false, not, ◌&&◌,
  ◌||◌, ltb, ◌==◌, if◌then◌else◌, length, is_some, ◌>>=◌,
}
use r_nat.Protocol.{Bytes, put_u32, u32_at}

-- The asio errors that the source names, and all others.
pub data Failure : Type 0 where
  operation_aborted invalid_argument no_such_device : Failure
  system : ℕ → Failure

-- An asio::error_code: `none` is success.
abbrev pub ErrorCode : Type 0
ErrorCode = Option Failure

-- A std::function<void(void)> that may be empty; callbacks are told apart by a number.
abbrev pub Callback : Type 0
Callback = Option ℕ

pub data Effect : Type 0 where
  async_write : Bytes → Effect
  async_read : ℕ → Effect
  post : ℕ → Effect
  post_do_recv : Effect
  shutdown close_socket : Effect
  disconnected : ErrorCode → Effect
  received : Bytes → Effect

pub record Connection : Type 0 where
  pub has_socket : Bool
  pub is_open : Bool
  pub outgoing_queue : List (Bytes × Callback)
  pub sending_pkt : Option Bytes
  pub recving_pkt : Option Bytes
  pub max_packet_length : ℕ
  pub nodelay : ℕ
  pub defragment : ℕ
  pub recv_buf_length : ℕ
  pub blocking_recv : Bool
  pub on_allocbuf : Bool
  pub on_disconnect : Bool
  pub on_recv : Bool
  pub effects : List Effect

abbrev pub emit : Effect → Connection → Connection
emit e c = record c { effects = e ∷ c.effects }

abbrev pub default_buffer_length : ℕ
default_buffer_length = 4096

abbrev pub packet_header_length : ℕ
packet_header_length = 4

-- The constructor: the socket is there and not open yet, the callbacks are empty.
unfoldable pub create : Connection
create = record {
  has_socket = true;
  is_open = false;
  outgoing_queue = [];
  sending_pkt = none;
  recving_pkt = none;
  max_packet_length = 0;
  nodelay = 0;
  defragment = 0;
  recv_buf_length = default_buffer_length;
  blocking_recv = false;
  on_allocbuf = false;
  on_disconnect = false;
  on_recv = false;
  effects = [];
}

abbrev pub set_max_packet_length : ℕ → Connection → Connection
set_max_packet_length l c = record c { max_packet_length = l }

abbrev pub set_no_delay : ℕ → Connection → Connection
set_no_delay nodelay c = record c { nodelay = nodelay }

abbrev pub set_defragment : ℕ → Connection → Connection
set_defragment defragment c = record c { defragment = defragment }

unfoldable pub set_recvbuf_size : ℕ → Connection → Connection
set_recvbuf_size l c = record c {
  recv_buf_length = if ltb default_buffer_length l then l else default_buffer_length;
}

abbrev close_open : Bool → Connection → Connection
close_open opened c =
    if opened
    then record c { is_open = false; effects = close_socket ∷ shutdown ∷ c.effects }
    else c

unfoldable pub close : Connection → Connection
close c =
    close_open (c.has_socket && c.is_open)
      (record c { on_allocbuf = false; on_recv = false; on_disconnect = false })

unfoldable pub block_recv : Bool → Connection → Connection
block_recv b c = let c' = record c { blocking_recv = b } in if b then c' else emit post_do_recv c'

-- `if (on_disconnect) { on_disconnect(e); on_disconnect = nullptr; }`
abbrev pub notify : ErrorCode → Connection → Connection
notify e c =
    if c.on_disconnect
    then record c { on_disconnect = false; effects = disconnected e ∷ c.effects }
    else c

unfoldable pub shut_down : ErrorCode → Connection → Connection
shut_down e c = notify e (if c.has_socket then emit shutdown c else c)

abbrev pub post_callback : Callback → List Effect → List Effect
post_callback none effects = effects
post_callback (some f) effects = post f ∷ effects

abbrev send_front : List (Bytes × Callback) → Connection → Connection
send_front [] c = c
send_front ((pkt, pfn) ∷ queue) c = record c {
  outgoing_queue = queue;
  sending_pkt = some pkt;
  effects = async_write pkt ∷ post_callback pfn c.effects;
}

unfoldable pub do_send : Connection → Connection
do_send c = if is_some c.sending_pkt || not c.has_socket then c else send_front c.outgoing_queue c

abbrev pub enqueue : List (Bytes × Callback) → Connection → Connection
enqueue pkts c = record c { outgoing_queue = c.outgoing_queue ++ pkts }

-- The length as the four bytes that the packet header holds: `(uint32_t)data->size()`.
abbrev pub length_header : ℕ → Bytes
length_header n = put_u32 (n % 2 ^ 32) []

-- A packet of `size` bytes behind its length: the two buffers or more of `pkts`, or one new buffer.
abbrev pub packet : ℕ → ℕ → Bytes → Callback → List (Bytes × Callback) → List (Bytes × Callback)
packet defragment size pkt pfn pkts =
    if defragment == 0
    then (length_header size, none) ∷ pkts
    else (length_header size ++ pkt, pfn) ∷ []

unfoldable pub send : Bytes → Callback → Connection → Connection
send pkt pfn c =
    if not c.on_allocbuf
    then c
    else do_send (enqueue (packet c.defragment (length pkt) pkt pfn ((pkt, pfn) ∷ [])) c)

-- The parts of a packet in order; the callback goes with the last.
unfoldable pub parts : List Bytes → Callback → List (Bytes × Callback)
parts [] pfn = []
parts (d ∷ []) pfn = (d, pfn) ∷ []
parts (d ∷ e ∷ ds) pfn = (d, none) ∷ parts (e ∷ ds) pfn

unfoldable pub concat : List Bytes → Bytes
concat [] = []
concat (d ∷ ds) = d ++ concat ds

unfoldable pub total_size : List Bytes → ℕ
total_size [] = 0
total_size (d ∷ ds) = length d + total_size ds

unfoldable pub send_v : List Bytes → Callback → Connection → Option Connection
unfolding parts concat total_size
send_v ds pfn c =
    if not c.on_allocbuf
    then none
    else some
        (do_send (enqueue (packet c.defragment (total_size ds) (concat ds) pfn (parts ds pfn)) c))

unfoldable pub on_send_callback : ErrorCode → Connection → Connection
unfolding do_send shut_down
on_send_callback none c = do_send (record c { sending_pkt = none })
on_send_callback (some e) c = notify (some e) (shut_down (some e) c)

unfoldable pub do_recv : Connection → Option Connection
do_recv c =
    if not c.has_socket || is_some c.recving_pkt || c.blocking_recv
    then some c
    else if not c.on_allocbuf
    then none
    else some
        (record c { recving_pkt = some []; effects = async_read packet_header_length ∷ c.effects })

unfoldable pub on_head_recv_callback : ErrorCode → Bytes → Connection → Connection
unfolding shut_down
on_head_recv_callback (some e) packet_header c = shut_down (some e) c
on_head_recv_callback none packet_header c =
    let packet_length = u32_at packet_header 0 in
    if ltb 0 c.max_packet_length && ltb c.max_packet_length packet_length
    then shut_down (some invalid_argument) c
    else emit (async_read packet_length) c

-- `pkt` is what asio read into recving_pkt_, and the handler commits.
unfoldable pub on_recv_callback : ErrorCode → Bytes → Connection → Option Connection
unfolding shut_down do_recv
on_recv_callback (some e) pkt c = some (shut_down (some e) c)
on_recv_callback none pkt c =
    do_recv (record (if c.on_recv then emit (received pkt) c else c) { recving_pkt = none })

-- ServerTCPConnection::__Start of tcpserver.hpp. __SetOpt only sets socket options.
unfoldable pub start : Connection → Option Connection
unfolding do_recv do_send
start c = do_recv c >>= λ c'. some (do_send c')

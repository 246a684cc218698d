-- ===== src/RawConnection/Stream.antt =====
-- The bytes through r-nat-s/network/rawtcpconnection.hpp: their order and progress.
use r_nat.Common.{
  ◌≡◌, refl, sym, ap, ◌∙◌, none, some, List, [], ◌∷◌, Option, ◌++◌, true, false, arith, append-nil,
  append_assoc, ◌>>=◌,
}
use r_nat.Protocol.{Bytes}
use r_nat.Connection.{Callback, parts, concat}
use r_nat.Connection.Stream.{queued, queued-parts, queued-append}
use r_nat.RawConnection.{
  RawConnection, Effect, async_write, async_read_some, post, post_do_recv, shutdown, close_socket,
  disconnected, received, do_send, send, send_v, enqueue, on_send_callback, on_recv_callback,
  do_recv, post_callback,
}

-- The bytes handed to asio::async_write so far, in order.
unfoldable pub written : List Effect → Bytes
written [] = []
written (async_write pkt ∷ es) = written es ++ pkt
written (async_read_some n ∷ es) = written es
written (post f ∷ es) = written es
written (post_do_recv ∷ es) = written es
written (shutdown ∷ es) = written es
written (close_socket ∷ es) = written es
written (disconnected e ∷ es) = written es
written (received pkt ∷ es) = written es

-- The bytes handed to on_recv so far, in order.
unfoldable pub read : List Effect → Bytes
read [] = []
read (received pkt ∷ es) = read es ++ pkt
read (async_write pkt ∷ es) = read es
read (async_read_some n ∷ es) = read es
read (post f ∷ es) = read es
read (post_do_recv ∷ es) = read es
read (shutdown ∷ es) = read es
read (close_socket ∷ es) = read es
read (disconnected e ∷ es) = read es

-- All bytes that the connection was given to send: those written, then those that wait.
abbrev pub raw_stream : RawConnection → Bytes
raw_stream c = written c.effects ++ queued c.outgoing_queue

written-post_callback :
    (pfn : Callback) (es : List Effect) → written (post_callback pfn es) ≡ written es
unfolding written
written-post_callback none es = refl
written-post_callback (some f) es = refl

raw_stream-do_send_on :
    (c : RawConnection) (q : List (Bytes × Callback))
    → c.outgoing_queue ≡ q
    → raw_stream (do_send c) ≡ raw_stream c
unfolding do_send written queued
raw_stream-do_send_on c [] e = ground arith
raw_stream-do_send_on c ((pkt, pfn) ∷ q) e =
    ground
      (arith, written-post_callback pfn c.effects, append_assoc (written c.effects) pkt (queued q))

raw_stream-do_send : (c : RawConnection) → raw_stream (do_send c) ≡ raw_stream c
raw_stream-do_send c = raw_stream-do_send_on c c.outgoing_queue refl

raw_stream-enqueue :
    (pkts : List (Bytes × Callback)) (c : RawConnection)
    → raw_stream (enqueue pkts c) ≡ raw_stream c ++ queued pkts
raw_stream-enqueue pkts c = simp (queued-append, append_assoc)

-- Send and SendV put their bytes behind all earlier ones, in order and with nothing added.
pub raw_stream-sends :
    (pkt : Bytes) (ds : List Bytes) (pfn : Callback) (c : RawConnection)
    → (raw_stream (send pkt pfn c) ≡ raw_stream c ++ pkt)
      × (raw_stream (send_v ds pfn c) ≡ raw_stream c ++ concat ds)
unfolding send send_v
raw_stream-sends pkt ds pfn c = (
  raw_stream-do_send _
      ∙ raw_stream-enqueue ((pkt, pfn) ∷ []) c
      ∙ ap (λ bs. raw_stream c ++ bs) (unfold queued in append-nil pkt),
  raw_stream-do_send _
      ∙ raw_stream-enqueue (parts ds pfn) c
      ∙ ap (λ bs. raw_stream c ++ bs) (queued-parts ds pfn),
)

pub raw_stream-on_send_callback :
    (c : RawConnection) → raw_stream (on_send_callback none c) ≡ raw_stream c
unfolding on_send_callback
raw_stream-on_send_callback c = raw_stream-do_send (record c { sending_pkt = none })

-- Reads complete with these chunks, one after the other.
unfoldable pub arrive_all : List Bytes → RawConnection → Option RawConnection
arrive_all [] c = some c
arrive_all (chunk ∷ chunks) c = on_recv_callback none chunk c >>= arrive_all chunks

-- A connection that reads and hands on what it reads.
pub record IsReading (c : RawConnection) : Type 0 where
  pub socket : c.has_socket ≡ true
  pub listener : c.on_recv ≡ true
  pub allocator : c.on_allocbuf ≡ true
  pub unblocked : c.blocking_recv ≡ false

next : Bytes → RawConnection → RawConnection
next chunk c = record c {
  recving_pkt = some [];
  effects = async_read_some c.recv_buf_length ∷ received chunk ∷ c.effects;
}

next_lem :
    (chunk : Bytes) (c : RawConnection)
    → IsReading c
    → on_recv_callback none chunk c ≡ some (next chunk c)
unfolding on_recv_callback do_recv next
next_lem chunk c r = ground arith

next-IsReading : (chunk : Bytes) (c : RawConnection) → IsReading c → IsReading (next chunk c)
unfolding next
next-IsReading chunk c r = ground arith

-- A connection that reads hands on every byte that arrives, in order, and reads on.
pub arrive_all-read :
    (chunks : List Bytes) (c : RawConnection)
    → IsReading c
    → (d : RawConnection) × (arrive_all chunks c ≡ some d)
      × IsReading d
      × (read d.effects ≡ read c.effects ++ concat chunks)
unfolding arrive_all concat
arrive_all-read [] c r = (c, refl, r, sym (append-nil _))
arrive_all-read (chunk ∷ chunks) c r =
    let (d, e, r', p) = arrive_all-read chunks (next chunk c) (next-IsReading chunk c r) in
    (
      d,
      ap (λ o. o >>= arrive_all chunks) (next_lem chunk c r) ∙ e,
      r',
      p ∙ (unfold next read in append_assoc (read c.effects) chunk (concat chunks)),
    )

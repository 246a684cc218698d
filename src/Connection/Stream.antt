-- ===== src/Connection/Stream.antt =====
-- The bytes that r-nat-s/network/tcpconnection.hpp writes: framing, order, and progress.
use r_nat.Common.{
  ℕ, ◌≡◌, refl, sym, ap, ◌∙◌, inl, inr, none, some, List, [], ◌∷◌, ◌++◌, true, false, ◌==◌, length,
  arith, append-nil, append_assoc, Bool-cases, length-append,
}
use r_nat.Protocol.{Bytes}
use r_nat.Connection.{
  Connection, Effect, Callback, async_write, async_read, post, post_do_recv, shutdown, close_socket,
  disconnected, received, do_send, send, send_v, parts, concat, total_size, enqueue, packet,
  length_header, on_send_callback, post_callback,
}

-- The bytes handed to asio::async_write so far, in order.
unfoldable pub written : List Effect → Bytes
written [] = []
written (async_write pkt ∷ es) = written es ++ pkt
written (async_read n ∷ es) = written es
written (post f ∷ es) = written es
written (post_do_recv ∷ es) = written es
written (shutdown ∷ es) = written es
written (close_socket ∷ es) = written es
written (disconnected e ∷ es) = written es
written (received pkt ∷ es) = written es

unfoldable pub queued : List (Bytes × Callback) → Bytes
queued [] = []
queued ((pkt, pfn) ∷ q) = pkt ++ queued q

-- All bytes that the connection was given to send: those written, then those that wait.
abbrev pub stream : Connection → Bytes
stream c = written c.effects ++ queued c.outgoing_queue

pub queued-append : (p q : List (Bytes × Callback)) → queued (p ++ q) ≡ queued p ++ queued q
unfolding queued
queued-append [] q = refl
queued-append ((pkt, pfn) ∷ p) q = simp (queued-append p q, append_assoc)

pub queued-parts : (ds : List Bytes) (pfn : Callback) → queued (parts ds pfn) ≡ concat ds
unfolding queued parts concat
queued-parts [] pfn = refl
queued-parts (d ∷ []) pfn = refl
queued-parts (d ∷ e ∷ ds) pfn = ap (◌++◌ d) (queued-parts (e ∷ ds) pfn)

total_size-concat : (ds : List Bytes) → total_size ds ≡ length (concat ds)
unfolding total_size concat
total_size-concat [] = refl
total_size-concat (d ∷ ds) = omega (arith, length-append d (concat ds), total_size-concat ds)

written-post_callback :
    (pfn : Callback) (es : List Effect) → written (post_callback pfn es) ≡ written es
unfolding written
written-post_callback none es = refl
written-post_callback (some f) es = refl

send_front-stream :
    (c : Connection) (q : List (Bytes × Callback))
    → c.outgoing_queue ≡ q
    → stream (do_send c) ≡ stream c
unfolding do_send written queued
send_front-stream c [] e = ground (arith)
send_front-stream c ((pkt, pfn) ∷ q) e =
    ground
      (arith, written-post_callback pfn c.effects, append_assoc (written c.effects) pkt (queued q))

-- __DoSend moves bytes from the queue to the socket and loses none.
pub stream-do_send : (c : Connection) → stream (do_send c) ≡ stream c
stream-do_send c = send_front-stream c c.outgoing_queue refl

do_send-keeps_on :
    (c : Connection) (q : List (Bytes × Callback))
    → c.outgoing_queue ≡ q
    → ((do_send c).on_allocbuf ≡ c.on_allocbuf) × ((do_send c).has_socket ≡ c.has_socket)
unfolding do_send
do_send-keeps_on c [] e = ground arith
do_send-keeps_on c ((pkt, pfn) ∷ q) e = ground arith

pub do_send-keeps :
    (c : Connection)
    → ((do_send c).on_allocbuf ≡ c.on_allocbuf) × ((do_send c).has_socket ≡ c.has_socket)
do_send-keeps c = do_send-keeps_on c c.outgoing_queue refl

stream-enqueue :
    (pkts : List (Bytes × Callback)) (c : Connection)
    → stream (enqueue pkts c) ≡ stream c ++ queued pkts
stream-enqueue pkts c = simp (queued-append, append_assoc)

-- Both ways of queueing a packet, whole or in parts, put the same frame at the end of the stream.
stream-packet :
    (defragment size : ℕ) (pkt : Bytes) (pfn : Callback) (pkts : List (Bytes × Callback))
    → queued pkts ≡ pkt
    → queued (packet defragment size pkt pfn pkts) ≡ length_header size ++ pkt
unfolding queued
stream-packet defragment size pkt pfn pkts h = elim (Bool-cases (defragment == 0)) [
  | inl e ↦ rw e (ap (◌++◌ (length_header size)) h)
  | inr e ↦ rw e (append-nil _)
]

stream-send_packet :
    (size : ℕ) (pkt : Bytes) (pfn : Callback) (pkts : List (Bytes × Callback)) (c : Connection)
    → queued pkts ≡ pkt
    → stream (do_send (enqueue (packet c.defragment size pkt pfn pkts) c))
      ≡ stream c ++ length_header size ++ pkt
stream-send_packet size pkt pfn pkts c h =
    stream-do_send _
    ∙ stream-enqueue _ c
    ∙ ap (◌++◌ (stream c)) (stream-packet c.defragment size pkt pfn pkts h)
    ∙ sym (append_assoc (stream c) (length_header size) pkt)

pub send_open :
    (pkt : Bytes) (pfn : Callback) (c : Connection)
    → c.on_allocbuf ≡ true
    → send pkt pfn c
      ≡ do_send (enqueue (packet c.defragment (length pkt) pkt pfn ((pkt, pfn) ∷ [])) c)
unfolding send
send_open pkt pfn c h = ground arith

pub send_closed :
    (pkt : Bytes) (pfn : Callback) (c : Connection) → c.on_allocbuf ≡ false → send pkt pfn c ≡ c
unfolding send
send_closed pkt pfn c h = ground arith

send_v_open :
    (ds : List Bytes) (pfn : Callback) (c : Connection)
    → c.on_allocbuf ≡ true
    → send_v ds pfn c
      ≡ some
          (do_send (enqueue (packet c.defragment (total_size ds) (concat ds) pfn (parts ds pfn)) c))
unfolding send_v
send_v_open ds pfn c h = ground arith

pub send_v_closed :
    (ds : List Bytes) (pfn : Callback) (c : Connection)
    → c.on_allocbuf ≡ false
    → send_v ds pfn c ≡ none
unfolding send_v
send_v_closed ds pfn c h = ground arith

-- Send puts the packet behind all earlier bytes as one frame, with defragmentation or without.
pub stream-send :
    (pkt : Bytes) (pfn : Callback) (c : Connection)
    → c.on_allocbuf ≡ true
    → stream (send pkt pfn c) ≡ stream c ++ length_header (length pkt) ++ pkt
stream-send pkt pfn c h =
    ap stream (send_open pkt pfn c h)
    ∙ stream-send_packet (length pkt) pkt pfn ((pkt, pfn) ∷ []) c (unfold queued in append-nil pkt)

-- While the connection has its allocator, SendV puts its parts behind all earlier bytes as the one
-- frame of the packet that they form together, with defragmentation or without.
pub stream-send_v :
    (ds : List Bytes) (pfn : Callback) (c : Connection)
    → c.on_allocbuf ≡ true
    → (c' : Connection) × (send_v ds pfn c ≡ some c')
      × (stream c' ≡ stream c ++ length_header (length (concat ds)) ++ concat ds)
stream-send_v ds pfn c h = (
  _,
  send_v_open ds pfn c h,
  stream-send_packet (total_size ds) (concat ds) pfn (parts ds pfn) c (queued-parts ds pfn)
      ∙ ap (λ n. stream c ++ length_header n ++ concat ds) (total_size-concat ds),
)

-- A successful completion of a write loses no byte and makes none up.
pub stream-on_send_callback : (c : Connection) → stream (on_send_callback none c) ≡ stream c
unfolding on_send_callback
stream-on_send_callback c = stream-do_send (record c { sending_pkt = none })

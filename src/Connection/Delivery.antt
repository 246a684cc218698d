-- ===== src/Connection/Delivery.antt =====
-- Packets through two connections of tcpconnection.hpp, from Send of one to on_recv of the other.
use r_nat.Common.{
  ℕ, zero, suc, ◌≤◌, ◌<◌, ◌^◌, ◌≡◌, refl, sym, ap, subst, ◌∙◌, ◌⊎◌, Option, none, some, List, [],
  ◌∷◌, ◌++◌, true, false, inl, inr, is_some, Bool-cases, ltb, if◌then◌else◌, length, arith,
  append-nil, append_assoc, take, drop, take-length-append, drop-length-append, length-append,
  ◌>>=◌,
}
use r_nat.Protocol.{Bytes, u32_at}
use r_nat.Connection.{
  Connection, Effect, async_write, async_read, post, post_do_recv, shutdown, close_socket,
  disconnected, received, send, enqueue, packet, do_recv, on_head_recv_callback, on_recv_callback,
  length_header,
}
use r_nat.Connection.Stream.{
  stream, stream-send, send_open, send_closed, written, queued, do_send-keeps,
}
use r_nat.Connection.Writing.{
  writes, Wire, complete, IsIdle, IsSettled, enqueue-IsSettled, complete-IsDrained,
}

-- The packets handed to on_recv so far, in order.
pub packets : List Effect → List Bytes
packets [] = []
packets (received pkt ∷ es) = packets es ++ pkt ∷ []
packets (async_write pkt ∷ es) = packets es
packets (async_read n ∷ es) = packets es
packets (post f ∷ es) = packets es
packets (post_do_recv ∷ es) = packets es
packets (shutdown ∷ es) = packets es
packets (close_socket ∷ es) = packets es
packets (disconnected e ∷ es) = packets es

-- asio::async_read of a body: it completes when the bytes are there. No body is read after a refusal.
abbrev read_body : (Bytes → Connection → Option Connection) → Bytes → Connection → Option Connection
read_body next bytes c = elim c.effects [
  | async_read n ∷ es ↦
      if ltb (length bytes) n
      then some c
      else on_recv_callback none (take n bytes) c >>= next (drop n bytes)
  | _ ↦ some c
]

-- The bytes that arrive complete the reads of a connection that waits for a packet header.
pub arrive : ℕ → Bytes → Connection → Option Connection
arrive zero bytes c = some c
arrive (suc fuel) bytes c =
    let rest =
      read_body (arrive fuel) (drop 4 bytes) (on_head_recv_callback none (take 4 bytes) c) in
    if ltb (length bytes) 4 then some c else rest

-- A connection that waits for the next packet header.
pub record IsReceiving (c : Connection) : Type 0 where
  pub socket : c.has_socket ≡ true
  pub listener : c.on_recv ≡ true
  pub allocator : c.on_allocbuf ≡ true
  pub unblocked : c.blocking_recv ≡ false

-- A packet that the receiver accepts and whose length its header can hold.
abbrev pub Accepts : ℕ → Bytes → Type 0
Accepts limit pkt = (length pkt < 2 ^ 32) × ((limit ≡ 0) ⊎ (length pkt ≤ limit))

after : Bytes → Connection → Connection
after pkt c = record c {
  recving_pkt = some [];
  effects = async_read 4 ∷ received pkt ∷ async_read (length pkt) ∷ c.effects;
}

header_lem : (n : ℕ) → n < 2 ^ 32 → u32_at (length_header n) 0 ≡ n
header_lem n h = unfold r_nat.Protocol.byte_at in omega arith

head_lem :
    (pkt : Bytes) (c : Connection)
    → Accepts c.max_packet_length pkt
    → on_head_recv_callback none (length_header (length pkt)) c
      ≡ record c { effects = async_read (length pkt) ∷ c.effects }
unfolding on_head_recv_callback
head_lem pkt c h = ground (arith, header_lem (length pkt) h.0)

body_lem :
    (pkt : Bytes) (c : Connection)
    → IsReceiving c
    → on_recv_callback none pkt (record c { effects = async_read (length pkt) ∷ c.effects })
      ≡ some (after pkt c)
unfolding on_recv_callback do_recv after
body_lem pkt c h = ground arith

arrive-one :
    (fuel : ℕ) (pkt rest : Bytes) (c : Connection)
    → IsReceiving c
    → Accepts c.max_packet_length pkt
    → arrive (suc fuel) (length_header (length pkt) ++ pkt ++ rest) c
      ≡ arrive fuel rest (after pkt c)
unfolding arrive
arrive-one fuel pkt rest c r h = ground (
  arith,
  head_lem pkt c h,
  body_lem pkt c r,
  take-length-append pkt rest,
  drop-length-append pkt rest,
  length-append pkt rest,
)

-- Packets one behind the other, as Send frames them.
pub frames : List Bytes → Bytes
frames [] = []
frames (pkt ∷ pkts) = length_header (length pkt) ++ pkt ++ frames pkts

abbrev pub AcceptsAll : ℕ → List Bytes → Type 0
AcceptsAll limit [] = Unit {0}
AcceptsAll limit (pkt ∷ pkts) = Accepts limit pkt × AcceptsAll limit pkts

after-IsReceiving : (pkt : Bytes) (c : Connection) → IsReceiving c → IsReceiving (after pkt c)
unfolding after
after-IsReceiving pkt c r = ground arith

-- With at least one round per packet, a receiver that waits for a header and accepts the packets
-- hands all of them on, each once, unchanged and in order, and waits for a header again.
arrive-frames :
    (pkts : List Bytes) (fuel : ℕ) (c : Connection)
    → IsReceiving c
    → AcceptsAll c.max_packet_length pkts
    → length pkts < fuel
    → (d : Connection) × (arrive fuel (frames pkts) c ≡ some d)
      × IsReceiving d
      × (packets d.effects ≡ packets c.effects ++ pkts)
unfolding arrive frames
arrive-frames [] zero c r a h = absurd (omega arith)
arrive-frames [] (suc fuel) c r a h = (c, refl, r, sym (append-nil _))
arrive-frames (pkt ∷ pkts) zero c r a h = absurd (omega arith)
arrive-frames (pkt ∷ pkts) (suc fuel) c r a h =
    let (d, e, r', p) =
      arrive-frames pkts fuel (after pkt c) (after-IsReceiving pkt c r) (unfold after in a.1)
        (omega arith) in
    (
      d,
      arrive-one fuel pkt (frames pkts) c r a.0 ∙ e,
      r',
      p ∙ (unfold after packets in append_assoc (packets c.effects) (pkt ∷ []) pkts),
    )

-- Sends of one packet after the other.
unfoldable pub send_all : List Bytes → Connection → Connection
send_all [] c = c
send_all (pkt ∷ pkts) c = send_all pkts (send pkt none c)

on_allocbuf-send :
    (pkt : Bytes) (c : Connection) → c.on_allocbuf ≡ true → (send pkt none c).on_allocbuf ≡ true
unfolding send
on_allocbuf-send pkt c h = ground (
  arith,
  do_send-keeps (enqueue (packet c.defragment (length pkt) pkt none ((pkt, none) ∷ [])) c),
)

has_socket-send : (pkt : Bytes) (c : Connection) → (send pkt none c).has_socket ≡ c.has_socket
unfolding send
has_socket-send pkt c = ground (
  arith,
  do_send-keeps (enqueue (packet c.defragment (length pkt) pkt none ((pkt, none) ∷ [])) c),
)

pub has_socket-send_all :
    (pkts : List Bytes) (c : Connection) → (send_all pkts c).has_socket ≡ c.has_socket
unfolding send_all
has_socket-send_all [] c = refl
has_socket-send_all (pkt ∷ pkts) c =
    has_socket-send_all pkts (send pkt none c) ∙ has_socket-send pkt c

regroup : (s h p f : Bytes) → s ++ h ++ p ++ f ≡ s ++ (h ++ (p ++ f))
regroup s h p f = simp append_assoc

pub stream-send_all :
    (pkts : List Bytes) (c : Connection)
    → c.on_allocbuf ≡ true
    → stream (send_all pkts c) ≡ stream c ++ frames pkts
unfolding send_all frames
stream-send_all [] c h = sym (append-nil (stream c))
stream-send_all (pkt ∷ pkts) c h =
    stream-send_all pkts (send pkt none c) (on_allocbuf-send pkt c h)
    ∙ ap (λ s. s ++ frames pkts) (stream-send pkt none c h)
    ∙ regroup (stream c) (length_header (length pkt)) pkt (frames pkts)

send-IsSettled :
    (done : ℕ) (pkt : Bytes) (c : Connection) → IsSettled done c → IsSettled done (send pkt none c)
send-IsSettled done pkt c h = elim (Bool-cases c.on_allocbuf) [
  | inl e ↦
      subst (IsSettled done) (sym (send_open pkt none c e))
        (enqueue-IsSettled done c (packet c.defragment (length pkt) pkt none ((pkt, none) ∷ [])) h)
  | inr e ↦ subst (IsSettled done) (sym (send_closed pkt none c e)) h
]

pub send_all-IsSettled :
    (done : ℕ) (pkts : List Bytes) (c : Connection)
    → IsSettled done c
    → IsSettled done (send_all pkts c)
unfolding send_all
send_all-IsSettled done [] c h = h
send_all-IsSettled done (pkt ∷ pkts) c h =
    send_all-IsSettled done pkts (send pkt none c) (send-IsSettled done pkt c h)

-- A connection, all of whose writes until then have completed.
abbrev pub wire_of : ℕ → Connection → Wire
wire_of done c = record { conn = c; done = done }

-- End to end: a connection that has sent nothing yet sends packets, all at once, while its writes
-- complete one after the other, each only after it was started and while no other is under way. With
-- one completion more than buffers wait all of them have completed, and what was written makes a peer
-- that accepts the packets hand on exactly these, in order.
pub send-arrive :
    (pkts : List Bytes) (sender receiver : Connection) (n : ℕ)
    → sender.on_allocbuf ≡ true
    → sender.has_socket ≡ true
    → sender.sending_pkt ≡ none
    → sender.outgoing_queue ≡ []
    → written sender.effects ≡ []
    → length (send_all pkts sender).outgoing_queue < n
    → IsReceiving receiver
    → AcceptsAll receiver.max_packet_length pkts
    → let w = complete n (wire_of (writes sender.effects) (send_all pkts sender)) in
      (writes w.conn.effects ≡ w.done)
      × (d : Connection) × (arrive (suc (length pkts)) (written w.conn.effects) receiver ≡ some d)
      × (packets d.effects ≡ packets receiver.effects ++ pkts)
send-arrive pkts sender receiver n alloc sock free empty fresh enough r a =
    let (d, e, _, p) = arrive-frames pkts (suc (length pkts)) receiver r a (omega arith) in
    let idle : IsIdle (writes sender.effects) sender = record {
      socket = sock;
      free = ap is_some free;
      empty = empty;
      counted = refl;
    } in
    let start = wire_of (writes sender.effects) (send_all pkts sender) in
    let done =
      complete-IsDrained n start (send_all-IsSettled (writes sender.effects) pkts sender (inl idle))
        enough in
    let nothing : stream sender ≡ [] =
      ap (λ bs. bs ++ queued sender.outgoing_queue) fresh
      ∙ ap queued empty
      ∙ (unfold queued in refl) in
    let wire : written (complete n start).conn.effects ≡ frames pkts =
      done.sent ∙ stream-send_all pkts sender alloc ∙ ap (λ s. s ++ frames pkts) nothing in
    (done.completed, d, ap (λ bs. arrive (suc (length pkts)) bs receiver) wire ∙ e, p)

-- ===== src/Connection/Lifecycle.antt =====
-- What a connection of r-nat-s/network/tcpconnection.hpp does over its life: who is told of its end,
-- and what a close cuts off.
use r_nat.Common.{
  ℕ, suc, ◌+◌, ◌≤◌, ◌≡◌, refl, Option, none, some, List, [], ◌∷◌, Bool, true, false, if◌then◌else◌,
  length, arith, ◌>>=◌,
}
use r_nat.Protocol.{Bytes}
use r_nat.Connection.{
  Connection, Effect, Callback, ErrorCode, async_write, async_read, post, post_do_recv, shutdown,
  close_socket, disconnected, received, do_send, send, send_v, on_send_callback, packet, enqueue,
  do_recv, on_head_recv_callback, on_recv_callback, close, block_recv, shut_down, start,
  post_callback, parts, concat, total_size,
}

-- The calls and completions that reach a connection.
pub data Op : Type 0 where
  sends : Bytes → Callback → Op
  sends_v : List Bytes → Callback → Op
  closes : Op
  blocks : Bool → Op
  starts : Op
  resumes : Op
  sent : ErrorCode → Op
  head : ErrorCode → Bytes → Op
  body : ErrorCode → Bytes → Op

unfoldable pub step : Connection → Op → Option Connection
step c (sends pkt pfn) = some (send pkt pfn c)
step c (sends_v ds pfn) = send_v ds pfn c
step c closes = some (close c)
step c (blocks b) = some (block_recv b c)
step c starts = start c
step c resumes = do_recv c
step c (sent e) = some (on_send_callback e c)
step c (head e packet_header) = some (on_head_recv_callback e packet_header c)
step c (body e pkt) = on_recv_callback e pkt c

unfoldable pub run : List Op → Connection → Option Connection
run [] c = some c
run (o ∷ os) c = step c o >>= run os

-- How often the owner was told of the end.
unfoldable pub notices : List Effect → ℕ
notices [] = 0
notices (disconnected e ∷ es) = suc (notices es)
notices (async_write pkt ∷ es) = notices es
notices (async_read n ∷ es) = notices es
notices (post f ∷ es) = notices es
notices (post_do_recv ∷ es) = notices es
notices (shutdown ∷ es) = notices es
notices (close_socket ∷ es) = notices es
notices (received pkt ∷ es) = notices es

-- What the owner is handed: packets and the end, newest first.
unfoldable pub handed : List Effect → List Effect
handed [] = []
handed (disconnected e ∷ es) = disconnected e ∷ handed es
handed (received pkt ∷ es) = received pkt ∷ handed es
handed (async_write pkt ∷ es) = handed es
handed (async_read n ∷ es) = handed es
handed (post f ∷ es) = handed es
handed (post_do_recv ∷ es) = handed es
handed (shutdown ∷ es) = handed es
handed (close_socket ∷ es) = handed es

-- What do_send leaves alone: it only writes and posts.
pub record Quiet (c d : Connection) : Type 0 where
  pub told : notices d.effects ≡ notices c.effects
  pub handed : handed d.effects ≡ handed c.effects
  pub same_disconnect : d.on_disconnect ≡ c.on_disconnect
  pub same_recv : d.on_recv ≡ c.on_recv

post_callback-notices :
    (pfn : Callback) (es : List Effect) → notices (post_callback pfn es) ≡ notices es
unfolding notices
post_callback-notices none es = refl
post_callback-notices (some f) es = refl

post_callback-handed :
    (pfn : Callback) (es : List Effect) → handed (post_callback pfn es) ≡ handed es
unfolding handed
post_callback-handed none es = refl
post_callback-handed (some f) es = refl

do_send-Quiet_on :
    (c : Connection) (q : List (Bytes × Callback)) → c.outgoing_queue ≡ q → Quiet c (do_send c)
unfolding do_send notices handed
do_send-Quiet_on c [] e = ground arith
do_send-Quiet_on c ((pkt, pfn) ∷ q) e =
    ground (arith, post_callback-notices pfn c.effects, post_callback-handed pfn c.effects)

pub do_send-Quiet : (c : Connection) → Quiet c (do_send c)
do_send-Quiet c = do_send-Quiet_on c c.outgoing_queue refl

pub send-Quiet : (pkt : Bytes) (pfn : Callback) (c : Connection) → Quiet c (send pkt pfn c)
unfolding send
send-Quiet pkt pfn c =
    ground (
      arith,
      do_send-Quiet (enqueue (packet c.defragment (length pkt) pkt pfn ((pkt, pfn) ∷ [])) c),
    )

pub send_v-Quiet :
    (ds : List Bytes) (pfn : Callback) (c d : Connection) → send_v ds pfn c ≡ some d → Quiet c d
unfolding send_v
send_v-Quiet ds pfn c d h = ground (
  arith,
  do_send-Quiet (enqueue (packet c.defragment (total_size ds) (concat ds) pfn (parts ds pfn)) c),
)

pub do_recv-Quiet : (c d : Connection) → do_recv c ≡ some d → Quiet c d
unfolding do_recv notices handed
do_recv-Quiet c d h = ground arith

start-Quiet_from :
    (c : Connection) (o : Option Connection) (d : Connection)
    → do_recv c ≡ o
    → (o >>= λ e. some (do_send e)) ≡ some d
    → Quiet c d
start-Quiet_from c none d e h = cc
start-Quiet_from c (some b) d e h = ground (arith, do_recv-Quiet c b e, do_send-Quiet b)

pub start-Quiet : (c d : Connection) → start c ≡ some d → Quiet c d
unfolding start
start-Quiet c d h = start-Quiet_from c (do_recv c) d refl h

-- The owner has been told once at most, and not at all while on_disconnect is still set.
abbrev pub ToldOnce : Connection → Type 0
ToldOnce c = notices c.effects + (if c.on_disconnect then 1 else 0) ≤ 1

Quiet-ToldOnce : {c d : Connection} → Quiet c d → ToldOnce c → ToldOnce d
Quiet-ToldOnce q h = ground arith

-- Every call and every completion keeps it so: the end of a connection is announced once at most.
pub step-ToldOnce : (c d : Connection) (o : Op) → step c o ≡ some d → ToldOnce c → ToldOnce d
unfolding step
step-ToldOnce c d (sends pkt pfn) e h = ground (arith, Quiet-ToldOnce (send-Quiet pkt pfn c) h)
step-ToldOnce c d (sends_v ds pfn) e h = Quiet-ToldOnce (send_v-Quiet ds pfn c d e) h
step-ToldOnce c d closes e h = unfold close notices in ground arith
step-ToldOnce c d (blocks b) e h = unfold block_recv notices in ground arith
step-ToldOnce c d starts e h = Quiet-ToldOnce (start-Quiet c d e) h
step-ToldOnce c d resumes e h = Quiet-ToldOnce (do_recv-Quiet c d e) h
step-ToldOnce c d (sent none) e h =
    unfold on_send_callback in
    ground (arith, Quiet-ToldOnce (do_send-Quiet (record c { sending_pkt = none })) h)
step-ToldOnce c d (sent (some x)) e h = unfold on_send_callback notices shut_down in ground arith
step-ToldOnce c d (head none packet_header) e h =
    unfold on_head_recv_callback notices shut_down in ground arith
step-ToldOnce c d (head (some x) packet_header) e h =
    unfold on_head_recv_callback notices shut_down in ground arith
step-ToldOnce c d (body none pkt) e h = unfold on_recv_callback do_recv notices in ground arith
step-ToldOnce c d (body (some x) pkt) e h =
    unfold on_recv_callback notices shut_down in ground arith

-- After Close of a connection whose receiving is not blocked, Send is ignored, but SendV throws,
-- and so does the completion of a read that had succeeded before.
pub close_throws :
    (c : Connection) (pkt : Bytes) (ds : List Bytes) (pfn : Callback)
    → c.has_socket ≡ true
    → c.blocking_recv ≡ false
    → (send pkt pfn (close c) ≡ close c)
      × (send_v ds pfn (close c) ≡ none)
      × (on_recv_callback none pkt (close c) ≡ none)
unfolding close send send_v on_recv_callback do_recv
close_throws c pkt ds pfn s b = ground arith

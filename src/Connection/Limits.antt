-- ===== src/Connection/Limits.antt =====
-- How much a connection of r-nat-s/network/tcpconnection.hpp lets its peer make it read at once.
use r_nat.Common.{
  ℕ, ◌≡◌, refl, ◌∙◌, inl, inr, none, some, List, [], ◌∷◌, Bool, true, ◌&&◌, ◌||◌, ◌==◌, leb, ◌<◌,
  length, arith, Option-cases, ◌>>=◌,
}
use r_nat.Protocol.{Bytes}
use r_nat.Connection.{
  Connection, Effect, Callback, async_write, async_read, post, post_do_recv, shutdown, close_socket,
  disconnected, received, packet_header_length, do_send, send, send_v, on_send_callback, packet,
  enqueue, do_recv, on_head_recv_callback, on_recv_callback, close, block_recv, shut_down, start,
  post_callback, parts, concat, total_size,
}
use r_nat.Connection.Lifecycle.{
  Op, sends, sends_v, closes, blocks, starts, resumes, sent, head, body, step, run,
}

-- Every read that was asked of asio is of a header, or of at most `m` bytes.
unfoldable pub reads_within : ℕ → List Effect → Bool
reads_within m [] = true
reads_within m (async_read n ∷ es) = (n == packet_header_length || leb n m) && reads_within m es
reads_within m (async_write pkt ∷ es) = reads_within m es
reads_within m (post f ∷ es) = reads_within m es
reads_within m (post_do_recv ∷ es) = reads_within m es
reads_within m (shutdown ∷ es) = reads_within m es
reads_within m (close_socket ∷ es) = reads_within m es
reads_within m (disconnected e ∷ es) = reads_within m es
reads_within m (received pkt ∷ es) = reads_within m es

-- The limit stays, and so does what the reads keep to.
record Bounded (m : ℕ) (c d : Connection) : Type 0 where
  limit : d.max_packet_length ≡ c.max_packet_length
  reads : reads_within m c.effects ≡ true → reads_within m d.effects ≡ true

post_callback-reads_within :
    (m : ℕ) (pfn : Callback) (es : List Effect)
    → reads_within m (post_callback pfn es) ≡ reads_within m es
unfolding reads_within
post_callback-reads_within m none es = refl
post_callback-reads_within m (some f) es = refl

do_send-Bounded_on :
    (m : ℕ) (c : Connection) (q : List (Bytes × Callback))
    → c.outgoing_queue ≡ q
    → Bounded m c (do_send c)
unfolding do_send reads_within
do_send-Bounded_on m c [] e = ground arith
do_send-Bounded_on m c ((pkt, pfn) ∷ q) e =
    ground (arith, post_callback-reads_within m pfn c.effects)

do_send-Bounded : (m : ℕ) (c : Connection) → Bounded m c (do_send c)
do_send-Bounded m c = do_send-Bounded_on m c c.outgoing_queue refl

do_recv-Bounded : (m : ℕ) (c d : Connection) → do_recv c ≡ some d → Bounded m c d
unfolding do_recv reads_within
do_recv-Bounded m c d h = ground arith

start-Bounded : (m : ℕ) (c d : Connection) → start c ≡ some d → Bounded m c d
unfolding start
start-Bounded m c d h = elim (Option-cases (do_recv c)) [
  | inl e ↦ absurd (ground (arith, e))
  | inr (b, e) ↦ ground (arith, e, do_recv-Bounded m c b e, do_send-Bounded m b)
]

step-Bounded :
    (m : ℕ) (c d : Connection) (o : Op)
    → 0 < m
    → c.max_packet_length ≡ m
    → step c o ≡ some d
    → Bounded m c d
unfolding step
step-Bounded m c d (sends pkt pfn) p l e =
    unfold send in
    ground (
      arith,
      do_send-Bounded m (enqueue (packet c.defragment (length pkt) pkt pfn ((pkt, pfn) ∷ [])) c),
    )
step-Bounded m c d (sends_v ds pfn) p l e =
    unfold send_v in
    ground (
      arith,
      do_send-Bounded m
          (enqueue (packet c.defragment (total_size ds) (concat ds) pfn (parts ds pfn)) c),
    )
step-Bounded m c d closes p l e = unfold close reads_within in ground arith
step-Bounded m c d (blocks b) p l e = unfold block_recv reads_within in ground arith
step-Bounded m c d starts p l e = start-Bounded m c d e
step-Bounded m c d resumes p l e = do_recv-Bounded m c d e
step-Bounded m c d (sent none) p l e =
    unfold on_send_callback in ground (arith, do_send-Bounded m (record c { sending_pkt = none }))
step-Bounded m c d (sent (some x)) p l e =
    unfold on_send_callback reads_within shut_down in ground arith
step-Bounded m c d (head none packet_header) p l e =
    unfold on_head_recv_callback reads_within shut_down in ground arith
step-Bounded m c d (head (some x) packet_header) p l e =
    unfold on_head_recv_callback reads_within shut_down in ground arith
step-Bounded m c d (body none pkt) p l e =
    unfold on_recv_callback do_recv reads_within in ground arith
step-Bounded m c d (body (some x) pkt) p l e =
    unfold on_recv_callback reads_within shut_down in ground arith

-- No peer makes a connection with a limit read more at once: over every sequence of calls and
-- completions, whatever lengths the headers claim, each read that is asked of asio is of a header or
-- of at most max_packet_length_ bytes.
pub run-reads_within :
    (os : List Op) (m : ℕ) (c d : Connection)
    → 0 < m
    → c.max_packet_length ≡ m
    → reads_within m c.effects ≡ true
    → run os c ≡ some d
    → reads_within m d.effects ≡ true
unfolding run
run-reads_within [] m c d p l w e = ground arith
run-reads_within (o ∷ os) m c d p l w e = elim (Option-cases (step c o)) [
  | inl x ↦ absurd (ground (arith, x))
  | inr (b, x) ↦
      let k = step-Bounded m c b o p l x in
      run-reads_within os m b d p (k.limit ∙ l) (k.reads w) (rw (x, ◌>>=◌) at e)
]

-- ===== src/Connection/Writing.antt =====
-- The writes of r-nat-s/network/tcpconnection.hpp, one after the other: how they complete, and that they
-- go on until nothing waits.
use r_nat.Common.{
  ℕ, zero, suc, ◌<◌, ◌≡◌, refl, sym, ap, ◌∙◌, subst, ◌⊎◌, inl, inr, none, some, List, [], ◌∷◌, ◌++◌,
  true, false, ◌==◌, length, arith, append-nil, is_some, if◌then◌else◌,
}
use r_nat.Protocol.{Bytes}
use r_nat.Connection.{Callback}
use r_nat.Connection.{
  Connection, Effect, async_write, do_send, enqueue, on_send_callback, post_callback,
}
use r_nat.Connection.Stream.{written, queued, stream, stream-on_send_callback}

-- How many writes were started.
unfoldable pub writes : List Effect → ℕ
writes [] = 0
writes (async_write pkt ∷ es) = suc (writes es)
writes (e ∷ es) = writes es

-- A connection and how many of its writes have completed.
pub record Wire : Type 0 where
  pub conn : Connection
  pub done : ℕ

-- A write completes if it is the only one that was started and has not completed: asio gives no order
-- to the bytes of two writes at once, and completes none that was not started.
unfoldable pub complete_one : Wire → Wire
complete_one w =
    if writes w.conn.effects == suc w.done
    then record { conn = on_send_callback none w.conn; done = suc w.done }
    else w

-- `n` times.
unfoldable pub complete : ℕ → Wire → Wire
complete zero w = w
complete (suc n) w = complete n (complete_one w)

-- No write is under way and nothing waits.
pub record IsIdle (done : ℕ) (c : Connection) : Type 0 where
  pub socket : c.has_socket ≡ true
  pub free : is_some c.sending_pkt ≡ false
  pub empty : c.outgoing_queue ≡ []
  pub counted : writes c.effects ≡ done

-- One write is under way.
pub record IsBusy (done : ℕ) (c : Connection) : Type 0 where
  pub socket : c.has_socket ≡ true
  pub taken : is_some c.sending_pkt ≡ true
  pub counted : writes c.effects ≡ suc done

abbrev pub IsSettled : ℕ → Connection → Type 0
IsSettled done c = IsIdle done c ⊎ IsBusy done c

writes-post_callback :
    (pfn : Callback) (es : List Effect) → writes (post_callback pfn es) ≡ writes es
unfolding writes
writes-post_callback none es = refl
writes-post_callback (some f) es = refl

-- __DoSend of a connection on which no write is under way: with nothing queued nothing happens.
do_send-IsIdle :
    (done : ℕ) (c : Connection)
    → c.has_socket ≡ true
    → is_some c.sending_pkt ≡ false
    → c.outgoing_queue ≡ []
    → writes c.effects ≡ done
    → IsIdle done (do_send c)
unfolding do_send
do_send-IsIdle done c s f e w = record {
  socket = ground arith;
  free = ground arith;
  empty = ground arith;
  counted = ground arith;
}

-- And otherwise the first buffer is written.
do_send-IsBusy :
    (done : ℕ) (c : Connection) (pkt : Bytes) (pfn : Callback) (q : List (Bytes × Callback))
    → c.has_socket ≡ true
    → is_some c.sending_pkt ≡ false
    → c.outgoing_queue ≡ (pkt, pfn) ∷ q
    → writes c.effects ≡ done
    → IsBusy done (do_send c) × ((do_send c).outgoing_queue ≡ q)
unfolding do_send writes
do_send-IsBusy done c pkt pfn q s f e w =
    let p = writes-post_callback pfn c.effects in
    (
      record { socket = ground arith; taken = ground arith; counted = ground (arith, p) },
      ground arith,
    )

do_send-IsSettled_on :
    (done : ℕ) (c : Connection) (q : List (Bytes × Callback))
    → c.outgoing_queue ≡ q
    → c.has_socket ≡ true
    → is_some c.sending_pkt ≡ false
    → writes c.effects ≡ done
    → IsSettled done (do_send c)
do_send-IsSettled_on done c [] e s f w = inl (do_send-IsIdle done c s f e w)
do_send-IsSettled_on done c ((pkt, pfn) ∷ q) e s f w =
    inr (do_send-IsBusy done c pkt pfn q s f e w).0

pub do_send-IsSettled :
    (done : ℕ) (c : Connection)
    → c.has_socket ≡ true
    → is_some c.sending_pkt ≡ false
    → writes c.effects ≡ done
    → IsSettled done (do_send c)
do_send-IsSettled done c s f w = do_send-IsSettled_on done c c.outgoing_queue refl s f w

do_send-waits : (done : ℕ) (c : Connection) → IsBusy done c → IsBusy done (do_send c)
unfolding do_send
do_send-waits done c h = ground (arith, h.socket, h.taken, h.counted)

-- Send keeps it so: it starts a write only if none is under way.
pub enqueue-IsSettled :
    (done : ℕ) (c : Connection) (pkts : List (Bytes × Callback))
    → IsSettled done c
    → IsSettled done (do_send (enqueue pkts c))
enqueue-IsSettled done c pkts (inl h) =
    do_send-IsSettled done (enqueue pkts c) h.socket h.free h.counted
enqueue-IsSettled done c pkts (inr h) = inr (
    do_send-waits done (enqueue pkts c)
      (record { socket = h.socket; taken = h.taken; counted = h.counted }))

-- After a connection has settled nothing more completes.
complete-idle : (n : ℕ) (w : Wire) → IsIdle w.done w.conn → complete n w ≡ w
unfolding complete complete_one
complete-idle zero w h = refl
complete-idle (suc n) w h =
    let same : complete_one w ≡ w = unfold complete_one in ground (arith, h.counted) in
    ap (complete n) same ∙ complete-idle n w h

-- All that was queued has been written, every write has completed, and no byte was lost.
pub record IsDrained (w v : Wire) : Type 0 where
  pub completed : writes v.conn.effects ≡ v.done
  pub drained : v.conn.outgoing_queue ≡ []
  pub sent : written v.conn.effects ≡ stream w.conn

IsIdle-IsDrained : (n : ℕ) (w : Wire) → IsIdle w.done w.conn → IsDrained w (complete n w)
IsIdle-IsDrained n w h = subst (IsDrained w) (sym (complete-idle n w h)) (record {
  completed = h.counted;
  drained = h.empty;
  sent = sym (
      ap (λ q. written w.conn.effects ++ queued q) h.empty
      ∙ (unfold queued in append-nil (written w.conn.effects)));
})

complete_one-busy :
    (w : Wire)
    → IsBusy w.done w.conn
    → complete_one w ≡ record { conn = on_send_callback none w.conn; done = suc w.done }
unfolding complete_one
complete_one-busy w h = rw h.counted (ground arith)

busy-IsDrained :
    (n : ℕ) (w : Wire) (q : List (Bytes × Callback))
    → w.conn.outgoing_queue ≡ q
    → length q < n
    → IsBusy w.done w.conn
    → IsDrained w (complete n w)
unfolding complete on_send_callback
busy-IsDrained zero w q e l h = absurd (omega arith)
busy-IsDrained (suc n) w [] e l h =
    let v : Wire = record { conn = on_send_callback none w.conn; done = suc w.done } in
    let i : IsIdle v.done v.conn =
      do_send-IsIdle v.done (record w.conn { sending_pkt = none }) h.socket refl e h.counted in
    let d = IsIdle-IsDrained n v i in
    subst (λ u. IsDrained w (complete n u)) (sym (complete_one-busy w h))
      (record {
        completed = d.completed;
        drained = d.drained;
        sent = d.sent ∙ stream-on_send_callback w.conn;
      })
busy-IsDrained (suc n) w ((pkt, pfn) ∷ q) e l h =
    let v : Wire = record { conn = on_send_callback none w.conn; done = suc w.done } in
    let b =
      do_send-IsBusy v.done (record w.conn { sending_pkt = none }) pkt pfn q h.socket refl e
        h.counted in
    let d = busy-IsDrained n v q b.1 (omega arith) b.0 in
    subst (λ u. IsDrained w (complete n u)) (sym (complete_one-busy w h))
      (record {
        completed = d.completed;
        drained = d.drained;
        sent = d.sent ∙ stream-on_send_callback w.conn;
      })

-- One completed write after the other, each started before it completes and none while another is
-- under way, empties the queue.
pub complete-IsDrained :
    (n : ℕ) (w : Wire)
    → IsSettled w.done w.conn
    → length w.conn.outgoing_queue < n
    → IsDrained w (complete n w)
complete-IsDrained n w (inl h) l = IsIdle-IsDrained n w h
complete-IsDrained n w (inr h) l = busy-IsDrained n w w.conn.outgoing_queue refl l h

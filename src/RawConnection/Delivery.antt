-- ===== src/RawConnection/Delivery.antt =====
-- From one end of r-nat-s/network/rawtcpconnection.hpp to the other.
use r_nat.Common.{
  ℕ, ◌<◌, ◌≡◌, inl, is_some, refl, sym, ap, ◌∙◌, none, some, List, [], ◌∷◌, ◌++◌, true, length,
  append_assoc, append-nil,
}
use r_nat.Protocol.{Bytes}
use r_nat.Connection.{concat}
use r_nat.Connection.Stream.{queued}
use r_nat.RawConnection.{RawConnection, send}
use r_nat.RawConnection.Writing.{
  writes, Wire, complete, IsIdle, IsSettled, enqueue-IsSettled, complete-IsDrained,
}
use r_nat.RawConnection.Stream.{
  raw_stream, raw_stream-sends, written, arrive_all, IsReading, read, arrive_all-read,
}

unfoldable pub send_all : List Bytes → RawConnection → RawConnection
send_all [] c = c
send_all (buf ∷ bufs) c = send_all bufs (send buf none c)

raw_stream-send_all :
    (bufs : List Bytes) (c : RawConnection)
    → raw_stream (send_all bufs c) ≡ raw_stream c ++ concat bufs
unfolding send_all concat
raw_stream-send_all [] c = sym (append-nil (raw_stream c))
raw_stream-send_all (buf ∷ bufs) c =
    raw_stream-send_all bufs (send buf none c)
    ∙ ap (λ s. s ++ concat bufs) (raw_stream-sends buf [] none c).0
    ∙ append_assoc (raw_stream c) buf (concat bufs)

send_all-IsSettled :
    (done : ℕ) (bufs : List Bytes) (c : RawConnection)
    → IsSettled done c
    → IsSettled done (send_all bufs c)
unfolding send_all send
send_all-IsSettled done [] c h = h
send_all-IsSettled done (buf ∷ bufs) c h =
    send_all-IsSettled done bufs (send buf none c) (enqueue-IsSettled done c ((buf, none) ∷ []) h)

-- A connection, all of whose writes until then have completed.
abbrev pub wire_of : ℕ → RawConnection → Wire
wire_of done c = record { conn = c; done = done }

-- End to end without frames: an idle connection sends buffers, all at once, while its writes complete
-- one after the other, each only after it was started and while no other is under way. With one
-- completion more than buffers wait all of them have completed, and a peer that reads what was
-- written, before and now, hands on all of it, in order, however the bytes were cut into chunks.
pub send-arrive_all :
    (bufs chunks : List Bytes) (sender receiver : RawConnection) (n : ℕ)
    → sender.has_socket ≡ true
    → sender.sending_pkt ≡ none
    → sender.outgoing_queue ≡ []
    → length (send_all bufs sender).outgoing_queue < n
    → concat chunks
      ≡ written (complete n (wire_of (writes sender.effects) (send_all bufs sender))).conn.effects
    → IsReading receiver
    → let w = complete n (wire_of (writes sender.effects) (send_all bufs sender)) in
      (writes w.conn.effects ≡ w.done)
      × (d : RawConnection) × (arrive_all chunks receiver ≡ some d)
      × (read d.effects ≡ read receiver.effects ++ (written sender.effects ++ concat bufs))
send-arrive_all bufs chunks sender receiver n sock free empty enough cut r =
    let (d, e, _, p) = arrive_all-read chunks receiver r in
    let idle : IsIdle (writes sender.effects) sender = record {
      socket = sock;
      free = ap is_some free;
      empty = empty;
      counted = refl;
    } in
    let start = wire_of (writes sender.effects) (send_all bufs sender) in
    let done =
      complete-IsDrained n start (send_all-IsSettled (writes sender.effects) bufs sender (inl idle))
        enough in
    let before : raw_stream sender ≡ written sender.effects =
      ap (λ q. written sender.effects ++ queued q) empty
      ∙ (unfold queued in append-nil (written sender.effects)) in
    let wire = done.sent ∙ raw_stream-send_all bufs sender ∙ ap (λ bs. bs ++ concat bufs) before in
    (done.completed, d, e, p ∙ ap (λ bs. read receiver.effects ++ bs) (cut ∙ wire))

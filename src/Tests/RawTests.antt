-- ===== src/Tests/RawTests.antt =====
-- The unframed connection at concrete inputs.
use r_nat.Common.{List, none, some, [], ◌∷◌, ◌++◌, true, ◌≡◌, refl, arith}
use r_nat.Protocol.{Bytes}
use r_nat.Connection.{concat, operation_aborted}
use r_nat.RawConnection.{RawConnection, create, close, send, send_v, do_send, on_send_callback}
use r_nat.RawConnection.Closing.{Op, sends, sent, body, run, handed}
use r_nat.RawConnection.Callbacks.{owed, callbacks, run-close-silent}
use r_nat.RawConnection.Delivery.{send_all, wire_of, send-arrive_all}
use r_nat.RawConnection.Writing.{writes, complete, complete_one}
use r_nat.RawConnection.Stream.{raw_stream, raw_stream-sends, written, arrive_all, IsReading, read}

abbrev text : Bytes
text = 104 ∷ 105 ∷ []

abbrev raw_connection : RawConnection
raw_connection = record create {
  is_open = true;
  outgoing_queue = (text, none) ∷ (text, some 3) ∷ [];
  on_allocbuf = true;
  on_disconnect = true;
  on_recv = true;
}

raw_stream-sends_example :
    (raw_stream (send text none raw_connection) ≡ raw_stream raw_connection ++ text)
    × (raw_stream (send_v (text ∷ text ∷ []) none raw_connection)
        ≡ raw_stream raw_connection ++ concat (text ∷ text ∷ []))
raw_stream-sends_example = raw_stream-sends text (text ∷ text ∷ []) none raw_connection

raw_connection-IsReading : IsReading raw_connection
unfolding create
raw_connection-IsReading = record {
  socket = refl;
  listener = refl;
  allocator = refl;
  unblocked = refl;
}

abbrev idle_connection : RawConnection
idle_connection = record raw_connection { outgoing_queue = [] }

send-arrive_all_example :
    let w = complete 4 (wire_of 0 (send_all (text ∷ text ∷ []) idle_connection)) in
    (writes w.conn.effects ≡ w.done)
    × (d : RawConnection) × (arrive_all ((104 ∷ []) ∷ (105 ∷ 104 ∷ 105 ∷ []) ∷ []) raw_connection
        ≡ some d)
    × (read d.effects
        ≡ read raw_connection.effects
          ++ (written idle_connection.effects ++ concat (text ∷ text ∷ [])))
unfolding create written writes complete complete_one send_all send do_send on_send_callback concat
send-arrive_all_example =
    send-arrive_all (text ∷ text ∷ []) ((104 ∷ []) ∷ (105 ∷ 104 ∷ 105 ∷ []) ∷ []) idle_connection
      raw_connection 4 refl refl refl (omega arith) refl raw_connection-IsReading

-- The user still sends, a write and a read complete, and a write fails.
abbrev late : List Op
late = sends text (some 7) ∷ sent none ∷ body none text ∷ sent (some operation_aborted) ∷ []

run-close-silent_example :
    (d : RawConnection) × (run late (close raw_connection) ≡ some d)
    × (handed d.effects ≡ handed raw_connection.effects)
    × (owed d ≡ owed raw_connection ++ 7 ∷ [])
unfolding create callbacks
run-close-silent_example = run-close-silent late raw_connection refl

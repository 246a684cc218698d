-- ===== src/TcpServer/Setting.antt =====
-- The constructor and the setters of r-nat-s/network/tcpserver.hpp; what is set counts from the next
-- connection on.
use r_nat.Common.{ℕ, [], true, false}
use r_nat.TcpServer.{TcpServer}

module _ {C : Type 0} where
  -- The owner has set the callbacks.
  abbrev pub new_tcp_server : TcpServer C
  new_tcp_server = record {
    inited = false;
    next_seq = 0;
    port = 0;
    settings = record { max_packet_length = 0; recv_buf_length = 0; nodelay = 0; defragment = 0 };
    acceptors = [];
    conns = [];
    on_connect = true;
    on_disconnect = true;
    on_recv = true;
    effects = [];
  }

  abbrev pub set_max_packet_length : ℕ → TcpServer C → TcpServer C
  set_max_packet_length l s = record s { settings = record s.settings { max_packet_length = l } }

  abbrev pub set_no_delay : ℕ → TcpServer C → TcpServer C
  set_no_delay nodelay s = record s { settings = record s.settings { nodelay = nodelay } }

  abbrev pub set_recvbuf_size : ℕ → TcpServer C → TcpServer C
  set_recvbuf_size l s = record s { settings = record s.settings { recv_buf_length = l } }

  abbrev pub set_defragment : ℕ → TcpServer C → TcpServer C
  set_defragment defragment s = record s {
    settings = record s.settings { defragment = defragment };
  }

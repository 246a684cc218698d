-- ===== src/TcpClient/Setting.antt =====
-- The setters of r-nat-c/network/tcpclient.hpp and rawtcpclient.hpp: each keeps the value for the next
-- Start and gives it to the connection that is there.
use r_nat.Common.{ℕ, Option, none, some, []}
use r_nat.Connection.{Connection}
use r_nat.Connection as Framed
use r_nat.TcpClient.{TcpClient, ClientConnection, ClientOps, timeout_of}

module _ {C : Type 0} where
  -- The constructor.
  abbrev pub new_client : TcpClient C
  new_client = record {
    settings = record {
      max_packet_length = 0;
      recv_buf_length = 0;
      connect_timeout = 0;
      nodelay = 0;
      defragment = 0;
    };
    impl = none;
    posted = [];
  }

  abbrev on_client :
      (ClientConnection C → ClientConnection C)
      → Option (ClientConnection C)
      → Option (ClientConnection C)
  on_client f none = none
  on_client f (some c) = some (f c)

  abbrev on_conn : (C → C) → Option (ClientConnection C) → Option (ClientConnection C)
  on_conn f o = on_client (λ c. record c { conn = f c.conn }) o

  unfoldable pub set_connect_timeout : ℕ → TcpClient C → TcpClient C
  set_connect_timeout l t = record t {
    settings = record t.settings { connect_timeout = l };
    impl = on_client (λ c. record c { connect_timeout = timeout_of l }) t.impl;
  }

module _ {C : Type 0} (ops : ClientOps C) where
  unfoldable pub set_max_packet_length : ℕ → TcpClient C → TcpClient C
  set_max_packet_length l t = record t {
    settings = record t.settings { max_packet_length = l };
    impl = on_conn (ops.set_max_packet_length l) t.impl;
  }

  unfoldable pub set_no_delay : ℕ → TcpClient C → TcpClient C
  set_no_delay nodelay t = record t {
    settings = record t.settings { nodelay = nodelay };
    impl = on_conn (ops.set_no_delay nodelay) t.impl;
  }

  unfoldable pub set_recvbuf_size : ℕ → TcpClient C → TcpClient C
  set_recvbuf_size l t = record t {
    settings = record t.settings { recv_buf_length = l };
    impl = on_conn (ops.set_recvbuf_size l) t.impl;
  }

-- Only TcpClient has it.
unfoldable pub set_defragment : ℕ → TcpClient Connection → TcpClient Connection
set_defragment defragment t = record t {
  settings = record t.settings { defragment = defragment };
  impl = on_conn (Framed.set_defragment defragment) t.impl;
}

-- ===== src/Agent/Clients.antt =====
-- The clients that r-nat-c/app1/app1.cpp makes: __CreateTcpClient and __CreateRawTcpClient. The
-- __Create functions above them only wire callbacks, which the handlers' arguments stand for.
use r_nat.Common.{ℕ, ◌≡◌, refl, some, ltb, if◌then◌else◌}
use r_nat.Endpoint.{Endpoint}
use r_nat.Config.{System}
use r_nat.Connection.{Connection, default_buffer_length}
use r_nat.RawConnection.{RawConnection}
use r_nat.TcpClient.{
  TcpClient, ClientConnection, tcp_client_ops, raw_client_ops, start, make_tcp, make_raw,
  tcp_connecting, raw_connecting, timeout_of,
}
use r_nat.TcpClient.Setting.{
  new_client, set_max_packet_length, set_no_delay, set_recvbuf_size, set_connect_timeout,
  set_defragment,
}

unfoldable pub create_tcp_client : System → TcpClient Connection
unfolding set_max_packet_length set_no_delay set_recvbuf_size set_connect_timeout set_defragment
create_tcp_client s = set_defragment s.packet_defragment (
    set_connect_timeout s.tcp_connect_timeout (
      set_recvbuf_size tcp_client_ops s.recv_buf_size (
        set_no_delay tcp_client_ops s.tcp_send_no_delay
          (set_max_packet_length tcp_client_ops s.max_packet_size new_client))))

unfoldable pub create_raw_tcp_client : System → TcpClient RawConnection
unfolding set_max_packet_length set_no_delay set_recvbuf_size set_connect_timeout
create_raw_tcp_client s = set_connect_timeout s.tcp_connect_timeout (
    set_recvbuf_size raw_client_ops s.recv_buf_size (
      set_no_delay raw_client_ops s.tcp_send_no_delay
        (set_max_packet_length raw_client_ops s.max_packet_size new_client)))

abbrev pub buffer_size : ℕ → ℕ
buffer_size l = if ltb default_buffer_length l then l else default_buffer_length

-- Of the settings of a configuration, a client of the agent that is started gives its connection the
-- longest packet, the buffer's length (4096 at least) and the time to connect (30 where it is 0), with
-- frames and without; NoDelay and Defragment it keeps and does not give on, whatever they say.
start-create_tcp_client :
    (ep : Endpoint) (s : System)
    → ((c : ClientConnection Connection) × (start tcp_client_ops ep (create_tcp_client s)
          ≡ some (record (create_tcp_client s) { impl = some c }))
        × (c.conn.max_packet_length ≡ s.max_packet_size)
        × (c.conn.recv_buf_length ≡ buffer_size s.recv_buf_size)
        × (c.connect_timeout ≡ timeout_of s.tcp_connect_timeout)
        × (c.conn.nodelay ≡ 0)
        × (c.conn.defragment ≡ 0)
        × ((create_tcp_client s).settings.nodelay ≡ s.tcp_send_no_delay)
        × ((create_tcp_client s).settings.defragment ≡ s.packet_defragment))
      × ((c : ClientConnection RawConnection) × (start raw_client_ops ep (create_raw_tcp_client s)
            ≡ some (record (create_raw_tcp_client s) { impl = some c }))
          × (c.conn.max_packet_length ≡ s.max_packet_size)
          × (c.conn.recv_buf_length ≡ buffer_size s.recv_buf_size)
          × (c.connect_timeout ≡ timeout_of s.tcp_connect_timeout)
          × (c.conn.nodelay ≡ 0)
          × ((create_raw_tcp_client s).settings.nodelay ≡ s.tcp_send_no_delay))
unfolding create_tcp_client create_raw_tcp_client start make_tcp make_raw tcp_connecting
    raw_connecting
start-create_tcp_client ep s =
    ((_, refl, refl, refl, refl, refl, refl, refl, refl), (_, refl, refl, refl, refl, refl, refl))

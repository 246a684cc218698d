-- ===== src/Agent/Tunnel.antt =====
-- r-nat-c/app1/tunnel.cpp and session_tunnel.cpp: what the connections to the relay report.
use r_nat.Common.{
  ℕ, suc, ◌/◌, ◌%◌, Option, none, some, List, [], ◌∷◌, true, false, ◌&&◌, not, if◌then◌else◌, Map,
  nat_key, lookup, insert, length, get_elem?, leb, ltb, ◌==◌,
}
use r_nat.Balance.{inc32, dec32}
use r_nat.Protocol.{Bytes, A2r, R2a, put_a2r, parse_r2a}
use r_nat.Relay.User.{cli_index}
use r_nat.Agent.State.{
  App, User, user_key, Endpoint, Client, user_conn, session_conn, tunnel_conn, tunnel_sent, Effect,
  start, send, block_recv, close, post_reconnect, emit, set_session, set_remote, new_session,
  clean_session,
}

-- The client that the remote holds now.
abbrev pub tunnel_of : ℕ → App → Client
tunnel_of remote s = tunnel_conn remote (s.remote_at remote).tunnel

unfoldable pub announce : ℕ → List ℕ → App → App
announce remote [] s = s
announce remote (port ∷ ports) s =
    announce remote ports (emit (send (tunnel_of remote s) (put_a2r (A2r.bind port)) none) s)

unfoldable pub on_server_connect : ℕ → App → App
unfolding announce
on_server_connect remote s = announce remote s.service_ports s

unfoldable pub close_users : Map User ℕ → List Effect → List Effect
close_users [] es = es
close_users ((usr, session) ∷ rest) es =
    close_users rest (close (session_conn session) ∷ close (user_conn session) ∷ es)

unfoldable pub on_server_disconnect : ℕ → App → App
unfolding close_users
on_server_disconnect remote s =
    let rem = s.remote_at remote in
    emit (post_reconnect remote) (
      set_remote remote (record rem { users = [] })
        (record s { effects = close_users rem.users s.effects }))

-- The function that __OnServerDisconnect posts.
unfoldable pub reconnect : ℕ → App → App
reconnect remote s =
    let rem = s.remote_at remote in
    let number = suc rem.tunnel in
    emit (start (tunnel_conn remote number) rem.ep)
      (set_remote remote (record rem { tunnel = number }) s)

-- The corking of a session by the bytes that came from the relay.
unfoldable pub cork_tunnel : ℕ → ℕ → App → App
unfolding inc32
cork_tunnel queue_limit session s =
    let ses = s.session_at session in
    let traffic = inc32 ses.tunnel_traffic in
    if not (queue_limit == 0) && (not ses.tunnel_corked && ltb queue_limit traffic)
    then emit (block_recv (session_conn session) true)
        (set_session session (record ses { tunnel_traffic = traffic; tunnel_corked = true }) s)
    else set_session session (record ses { tunnel_traffic = traffic }) s

-- DATA, the same in __OnServerRecv and __OnSessionRecv.
unfoldable pub on_relay_data : ℕ → User → Bytes → App → App
unfolding cork_tunnel
on_relay_data remote usr pkt s = elim (lookup usr (s.remote_at remote).users) [
  | none ↦ s
  | some session ↦
      emit (send (user_conn session) pkt (some (tunnel_sent remote session usr)))
        (cork_tunnel s.queue_limit session s)
]

-- The uncorking, when a buffer has been sent on.
unfoldable pub uncork_tunnel : ℕ → ℕ → App → App
unfolding dec32
uncork_tunnel queue_limit session s =
    let ses = s.session_at session in
    let traffic = dec32 ses.tunnel_traffic in
    if not (queue_limit == 0) && (ses.tunnel_corked && leb traffic (queue_limit / 2))
    then emit (block_recv (session_conn session) false)
        (set_session session (record ses { tunnel_traffic = traffic; tunnel_corked = false }) s)
    else set_session session (record ses { tunnel_traffic = traffic }) s

-- The callback of that send.
unfoldable pub on_tunnel_sent : ℕ → ℕ → User → App → App
on_tunnel_sent remote session usr s =
    clean_session remote session usr (uncork_tunnel s.queue_limit session s)

-- The new session's two clients, in the table and started.
unfoldable pub open_session : ℕ → User → Endpoint → App → App
open_session remote usr service_ep s =
    let session = s.next_ref in
    let rem = s.remote_at remote in
    emit (start (user_conn session) service_ep) (
      emit (start (session_conn session) rem.ep) (
        set_remote remote (record rem { users = insert usr session rem.users })
          (set_session session new_session (record s { next_ref = suc session }))))

abbrev pub open_at : Option Endpoint → ℕ → User → App → App
open_at none remote usr s = s
open_at (some service_ep) remote usr s = open_session remote usr service_ep s

-- CONNECT.
unfoldable pub on_connect : ℕ → ℕ → ℕ → ℕ → App → App
on_connect remote port id usr_ip s = elim (lookup (port, id) (s.remote_at remote).users) [
  | some session ↦ s
  | none ↦ elim (lookup port s.service_ep) [
    | none ↦ s
    | some eps ↦
        if length eps == 0
        then s
        else open_at
            (get_elem? eps (cli_index s.char_is_signed s.load_policy id usr_ip % length eps)) remote
            (port, id) s
  ]
]

abbrev pub mark_tunnel_gone : ℕ → App → App
mark_tunnel_gone session s =
    set_session session (record (s.session_at session) { tunnel_disconnected = true })
      (emit (close (session_conn session)) s)

-- DISCONNECT, the same in __OnServerRecv and __OnSessionRecv.
unfoldable pub on_relay_hangs_up : ℕ → User → App → App
on_relay_hangs_up remote usr s = elim (lookup usr (s.remote_at remote).users) [
  | none ↦ s
  | some session ↦ clean_session remote session usr (mark_tunnel_gone session s)
]

-- BIND and UNBIND only print what the relay answered.
abbrev pub on_notice : Option R2a → ℕ → App → App
on_notice none remote s = s
on_notice (some (R2a.bind port error_code)) remote s = s
on_notice (some (R2a.unbind port error_code)) remote s = s
on_notice (some (R2a.carry port id pkt)) remote s = on_relay_data remote (port, id) pkt s
on_notice (some (R2a.connect port id usr_ip usr_port)) remote s = on_connect remote port id usr_ip s
on_notice (some (R2a.disconnect port id)) remote s = on_relay_hangs_up remote (port, id) s

unfoldable pub on_server_recv : ℕ → Bytes → App → App
on_server_recv remote buf s = on_notice (parse_r2a buf) remote s

-- A session's own connection takes DATA and DISCONNECT, and drops the rest.
abbrev pub on_session_notice : Option R2a → ℕ → App → App
on_session_notice none remote s = s
on_session_notice (some (R2a.bind port error_code)) remote s = s
on_session_notice (some (R2a.unbind port error_code)) remote s = s
on_session_notice (some (R2a.carry port id pkt)) remote s = on_relay_data remote (port, id) pkt s
on_session_notice (some (R2a.connect port id usr_ip usr_port)) remote s = s
on_session_notice (some (R2a.disconnect port id)) remote s = on_relay_hangs_up remote (port, id) s

unfoldable pub on_session_recv : ℕ → Bytes → App → App
on_session_recv remote buf s = on_session_notice (parse_r2a buf) remote s

unfoldable pub on_session_connect : ℕ → User → App → App
on_session_connect session (port, id) s =
    set_session session (record (s.session_at session) { session_conn_ready = true })
      (emit (send (session_conn session) (put_a2r (A2r.session port id)) none) s)

unfoldable pub on_session_disconnect : ℕ → ℕ → User → App → App
on_session_disconnect remote session usr s = clean_session remote session usr (
    set_session session
      (record (s.session_at session) {
        tunnel_disconnected = true;
        tunnel_hard_disconnected = true;
      })
      (emit (close (session_conn session)) s))

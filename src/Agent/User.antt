-- ===== src/Agent/User.antt =====
-- r-nat-c/app1/user.cpp: what the connections to the target service report. __OnUserConnect only
-- prints.
use r_nat.Common.{ℕ, ◌/◌, none, [], ◌∷◌, true, false, ◌&&◌, not, if◌then◌else◌, leb, ltb, ◌==◌}
use r_nat.Balance.{inc32, dec32}
use r_nat.Protocol.{Bytes, A2r, put_a2r}
use r_nat.Agent.State.{
  App, User, Client, user_conn, session_conn, user_sent, send, send_v, block_recv, close, emit,
  set_session, clean_session,
}
use r_nat.Agent.Tunnel.{tunnel_of}

-- `session_conn_ready_ ? session_conn_ : remoteinfo->tcpclient_`.
abbrev pub way_back : ℕ → ℕ → App → Client
way_back remote session s =
    if (s.session_at session).session_conn_ready then session_conn session else tunnel_of remote s

unfoldable pub on_user_disconnect : ℕ → ℕ → User → App → App
on_user_disconnect remote session (port, id) s =
    clean_session remote session (port, id)
      (emit (send (way_back remote session s) (put_a2r (A2r.disconnect port id)) none) (
        set_session session (record (s.session_at session) { user_disconnected = true })
          (emit (close (user_conn session)) s)))

-- The corking of a session by the bytes that came from the service.
unfoldable pub cork_user : ℕ → ℕ → App → App
cork_user queue_limit session s =
    let ses = s.session_at session in
    let traffic = inc32 ses.user_traffic in
    if not (queue_limit == 0) && (not ses.user_corked && ltb queue_limit traffic)
    then emit (block_recv (user_conn session) true)
        (set_session session (record ses { user_traffic = traffic; user_corked = true }) s)
    else set_session session (record ses { user_traffic = traffic }) s

unfoldable pub on_user_recv : ℕ → ℕ → User → Bytes → App → App
on_user_recv remote session (port, id) buf s =
    emit
      (send_v (way_back remote session s) (put_a2r (A2r.carry port id []) ∷ buf ∷ [])
        (user_sent remote session (port, id)))
      (cork_user s.queue_limit session s)

-- The uncorking, when a buffer has been sent on.
unfoldable pub uncork_user : ℕ → ℕ → App → App
uncork_user queue_limit session s =
    let ses = s.session_at session in
    let traffic = dec32 ses.user_traffic in
    if not (queue_limit == 0) && (ses.user_corked && leb traffic (queue_limit / 2))
    then emit (block_recv (user_conn session) false)
        (set_session session (record ses { user_traffic = traffic; user_corked = false }) s)
    else set_session session (record ses { user_traffic = traffic }) s

-- The callback of that send.
unfoldable pub on_user_sent : ℕ → ℕ → User → App → App
on_user_sent remote session usr s =
    clean_session remote session usr (uncork_user s.queue_limit session s)

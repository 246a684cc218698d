-- ===== src/Agent/Step.antt =====
-- The events that reach the agent's AppLogic1 (r-nat-c/app1), as the steps of its strand: what the
-- __Create functions of app1.cpp bind to the callbacks of the clients.
use r_nat.Common.{ℕ, List, [], ◌∷◌}
use r_nat.Protocol.{Bytes}
use r_nat.Agent.State.{App, User, Sent, tunnel_sent, user_sent}
use r_nat.Agent.Tunnel.{
  on_server_connect, on_server_disconnect, reconnect, on_server_recv, on_session_connect,
  on_session_disconnect, on_session_recv, on_tunnel_sent,
}
use r_nat.Agent.User.{on_user_disconnect, on_user_recv, on_user_sent}

-- An event names the remote, the session and the user that its callback was bound to.
pub data Event : Type 0 where
  server_connects server_disconnects reconnects : ℕ → Event
  server_sends : ℕ → Bytes → Event
  session_connects : ℕ → User → Event
  session_disconnects : (remote session : ℕ) → User → Event
  session_sends : ℕ → Bytes → Event
  user_disconnects : (remote session : ℕ) → User → Event
  user_sends : (remote session : ℕ) → User → Bytes → Event
  completes : Sent → Event

unfoldable pub on_sent : Sent → App → App
on_sent (tunnel_sent remote session usr) s = on_tunnel_sent remote session usr s
on_sent (user_sent remote session usr) s = on_user_sent remote session usr s

unfoldable pub step : Event → App → App
unfolding on_sent
step (server_connects remote) s = on_server_connect remote s
step (server_disconnects remote) s = on_server_disconnect remote s
step (reconnects remote) s = reconnect remote s
step (server_sends remote buf) s = on_server_recv remote buf s
step (session_connects session usr) s = on_session_connect session usr s
step (session_disconnects remote session usr) s = on_session_disconnect remote session usr s
step (session_sends remote buf) s = on_session_recv remote buf s
step (user_disconnects remote session usr) s = on_user_disconnect remote session usr s
step (user_sends remote session usr buf) s = on_user_recv remote session usr buf s
step (completes sent) s = on_sent sent s

unfoldable pub run : List Event → App → App
run [] s = s
run (e ∷ es) s = run es (step e s)

-- ===== src/Relay/Step.antt =====
-- The events that reach the relay's AppLogic1 (r-nat-s/app1), as the steps of its strand.
use r_nat.Common.{ℕ, Bool, Option, some, List, [], ◌∷◌, ◌>>=◌}
use r_nat.Protocol.{Bytes}
use r_nat.Relay.State.{App, Sent, tunnel_sent, user_sent}
use r_nat.Relay.Tunnel.{on_agent_connect, on_agent_disconnect, on_agent_recv, on_tunnel_sent}
use r_nat.Relay.User.{on_user_connect, on_user_disconnect, on_user_recv, on_user_sent}

-- A user's event names the service that its callback was bound to.
pub data Event : Type 0 where
  agent_connects agent_disconnects : ℕ → Event
  agent_sends : ℕ → Bytes → Event
  user_connects : (service seq usr_ip usr_port : ℕ) → Event
  user_disconnects : (service seq : ℕ) → Event
  user_sends : (service seq : ℕ) → Bytes → Event
  completes : Sent → Event

unfoldable pub on_sent : Sent → App → App
on_sent (tunnel_sent service session seq limit) s = on_tunnel_sent service session seq limit s
on_sent (user_sent service session seq limit) s = on_user_sent service session seq limit s

unfoldable pub step : (ℕ → Option Bool) → Event → App → Option App
unfolding on_sent
step listens (agent_connects seq) s = some (on_agent_connect seq s)
step listens (agent_disconnects seq) s = some (on_agent_disconnect seq s)
step listens (agent_sends seq buf) s = on_agent_recv listens seq buf s
step listens (user_connects service seq ip port) s = some (on_user_connect service seq ip port s)
step listens (user_disconnects service seq) s = some (on_user_disconnect service seq s)
step listens (user_sends service seq buf) s = some (on_user_recv service seq buf s)
step listens (completes sent) s = some (on_sent sent s)

unfoldable pub run : (ℕ → Option Bool) → List Event → App → Option App
run listens [] s = some s
run listens (e ∷ es) s = step listens e s >>= run listens es

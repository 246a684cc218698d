-- ===== src/Agent/Startup/Services.antt =====
-- The endpoints of the services, which no handler of r-nat-c/app1 changes.
use r_nat.Common.{
  ℕ, zero, suc, ◌≡◌, refl, ◌∙◌, inl, inr, Option, none, some, List, [], ◌∷◌, ◌==◌, length, arith,
  nat_key, lookup, Option-cases, Bool-cases,
}
use r_nat.Protocol.{Bytes, R2a, parse_r2a}
use r_nat.Endpoint.{Endpoint}
use r_nat.Agent.State.{App, User, user_key, Sent, tunnel_sent, user_sent, clean_session}
use r_nat.Agent.Tunnel.{
  announce, on_server_connect, on_server_disconnect, reconnect, on_server_recv, on_notice,
  on_session_notice, on_session_recv, on_session_connect, on_session_disconnect, on_tunnel_sent,
  on_relay_data, on_relay_hangs_up, mark_tunnel_gone, cork_tunnel, uncork_tunnel, on_connect,
  open_at, open_session,
}
use r_nat.Agent.User.{on_user_disconnect, on_user_recv, on_user_sent, cork_user, uncork_user}
use r_nat.Agent.Step.{
  Event, server_connects, server_disconnects, reconnects, server_sends, session_connects,
  session_disconnects, session_sends, user_disconnects, user_sends, completes, on_sent, step, run,
}
use r_nat.Agent.Startup.{Agent, create_relays, start_relays, start_up}

abbrev Keeps : App → App → Type 0
Keeps s t = t.service_ep ≡ s.service_ep

clean_session-Keeps :
    (remote session : ℕ) (usr : User) (s : App) → Keeps s (clean_session remote session usr s)
unfolding clean_session
clean_session-Keeps remote session usr s = ground arith

cork_tunnel-Keeps : (limit session : ℕ) (s : App) → Keeps s (cork_tunnel limit session s)
unfolding cork_tunnel
cork_tunnel-Keeps limit session s = ground arith

uncork_tunnel-Keeps : (limit session : ℕ) (s : App) → Keeps s (uncork_tunnel limit session s)
unfolding uncork_tunnel
uncork_tunnel-Keeps limit session s = ground arith

cork_user-Keeps : (limit session : ℕ) (s : App) → Keeps s (cork_user limit session s)
unfolding cork_user
cork_user-Keeps limit session s = ground arith

uncork_user-Keeps : (limit session : ℕ) (s : App) → Keeps s (uncork_user limit session s)
unfolding uncork_user
uncork_user-Keeps limit session s = ground arith

announce-Keeps : (remote : ℕ) (ports : List ℕ) (s : App) → Keeps s (announce remote ports s)
unfolding announce
announce-Keeps remote [] s = refl
announce-Keeps remote (port ∷ ports) s = announce-Keeps remote ports _

on_relay_data-Keeps :
    (remote : ℕ) (usr : User) (pkt : Bytes) (s : App) → Keeps s (on_relay_data remote usr pkt s)
unfolding on_relay_data
on_relay_data-Keeps remote usr pkt s = elim (Option-cases (lookup usr (s.remote_at remote).users)) [
  | inl e ↦ rw (e, on_relay_data) refl
  | inr (session, e) ↦ rw (e, on_relay_data) (cork_tunnel-Keeps s.queue_limit session s)
]

on_relay_hangs_up-Keeps :
    (remote : ℕ) (usr : User) (s : App) → Keeps s (on_relay_hangs_up remote usr s)
unfolding on_relay_hangs_up
on_relay_hangs_up-Keeps remote usr s = elim (Option-cases (lookup usr (s.remote_at remote).users)) [
  | inl e ↦ rw (e, on_relay_hangs_up) refl
  | inr (session, e) ↦
      rw (e, on_relay_hangs_up)
        (clean_session-Keeps remote session usr (mark_tunnel_gone session s))
]

open_at-Keeps :
    (o : Option Endpoint) (remote : ℕ) (usr : User) (s : App) → Keeps s (open_at o remote usr s)
unfolding open_session
open_at-Keeps none remote usr s = refl
open_at-Keeps (some ep) remote usr s = refl

on_connect-Keeps :
    (remote port id usr_ip : ℕ) (s : App) → Keeps s (on_connect remote port id usr_ip s)
unfolding on_connect
on_connect-Keeps remote port id usr_ip s =
    elim (Option-cases (lookup (port, id) (s.remote_at remote).users)) [
      | inr (x, e) ↦ rw (e, on_connect) refl
      | inl e ↦ elim (Option-cases (lookup port s.service_ep)) [
        | inl f ↦ rw (e, f, on_connect) refl
        | inr (eps, f) ↦ elim (Bool-cases (length eps == 0)) [
          | inl n ↦ rw (e, f, on_connect) (rw n refl)
          | inr n ↦ rw (e, f, on_connect) (rw n (open_at-Keeps _ remote (port, id) s))
        ]
      ]
    ]

on_notice-Keeps : (o : Option R2a) (remote : ℕ) (s : App) → Keeps s (on_notice o remote s)
on_notice-Keeps none remote s = refl
on_notice-Keeps (some (R2a.bind port error_code)) remote s = refl
on_notice-Keeps (some (R2a.unbind port error_code)) remote s = refl
on_notice-Keeps (some (R2a.carry port id pkt)) remote s =
    on_relay_data-Keeps remote (port, id) pkt s
on_notice-Keeps (some (R2a.connect port id usr_ip usr_port)) remote s =
    on_connect-Keeps remote port id usr_ip s
on_notice-Keeps (some (R2a.disconnect port id)) remote s =
    on_relay_hangs_up-Keeps remote (port, id) s

on_session_notice-Keeps :
    (o : Option R2a) (remote : ℕ) (s : App) → Keeps s (on_session_notice o remote s)
on_session_notice-Keeps none remote s = refl
on_session_notice-Keeps (some (R2a.bind port error_code)) remote s = refl
on_session_notice-Keeps (some (R2a.unbind port error_code)) remote s = refl
on_session_notice-Keeps (some (R2a.carry port id pkt)) remote s =
    on_relay_data-Keeps remote (port, id) pkt s
on_session_notice-Keeps (some (R2a.connect port id usr_ip usr_port)) remote s = refl
on_session_notice-Keeps (some (R2a.disconnect port id)) remote s =
    on_relay_hangs_up-Keeps remote (port, id) s

on_sent-Keeps : (sent : Sent) (s : App) → Keeps s (on_sent sent s)
unfolding on_sent on_tunnel_sent on_user_sent
on_sent-Keeps (tunnel_sent remote session usr) s =
    clean_session-Keeps remote session usr _ ∙ uncork_tunnel-Keeps s.queue_limit session s
on_sent-Keeps (user_sent remote session usr) s =
    clean_session-Keeps remote session usr _ ∙ uncork_user-Keeps s.queue_limit session s

step-Keeps : (e : Event) (s : App) → Keeps s (step e s)
unfolding step on_server_connect on_server_disconnect reconnect on_server_recv on_session_connect
    on_session_disconnect on_session_recv on_user_disconnect on_user_recv
step-Keeps (server_connects remote) s = announce-Keeps remote s.service_ports s
step-Keeps (server_disconnects remote) s = refl
step-Keeps (reconnects remote) s = refl
step-Keeps (server_sends remote buf) s = on_notice-Keeps (parse_r2a buf) remote s
step-Keeps (session_connects session (port, id)) s = refl
step-Keeps (session_disconnects remote session usr) s = clean_session-Keeps remote session usr _
step-Keeps (session_sends remote buf) s = on_session_notice-Keeps (parse_r2a buf) remote s
step-Keeps (user_disconnects remote session (port, id)) s =
    clean_session-Keeps remote session (port, id) _
step-Keeps (user_sends remote session (port, id) buf) s = cork_user-Keeps s.queue_limit session s
step-Keeps (completes sent) s = on_sent-Keeps sent s

pub run-service_ep : (es : List Event) (s : App) → (run es s).service_ep ≡ s.service_ep
unfolding run
run-service_ep [] s = refl
run-service_ep (e ∷ es) s = run-service_ep es (step e s) ∙ step-Keeps e s

create_relays-Keeps : (n : ℕ) (eps : List Endpoint) (s : App) → Keeps s (create_relays n eps s)
unfolding create_relays
create_relays-Keeps n [] s = refl
create_relays-Keeps n (ep ∷ eps) s = create_relays-Keeps (suc n) eps _

start_relays-Keeps : (n count : ℕ) (s : App) → Keeps s (start_relays n count s)
unfolding start_relays
start_relays-Keeps n zero s = refl
start_relays-Keeps n (suc count) s = start_relays-Keeps (suc n) count _

pub start_up-service_ep : (a : Agent) → (start_up a).app.service_ep ≡ a.app.service_ep
unfolding start_up
start_up-service_ep a =
    start_relays-Keeps 0 (length a.remote_ep) _ ∙ create_relays-Keeps 0 a.remote_ep a.app

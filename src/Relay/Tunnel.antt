-- ===== src/Relay/Tunnel.antt =====
-- r-nat-s/app1/tunnel.cpp: what the agents' connections report.
use r_nat.Common.{
  ℕ, suc, ◌/◌, ◌^◌, ◌-◌, Option, none, some, [], ◌∷◌, Bool, true, false, ◌&&◌, not, if◌then◌else◌,
  Map, nat_key, KeySet, lookup, insert, erase, length, leb, ltb, ◌==◌,
}
use r_nat.Balance.{inc32, dec32}
use r_nat.Protocol.{Bytes, A2r, R2a, put_r2a, parse_a2r}
use r_nat.Relay.State.{
  App, ServiceInfo, AgentInfo, tunnel_sent, agent_send, agent_block_recv, service_start,
  service_send, service_close, emit, set_session, set_service, set_agent, new_session,
  clean_session,
}

unfoldable pub on_agent_connect : ℕ → App → App
on_agent_connect seq s = set_agent seq (record { seq = seq; ports = []; sessions = [] }) s

-- The inner loop of __OnAgentDisconnect, over the agent's sessions.
unfoldable pub hang_up : ℕ → Map ℕ ℕ → App → App
unfolding clean_session
hang_up service [] s = s
hang_up service ((user_seq, session) ∷ rest) s =
    let ses = record (s.session_at session) {
      tunnel_disconnected = true;
      tunnel_hard_disconnected = true;
    } in
    hang_up service rest (clean_session service session (set_session session ses s))

-- `service->agents_.erase(seq)`; a service without agents is closed and removed.
unfoldable pub leave_service : ℕ → ℕ → ℕ → App → App
leave_service seq port service s =
    let svc = s.service_at service in
    let agents = erase seq svc.agents in
    let s1 = set_service service (record svc { agents = agents }) s in
    if length agents == 0
    then record s1 {
      services = erase port s1.services;
      effects = service_close service ∷ s1.effects;
    }
    else s1

abbrev pub leave_port : Option ℕ → ℕ → ℕ → Map ℕ ℕ → App → App
leave_port none seq port sessions s = s
leave_port (some service) seq port sessions s =
    leave_service seq port service (hang_up service sessions s)

-- The outer loop, over the agent's ports.
unfoldable pub leave_ports : ℕ → KeySet → Map ℕ ℕ → App → App
leave_ports seq [] sessions s = s
leave_ports seq ((port, u) ∷ ports) sessions s =
    leave_ports seq ports sessions (leave_port (lookup port s.services) seq port sessions s)

unfoldable pub on_agent_disconnect : ℕ → App → App
on_agent_disconnect seq s = elim (lookup seq s.agents) [
  | none ↦ s
  | some agent ↦
      leave_ports seq agent.ports agent.sessions (record s { agents = erase seq s.agents })
]

abbrev pub new_service : ℕ → ℕ → ServiceInfo
new_service port seq = record { port = port; agents = insert seq tt []; sessions = [] }

-- The answer to Start of a new RawTcpServer: an exception, false or true.
abbrev pub bind_started : Option Bool → ℕ → AgentInfo → ℕ → ℕ → App → Option App
bind_started none seq agent port service s = none
bind_started (some false) seq agent port service s =
    some (emit (agent_send seq (put_r2a (R2a.bind port (2 ^ 32 - 1)))) s)
bind_started (some true) seq agent port service s = some (
    emit (agent_send seq (put_r2a (R2a.bind port 0))) (
      set_agent seq (record agent { ports = insert port tt agent.ports })
        (record s { services = insert port service s.services })))

-- BIND. `listens port` is what Start gives for the port.
unfoldable pub on_bind : (ℕ → Option Bool) → ℕ → ℕ → App → Option App
on_bind listens seq port s = elim (lookup seq s.agents) [
  | none ↦ some s
  | some agent ↦ elim (lookup port s.services) [
    | none ↦
        let service = s.next_ref in
        bind_started (listens port) seq agent port service (
          emit (service_start service port)
            (set_service service (new_service port seq) (record s { next_ref = suc service })))
    | some service ↦
        let svc = s.service_at service in
        some (
          emit (agent_send seq (put_r2a (R2a.bind port 0))) (
            set_agent seq (record agent { ports = insert port tt agent.ports })
              (set_service service (record svc { agents = insert seq tt svc.agents }) s)))
  ]
]

abbrev pub unbind_service : Option ℕ → ℕ → ℕ → App → App
unbind_service none seq port s = s
unbind_service (some service) seq port s = leave_service seq port service s

-- UNBIND.
unfoldable pub on_unbind : ℕ → ℕ → App → App
unfolding leave_service
on_unbind seq port s = elim (lookup seq s.agents) [
  | none ↦ s
  | some agent ↦
      let s1 = set_agent seq (record agent { ports = erase port agent.ports }) s in
      emit (agent_send seq (put_r2a (R2a.unbind port 0)))
        (unbind_service (lookup port s1.services) seq port s1)
]

-- The corking of a session by the bytes that came from its agent.
unfoldable pub cork_tunnel : ℕ → ℕ → ℕ → App → App
unfolding inc32
cork_tunnel queue_limit seq session s =
    let ses = s.session_at session in
    let traffic = inc32 ses.tunnel_traffic in
    let s1 = set_session session (record ses { tunnel_traffic = traffic }) s in
    if not (queue_limit == 0) && (not ses.tunnel_corked && ltb queue_limit traffic)
    then emit (agent_block_recv seq true)
        (set_session session (record ses { tunnel_traffic = traffic; tunnel_corked = true }) s)
    else s1

-- DATA.
unfoldable pub on_agent_data : ℕ → ℕ → ℕ → Bytes → App → App
unfolding cork_tunnel
on_agent_data seq port user_id pkt s = elim (lookup seq s.agents) [
  | none ↦ s
  | some agent ↦ elim (lookup port s.services) [
    | none ↦ s
    | some service ↦ elim (lookup user_id (s.service_at service).sessions) [
      | none ↦ s
      | some session ↦
          emit (service_send service user_id pkt (tunnel_sent service session seq s.queue_limit))
            (cork_tunnel s.queue_limit seq session s)
    ]
  ]
]

-- The uncorking, when a buffer has been sent on.
unfoldable pub uncork_tunnel : ℕ → ℕ → ℕ → App → App
unfolding dec32
uncork_tunnel queue_limit seq session s =
    let ses = s.session_at session in
    let traffic = dec32 ses.tunnel_traffic in
    if not (queue_limit == 0) && (ses.tunnel_corked && leb traffic (queue_limit / 2))
    then emit (agent_block_recv seq false)
        (set_session session (record ses { tunnel_traffic = traffic; tunnel_corked = false }) s)
    else set_session session (record ses { tunnel_traffic = traffic }) s

-- The callback of that send.
unfoldable pub on_tunnel_sent : ℕ → ℕ → ℕ → ℕ → App → App
on_tunnel_sent service session seq queue_limit s =
    clean_session service session (uncork_tunnel queue_limit seq session s)

abbrev pub mark_tunnel_gone : ℕ → App → App
mark_tunnel_gone session s =
    set_session session (record (s.session_at session) { tunnel_disconnected = true }) s

-- DISCONNECT.
unfoldable pub on_agent_hangs_up : ℕ → ℕ → App → App
on_agent_hangs_up port id s = elim (lookup port s.services) [
  | none ↦ s
  | some service ↦ elim (lookup id (s.service_at service).sessions) [
    | none ↦ s
    | some session ↦ clean_session service session (mark_tunnel_gone session s)
  ]
]

abbrev pub drop_old : Option AgentInfo → ℕ → ℕ → App → App
drop_old none old_id id s = s
drop_old (some old) old_id id s =
    set_agent old_id (record old { sessions = erase id old.sessions }) s

abbrev pub add_to_agent : ℕ → ℕ → ℕ → App → App
add_to_agent seq id session s = elim (lookup seq s.agents) [
  | none ↦ s
  | some agent ↦ set_agent seq (record agent { sessions = insert id session agent.sessions }) s
]

abbrev pub declare_session : Option ℕ → ℕ → ℕ → ℕ → App → App
declare_session none seq service id s =
    let session = s.next_ref in
    let svc = s.service_at service in
    add_to_agent seq id session (
      set_service service (record svc { sessions = insert id session svc.sessions })
        (set_session session (record new_session { agent_id = seq; using_session_conn = true })
          (record s { next_ref = suc session })))
declare_session (some session) seq service id s =
    let ses = s.session_at session in
    add_to_agent seq id session (
      set_session session (record ses { agent_id = seq; using_session_conn = true })
        (drop_old (lookup ses.agent_id s.agents) ses.agent_id id s))

-- SESSION. The source looks the session up by `seq`, the number of the agent's connection.
unfoldable pub on_session : ℕ → ℕ → ℕ → App → App
on_session seq port id s = elim (lookup seq s.agents) [
  | none ↦ s
  | some agent ↦
      let s1 = set_agent seq (record agent { ports = insert port tt agent.ports }) s in
      elim (lookup port s1.services) [
        | none ↦ s1
        | some service ↦
            declare_session (lookup seq (s1.service_at service).sessions) seq service id s1
      ]
]

abbrev pub dispatch : (ℕ → Option Bool) → ℕ → Option A2r → App → Option App
dispatch listens seq none s = some s
dispatch listens seq (some (A2r.bind port)) s = on_bind listens seq port s
dispatch listens seq (some (A2r.unbind port)) s = some (on_unbind seq port s)
dispatch listens seq (some (A2r.carry port id pkt)) s = some (on_agent_data seq port id pkt s)
dispatch listens seq (some (A2r.disconnect port id)) s = some (on_agent_hangs_up port id s)
dispatch listens seq (some (A2r.session port id)) s = some (on_session seq port id s)

unfoldable pub on_agent_recv : (ℕ → Option Bool) → ℕ → Bytes → App → Option App
on_agent_recv listens seq buf s = dispatch listens seq (parse_a2r buf) s

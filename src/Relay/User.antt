-- ===== src/Relay/User.antt =====
-- r-nat-s/app1/user.cpp: what the users' connections report.
use r_nat.Common.{
  ℕ, suc, ◌/◌, ◌%◌, Option, none, some, [], ◌∷◌, Bool, true, false, ◌&&◌, not, if◌then◌else◌,
  lookup, nat_key, insert, length, get_elem?, leb, ltb, ◌==◌,
}
use r_nat.Balance.{inc32, dec32, fnv_hash_int}
use r_nat.Protocol.{Bytes, R2a, put_r2a}
use r_nat.Relay.State.{
  App, AgentInfo, LoadPolicy, user_sent, agent_send, agent_send_v, service_block_recv,
  service_close_user, emit, set_session, set_service, set_agent, new_session, clean_session,
}

-- The number by which a user is assigned: a hash of the address, or the sequence number.
unfoldable pub cli_index : Bool → LoadPolicy → ℕ → ℕ → ℕ
unfolding fnv_hash_int
cli_index signed LoadPolicy.by_ip seq usr_ip = fnv_hash_int signed usr_ip
cli_index signed LoadPolicy.by_seq seq usr_ip = seq

-- The user is assigned to the agent `agent_seq`.
unfoldable pub assign : ℕ → ℕ → ℕ → ℕ → ℕ → AgentInfo → App → App
assign service seq usr_ip usr_port agent_seq agent s =
    let session = s.next_ref in
    let svc = s.service_at service in
    emit (agent_send agent_seq (put_r2a (R2a.connect svc.port seq usr_ip usr_port))) (
      set_agent agent_seq (record agent { sessions = insert seq session agent.sessions })
        (set_service service (record svc { sessions = insert seq session svc.sessions })
          (set_session session (record new_session { seq = seq; agent_id = agent_seq })
            (record s { next_ref = suc session }))))

abbrev pub assign_to : Option (ℕ × Unit {0}) → ℕ → ℕ → ℕ → ℕ → App → App
assign_to none service seq usr_ip usr_port s = s
assign_to (some (agent_seq, u)) service seq usr_ip usr_port s = elim (lookup agent_seq s.agents) [
  | none ↦ s
  | some agent ↦ assign service seq usr_ip usr_port agent_seq agent s
]

unfoldable pub on_user_connect : ℕ → ℕ → ℕ → ℕ → App → App
on_user_connect service seq usr_ip usr_port s =
    let svc = s.service_at service in
    if length svc.agents == 0
    then emit (service_close_user service seq) s
    else assign_to
        (get_elem? svc.agents
          (cli_index s.char_is_signed s.load_policy seq usr_ip % length svc.agents))
        service seq usr_ip usr_port s

-- The flag, and the notice to the agent unless its connection is down.
unfoldable pub mark_user_gone : ℕ → ℕ → ℕ → App → App
mark_user_gone service seq session s =
    let ses = s.session_at session in
    let s1 = set_session session (record ses { user_disconnected = true }) s in
    if ses.tunnel_hard_disconnected
    then s1
    else emit (agent_send ses.agent_id (put_r2a (R2a.disconnect (s.service_at service).port seq)))
        s1

unfoldable pub on_user_disconnect : ℕ → ℕ → App → App
on_user_disconnect service seq s = elim (lookup seq (s.service_at service).sessions) [
  | none ↦ s
  | some session ↦ clean_session service session (mark_user_gone service seq session s)
]

-- The corking of a session by the bytes that came from its user.
unfoldable pub cork_user : ℕ → ℕ → ℕ → ℕ → App → App
unfolding inc32
cork_user queue_limit service seq session s =
    let ses = s.session_at session in
    let traffic = inc32 ses.user_traffic in
    if not (queue_limit == 0) && (not ses.user_corked && ltb queue_limit traffic)
    then emit (service_block_recv service seq true)
        (set_session session (record ses { user_traffic = traffic; user_corked = true }) s)
    else set_session session (record ses { user_traffic = traffic }) s

unfoldable pub on_user_recv : ℕ → ℕ → Bytes → App → App
unfolding cork_user
on_user_recv service seq buf s =
    let svc = s.service_at service in
    elim (lookup seq svc.sessions) [
      | none ↦ s
      | some session ↦
          emit
            (agent_send_v (s.session_at session).agent_id
              (put_r2a (R2a.carry svc.port seq []) ∷ buf ∷ [])
              (user_sent service session seq s.queue_limit))
            (cork_user s.queue_limit service seq session s)
    ]

-- The uncorking, when a buffer has been sent on. The source tests tunnel_traffic_ here.
unfoldable pub uncork_user : ℕ → ℕ → ℕ → ℕ → App → App
unfolding dec32
uncork_user queue_limit service seq session s =
    let ses = s.session_at session in
    let traffic = dec32 ses.user_traffic in
    if not (queue_limit == 0) && (ses.user_corked && leb ses.tunnel_traffic (queue_limit / 2))
    then emit (service_block_recv service seq false)
        (set_session session (record ses { user_traffic = traffic; user_corked = false }) s)
    else set_session session (record ses { user_traffic = traffic }) s

-- The callback of that send.
unfoldable pub on_user_sent : ℕ → ℕ → ℕ → ℕ → App → App
on_user_sent service session seq queue_limit s =
    clean_session service session (uncork_user queue_limit service seq session s)

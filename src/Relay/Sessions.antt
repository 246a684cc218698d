-- ===== src/Relay/Sessions.antt =====
-- The life of a session in r-nat-s/app1: when __CleanSession forgets it, and what SESSION makes of it.
use r_nat.Common.{
  ℕ, suc, ◌≡◌, ◌≢◌, refl, sym, ap, ◌∙◌, inl, inr, Option, none, some, true, ◌==◌, ◌&&◌, arith,
  nat_key, lookup, erase, insert, lookup-insert, lookup-erase, if◌then◌else◌, Option-cases,
}
use r_nat.Relay.State.{
  App, AgentInfo, Session, service_close_user, clean_session, forget, forget_in_agent, set_session,
  set_service, set_agent, emit, new_session,
}
use r_nat.Relay.Tunnel.{
  mark_tunnel_gone, on_agent_hangs_up, on_session, declare_session, add_to_agent,
}
use r_nat.Relay.Corking.{clean_session-sessions}
use r_nat.Relay.User.{mark_user_gone, on_user_disconnect}

-- The services that a state has for its sessions.
abbrev pub session_of : App → ℕ → ℕ → Option ℕ
session_of s service seq = lookup seq (s.service_at service).sessions

forget_in_agent-services :
    (o : Option AgentInfo) (k n : ℕ) (s : App) → (forget_in_agent o k n s).service_at ≡ s.service_at
forget_in_agent-services none k n s = refl
forget_in_agent-services (some a) k n s = refl

forget-session_of :
    (service : ℕ) (ses : Session) (s : App) (r seq : ℕ)
    → session_of (forget service ses s) r seq
      ≡ (if (r == service) && (ses.seq == seq) then none else session_of s r seq)
unfolding forget
forget-session_of service ses s r seq =
    let svc = s.service_at service in
    let s1 = set_service service (record svc { sessions = erase ses.seq svc.sessions }) s in
    let s2 = emit (service_close_user service ses.seq) s1 in
    let erased : session_of s2 r seq
        ≡ (if (r == service) && (ses.seq == seq) then none else session_of s r seq) =
      ground (arith, lookup-erase ses.seq seq svc.sessions) in
    ap (λ f. lookup seq (f r).sessions)
      (forget_in_agent-services (lookup ses.agent_id s2.agents) ses.agent_id ses.seq s2)
    ∙ erased

-- __CleanSession takes a session off its service exactly when both sides have gone, and no other.
pub session_of-clean_session :
    (service session : ℕ) (s : App) (r seq : ℕ)
    → let ses = s.session_at session in
      session_of (clean_session service session s) r seq ≡ (
        if (ses.user_disconnected && ses.tunnel_disconnected)
          && ((r == service) && (ses.seq == seq))
        then none
        else session_of s r seq)
unfolding clean_session
session_of-clean_session service session s r seq =
    ground (arith, forget-session_of service (s.session_at session) s r seq)

clean-forgets :
    (service session seq : ℕ) (u : App)
    → (u.session_at session).user_disconnected ≡ true
    → (u.session_at session).tunnel_disconnected ≡ true
    → (u.session_at session).seq ≡ seq
    → session_of (clean_session service session u) service seq ≡ none
clean-forgets service session seq u a b c =
    session_of-clean_session service session u service seq ∙ ground arith

clean-keeps :
    (service session seq : ℕ) (u : App)
    → (u.session_at session).seq ≢ seq
    → session_of (clean_session service session u) service seq ≡ session_of u service seq
clean-keeps service session seq u c =
    session_of-clean_session service session u service seq ∙ ground arith

pub on_user_disconnect_lem :
    (service session seq : ℕ) (s : App)
    → session_of s service seq ≡ some session
    → on_user_disconnect service seq s
      ≡ clean_session service session (mark_user_gone service seq session s)
unfolding on_user_disconnect
on_user_disconnect_lem service session seq s f = rw (f, on_user_disconnect) refl

pub on_agent_hangs_up_lem :
    (port service session seq : ℕ) (s : App)
    → lookup port s.services ≡ some service
    → session_of s service seq ≡ some session
    → on_agent_hangs_up port seq s ≡ clean_session service session (mark_tunnel_gone session s)
unfolding on_agent_hangs_up
on_agent_hangs_up_lem port service session seq s e f = rw (e, f, on_agent_hangs_up) refl

-- What the mark of a user's end leaves alone.
pub record Marked (s u : App) (session : ℕ) : Type 0 where
  pub gone : (u.session_at session).user_disconnected ≡ true
  pub tunnel :
      (u.session_at session).tunnel_disconnected ≡ (s.session_at session).tunnel_disconnected
  pub number : (u.session_at session).seq ≡ (s.session_at session).seq
  pub services : u.services ≡ s.services
  pub service_at : u.service_at ≡ s.service_at

pub mark_user_gone-Marked :
    (service seq session : ℕ) (s : App) → Marked s (mark_user_gone service seq session s) session
unfolding mark_user_gone
mark_user_gone-Marked service seq session s = ground arith

-- If the agent has gone, the end of the user's connection forgets the session, which carries the
-- user's number.
pub on_user_disconnect-session_of :
    (service session seq : ℕ) (s : App)
    → session_of s service seq ≡ some session
    → (s.session_at session).seq ≡ seq
    → (s.session_at session).tunnel_disconnected ≡ true
    → session_of (on_user_disconnect service seq s) service seq ≡ none
on_user_disconnect-session_of service session seq s f q t =
    let m = mark_user_gone-Marked service seq session s in
    ap (λ v. session_of v service seq) (on_user_disconnect_lem service session seq s f)
    ∙ clean-forgets service session seq (mark_user_gone service seq session s) m.gone (m.tunnel ∙ t)
        (m.number ∙ q)

-- If the user has gone, the agent's DISCONNECT forgets the session, which carries the user's number.
pub on_agent_hangs_up-session_of :
    (port service session seq : ℕ) (s : App)
    → lookup port s.services ≡ some service
    → session_of s service seq ≡ some session
    → (s.session_at session).seq ≡ seq
    → (s.session_at session).user_disconnected ≡ true
    → session_of (on_agent_hangs_up port seq s) service seq ≡ none
on_agent_hangs_up-session_of port service session seq s e f q u =
    ap (λ v. session_of v service seq) (on_agent_hangs_up_lem port service session seq s e f)
    ∙ clean-forgets service session seq (mark_tunnel_gone session s) (ground arith) (ground arith)
        (ground arith)

-- A session that does not carry its user's number is never forgotten by its two ends.
misnumbered-stays :
    (port service session seq : ℕ) (s : App)
    → lookup port s.services ≡ some service
    → session_of s service seq ≡ some session
    → (s.session_at session).seq ≢ seq
    → session_of (on_user_disconnect service seq (on_agent_hangs_up port seq s)) service seq
      ≡ some session
misnumbered-stays port service session seq s e f q =
    let u = mark_tunnel_gone session s in
    let t = clean_session service session u in
    let same : (t.session_at session).seq ≡ (s.session_at session).seq =
      ap (λ g. (g session).seq) (clean_session-sessions service session u) ∙ ground arith in
    let still : session_of t service seq ≡ some session =
      clean-keeps service session seq u (ground arith) ∙ f in
    let w = mark_user_gone service seq session t in
    let m = mark_user_gone-Marked service seq session t in
    ap (λ v. session_of (on_user_disconnect service seq v) service seq)
      (on_agent_hangs_up_lem port service session seq s e f)
    ∙ ap (λ v. session_of v service seq) (on_user_disconnect_lem service session seq t still)
    ∙ clean-keeps service session seq w (λ x. q (sym same ∙ sym m.number ∙ x))
    ∙ ap (λ g. lookup seq (g service).sessions) m.service_at
    ∙ still

-- What SESSION declares where the source finds no session under the number of the connection.
record Declared (s t : App) (service id : ℕ) : Type 0 where
  services : t.services ≡ s.services
  listed : session_of t service id ≡ some s.next_ref
  unnumbered : (t.session_at s.next_ref).seq ≡ 0

record SameObjects (s t : App) : Type 0 where
  services : t.services ≡ s.services
  service_at : t.service_at ≡ s.service_at
  session_at : t.session_at ≡ s.session_at

add_to_agent-SameObjects :
    (seq id session : ℕ) (s : App) → SameObjects s (add_to_agent seq id session s)
add_to_agent-SameObjects seq id session s = elim (Option-cases (lookup seq s.agents)) [
  | inl e ↦ rw (e, add_to_agent) (record { services = refl; service_at = refl; session_at = refl })
  | inr (a, e) ↦
      rw (e, add_to_agent) (record { services = refl; service_at = refl; session_at = refl })
]

declare_session-Declared :
    (seq service id : ℕ) (s : App) → Declared s (declare_session none seq service id s) service id
declare_session-Declared seq service id s =
    let svc = s.service_at service in
    let s1 = record s { next_ref = suc s.next_ref } in
    let s2 =
      set_session s.next_ref (record new_session { agent_id = seq; using_session_conn = true })
        s1 in
    let s3 = set_service service (record svc { sessions = insert id s.next_ref svc.sessions }) s2 in
    let k = add_to_agent-SameObjects seq id s.next_ref s3 in
    let listed : session_of s3 service id ≡ some s.next_ref =
      ground (arith, lookup-insert id id s.next_ref svc.sessions) in
    let unnumbered : (s3.session_at s.next_ref).seq ≡ 0 = ground arith in
    record {
      services = k.services;
      listed = ap (λ g. lookup id (g service).sessions) k.service_at ∙ listed;
      unnumbered = ap (λ g. (g s.next_ref).seq) k.session_at ∙ unnumbered;
    }

on_session-Declared :
    (seq port id service : ℕ) (agent : AgentInfo) (s : App)
    → lookup seq s.agents ≡ some agent
    → lookup port s.services ≡ some service
    → session_of s service seq ≡ none
    → Declared s (on_session seq port id s) service id
unfolding on_session
on_session-Declared seq port id service agent s e f g =
    let s1 = set_agent seq (record agent { ports = insert port tt agent.ports }) s in
    let d = declare_session-Declared seq service id s1 in
    rw (e, f, g, on_session)
      (record { services = d.services; listed = d.listed; unnumbered = d.unnumbered })

-- SESSION looks for the session under the number of the agent's connection, not under the user's.
-- Where no user of the service has that number, the session that it makes for the user `id` carries
-- the number 0: unless `id` is 0 it stays with the service after both ends have hung up.
pub on_session-leaks :
    (seq port id service : ℕ) (agent : AgentInfo) (s : App)
    → lookup seq s.agents ≡ some agent
    → lookup port s.services ≡ some service
    → session_of s service seq ≡ none
    → id ≢ 0
    → session_of
        (on_user_disconnect service id (on_agent_hangs_up port id (on_session seq port id s)))
        service
        id
      ≡ some s.next_ref
on_session-leaks seq port id service agent s e f g n =
    let d = on_session-Declared seq port id service agent s e f g in
    misnumbered-stays port service s.next_ref id (on_session seq port id s)
      (ap (lookup port) d.services ∙ f) d.listed (λ x. n (sym x ∙ d.unnumbered))

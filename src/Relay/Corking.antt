-- ===== src/Relay/Corking.antt =====
-- Flow control of a session of r-nat-s/app1: bytes from the agent (tunnel.cpp) and from the user
-- (user.cpp).
use r_nat.Common.{
  ℕ, zero, suc, ◌+◌, ◌-◌, ◌<◌, ◌≤◌, ◌/◌, ◌^◌, ◌≡◌, refl, sym, ap, ◌∙◌, Option, none, some, List,
  Bool, true, false, arith, nat_key,
}
use r_nat.Flow.{Cork, corks, stays, Limited, Traffic, waiting, exchange, never_stalls}
use r_nat.Relay.State.{App, AgentInfo, Session, clean_session, forget, forget_in_agent}
use r_nat.Relay.Tunnel.{cork_tunnel, uncork_tunnel, on_tunnel_sent}
use r_nat.Relay.User.{uncork_user, on_user_sent}
use r_nat.Relay.Blocking.{
  agent_blocked, user_blocked, IsTold, cork_tunnel-IsTold, uncork_tunnel-IsTold,
  clean_session-agent_blocked, clean_session-user_blocked,
}

-- __CleanSession changes no session.
forget_in_agent-sessions :
    (o : Option AgentInfo) (k n : ℕ) (s : App) → (forget_in_agent o k n s).session_at ≡ s.session_at
forget_in_agent-sessions none k n s = refl
forget_in_agent-sessions (some a) k n s = refl

forget-sessions :
    (service : ℕ) (ses : Session) (s : App) → (forget service ses s).session_at ≡ s.session_at
unfolding forget
forget-sessions service ses s = forget_in_agent-sessions _ ses.agent_id ses.seq _

pub clean_session-sessions :
    (service session : ℕ) (s : App) → (clean_session service session s).session_at ≡ s.session_at
unfolding clean_session
clean_session-sessions service session s =
    ground (arith, forget-sessions service (s.session_at session) s)

-- The counter and the flag of a direction, as a session has them.
abbrev pub TunnelIs : App → ℕ → ℕ → Bool → Type 0
TunnelIs s session traffic corked =
    ((s.session_at session).tunnel_traffic ≡ traffic)
    × ((s.session_at session).tunnel_corked ≡ corked)

pub cork_tunnel-TunnelIs :
    (limit seq session traffic : ℕ) (corked : Bool) (s : App)
    → 0 < limit
    → traffic + 1 < 2 ^ 32
    → TunnelIs s session traffic corked
    → TunnelIs (cork_tunnel limit seq session s) session (traffic + 1) (corks limit traffic corked)
unfolding cork_tunnel
cork_tunnel-TunnelIs limit seq session traffic corked s l w h = ground arith

uncork_tunnel-TunnelIs :
    (limit seq session traffic : ℕ) (corked : Bool) (s : App)
    → 0 < limit
    → 0 < traffic
    → traffic < 2 ^ 32
    → TunnelIs s session traffic corked
    → TunnelIs
        (uncork_tunnel limit seq session s)
        session
        (traffic - 1)
        (stays limit traffic corked)
unfolding uncork_tunnel
uncork_tunnel-TunnelIs limit seq session traffic corked s l p w h = ground arith

pub on_tunnel_sent-TunnelIs :
    (service session seq limit traffic : ℕ) (corked : Bool) (s : App)
    → 0 < limit
    → 0 < traffic
    → traffic < 2 ^ 32
    → TunnelIs s session traffic corked
    → TunnelIs
        (on_tunnel_sent service session seq limit s)
        session
        (traffic - 1)
        (stays limit traffic corked)
unfolding on_tunnel_sent
on_tunnel_sent-TunnelIs service session seq limit traffic corked s l p w h =
    let u = uncork_tunnel limit seq session s in
    let (t, c) = uncork_tunnel-TunnelIs limit seq session traffic corked s l p w h in
    let e = clean_session-sessions service session u in
    (ap (λ f. (f session).tunnel_traffic) e ∙ t, ap (λ f. (f session).tunnel_corked) e ∙ c)

pub on_tunnel_sent-IsTold :
    (limit service session seq : ℕ) (s : App)
    → IsTold seq session s
    → IsTold seq session (on_tunnel_sent service session seq limit s)
unfolding on_tunnel_sent
on_tunnel_sent-IsTold limit service session seq s h =
    let u = uncork_tunnel limit seq session s in
    clean_session-agent_blocked seq service session u
    ∙ uncork_tunnel-IsTold limit seq session s h
    ∙ sym (ap (λ f. (f session).tunnel_corked) (clean_session-sessions service session u))

-- The direction from an agent to its user, as DATA and the callback of its send treat it.
abbrev pub tunnel_cork : (limit service session seq : ℕ) → 0 < limit → Cork App
tunnel_cork limit service session seq l = record {
  fit = λ s. Unit {0};
  limit = limit;
  traffic = λ s. (s.session_at session).tunnel_traffic;
  corked = λ s. (s.session_at session).tunnel_corked;
  blocked = λ s. agent_blocked seq s.effects;
  arrive = cork_tunnel limit seq session;
  leave = on_tunnel_sent service session seq limit;
  limited = l;
  arrive_counts = λ s f w.
      let c = cork_tunnel-TunnelIs limit seq session _ _ s l w (refl, refl) in (tt, c.0, c.1);
  leave_counts = λ s f p w.
      let c = on_tunnel_sent-TunnelIs service session seq limit _ _ s l p w (refl, refl) in
      (tt, c.0, c.1);
  arrive_tells = λ s f h. cork_tunnel-IsTold limit seq session s h;
  leave_tells = λ s f h. on_tunnel_sent-IsTold limit service session seq s h;
}

-- From the agent to the user no session is left blocked: after any history of buffers that arrived,
-- all on the agent's connection `seq`, and were sent on, which starts with nothing waiting and
-- receiving open, BlockRecv of this connection was last called with `true` while more than half of the
-- limit waits, or with `false`, or never, while at most the limit waits; and the counter counts what
-- waits. No other session's traffic on the connection is in the history.
pub tunnel_never_stalls :
    (limit service session seq n : ℕ) (l : 0 < limit) (ms : List Traffic) (s : App)
    → (s.session_at session).tunnel_traffic ≡ 0
    → (s.session_at session).tunnel_corked ≡ false
    → agent_blocked seq s.effects ≡ false
    → waiting 0 ms ≡ some n
    → let t = exchange (tunnel_cork limit service session seq l) ms s in
      ((t.session_at session).tunnel_traffic ≡ n) × Limited limit n (agent_blocked seq t.effects)
tunnel_never_stalls limit service session seq n l ms s z o b e =
    never_stalls (tunnel_cork limit service session seq l) ms s n tt z o b e

-- The completions of `k` sends to the agent.
abbrev pub completions : ℕ → ℕ → ℕ → ℕ → ℕ → App → App
completions zero service session seq limit s = s
completions (suc k) service session seq limit s =
    completions k service session seq limit (on_user_sent service session seq limit s)

-- Receiving from the user is blocked by the flag and by the last BlockRecv, while the other direction
-- has `traffic` waiting.
record IsStuck (service session seq traffic : ℕ) (s : App) : Type 0 where
  corked : (s.session_at session).user_corked ≡ true
  blocked : user_blocked service seq s.effects ≡ true
  other : (s.session_at session).tunnel_traffic ≡ traffic

uncork_user-IsStuck :
    (limit service session seq traffic : ℕ) (s : App)
    → limit / 2 < traffic
    → IsStuck service session seq traffic s
    → IsStuck service session seq traffic (uncork_user limit service seq session s)
unfolding uncork_user
uncork_user-IsStuck limit service session seq traffic s l h =
    let c = h.corked in
    let b = h.blocked in
    let o = h.other in
    record { corked = ground arith; blocked = ground arith; other = ground arith }

on_user_sent-IsStuck :
    (limit service session seq traffic : ℕ) (s : App)
    → limit / 2 < traffic
    → IsStuck service session seq traffic s
    → IsStuck service session seq traffic (on_user_sent service session seq limit s)
unfolding on_user_sent
on_user_sent-IsStuck limit service session seq traffic s l h =
    let u = uncork_user limit service seq session s in
    let k = uncork_user-IsStuck limit service session seq traffic s l h in
    let e = clean_session-sessions service session u in
    record {
      corked = ap (λ f. (f session).user_corked) e ∙ k.corked;
      blocked = clean_session-user_blocked service seq service session u ∙ k.blocked;
      other = ap (λ f. (f session).tunnel_traffic) e ∙ k.other;
    }

on_user_sent-user_traffic :
    (limit service session seq : ℕ) (s : App)
    → 0 < (s.session_at session).user_traffic
    → (s.session_at session).user_traffic < 2 ^ 32
    → ((on_user_sent service session seq limit s).session_at session).user_traffic
      ≡ (s.session_at session).user_traffic - 1
unfolding on_user_sent
on_user_sent-user_traffic limit service session seq s p w =
    let u = uncork_user limit service seq session s in
    ap (λ f. (f session).user_traffic) (clean_session-sessions service session u)
    ∙ (unfold uncork_user in ground arith)

completions-IsStuck :
    (k limit service session seq traffic : ℕ) (s : App)
    → limit / 2 < traffic
    → k ≤ (s.session_at session).user_traffic
    → (s.session_at session).user_traffic < 2 ^ 32
    → IsStuck service session seq traffic s
    → IsStuck service session seq traffic (completions k service session seq limit s)
      × (((completions k service session seq limit s).session_at session).user_traffic
          ≡ (s.session_at session).user_traffic - k)
completions-IsStuck zero limit service session seq traffic s l p w h = (h, omega arith)
completions-IsStuck (suc k) limit service session seq traffic s l p w h =
    let t = on_user_sent service session seq limit s in
    let c = on_user_sent-user_traffic limit service session seq s (omega arith) w in
    let g = on_user_sent-IsStuck limit service session seq traffic s l h in
    let r =
      completions-IsStuck k limit service session seq traffic t l (omega (arith, c))
        (omega (arith, c)) g in
    (r.0, r.1 ∙ omega (arith, c))

-- From the user to the agent a session can be left blocked. While receiving from the user is blocked
-- and more than half of the limit wait in the other direction, no number of completions of sends to
-- the agent reopens it, all that wait included: the counter goes down by one with each, to 0 with the
-- last, and still the flag is set and the last BlockRecv of the user's connection was with `true`.
pub on_user_sent-stalls :
    (k limit service session seq : ℕ) (s : App)
    → (s.session_at session).user_corked ≡ true
    → user_blocked service seq s.effects ≡ true
    → k ≤ (s.session_at session).user_traffic
    → (s.session_at session).user_traffic < 2 ^ 32
    → limit / 2 < (s.session_at session).tunnel_traffic
    → let t = completions k service session seq limit s in
      ((t.session_at session).user_traffic ≡ (s.session_at session).user_traffic - k)
      × ((t.session_at session).user_corked ≡ true)
      × (user_blocked service seq t.effects ≡ true)
on_user_sent-stalls k limit service session seq s c b p w l =
    let h =
      completions-IsStuck k limit service session seq (s.session_at session).tunnel_traffic s l p w
        (record { corked = c; blocked = b; other = refl }) in
    (h.1, h.0.corked, h.0.blocked)

-- ===== src/Agent/Corking.antt =====
-- Flow control of a session of r-nat-c/app1: bytes from the relay (tunnel.cpp, session_tunnel.cpp)
-- and from the service (user.cpp).
use r_nat.Common.{ℕ, ◌+◌, ◌-◌, ◌<◌, ◌^◌, ◌≡◌, refl, sym, ap, subst, ◌∙◌, Bool, arith}
use r_nat.Balance.{inc32, dec32}
use r_nat.Flow.{Cork, corks, stays}
use r_nat.Agent.State.{App, User, clean_session}
use r_nat.Agent.Tunnel.{cork_tunnel, uncork_tunnel, on_tunnel_sent}
use r_nat.Agent.Blocking.{
  session_blocked, user_blocked, cork_tunnel-TunnelTold, on_tunnel_sent-TunnelTold,
  cork_user-UserTold, on_user_sent-UserTold,
}
use r_nat.Agent.User.{cork_user, uncork_user, on_user_sent}

-- __CleanSession changes no session.
pub clean_session-sessions :
    (remote session : ℕ) (usr : User) (s : App)
    → (clean_session remote session usr s).session_at ≡ s.session_at
unfolding clean_session
clean_session-sessions remote session usr s = ground arith

pub clean_session-limit :
    (remote session : ℕ) (usr : User) (s : App)
    → (clean_session remote session usr s).queue_limit ≡ s.queue_limit
unfolding clean_session
clean_session-limit remote session usr s = ground arith

-- The counter and the flag of a direction, and the limit, as the program has them.
abbrev pub TunnelIs : ℕ → App → ℕ → ℕ → Bool → Type 0
TunnelIs limit s session traffic corked =
    (s.queue_limit ≡ limit)
    × ((s.session_at session).tunnel_traffic ≡ traffic)
    × ((s.session_at session).tunnel_corked ≡ corked)

uncorked_tunnel :
    (limit session traffic : ℕ) (corked : Bool) (s : App)
    → 0 < limit
    → 0 < traffic
    → traffic < 2 ^ 32
    → TunnelIs limit s session traffic corked
    → TunnelIs limit
        (uncork_tunnel limit session s)
        session
        (traffic - 1)
        (stays limit traffic corked)
unfolding uncork_tunnel
uncorked_tunnel limit session traffic corked s l p w h = ground arith

pub cork_tunnel-TunnelIs :
    (limit session traffic : ℕ) (corked : Bool) (s : App)
    → 0 < limit
    → traffic + 1 < 2 ^ 32
    → TunnelIs limit s session traffic corked
    → TunnelIs limit
        (cork_tunnel s.queue_limit session s)
        session
        (traffic + 1)
        (corks limit traffic corked)
unfolding cork_tunnel
cork_tunnel-TunnelIs limit session traffic corked s l w h = ground arith

pub on_tunnel_sent-TunnelIs :
    (limit remote session : ℕ) (usr : User) (traffic : ℕ) (corked : Bool) (s : App)
    → 0 < limit
    → 0 < traffic
    → traffic < 2 ^ 32
    → TunnelIs limit s session traffic corked
    → TunnelIs limit
        (on_tunnel_sent remote session usr s)
        session
        (traffic - 1)
        (stays limit traffic corked)
unfolding on_tunnel_sent
on_tunnel_sent-TunnelIs limit remote session usr traffic corked s l p w h =
    let u = uncork_tunnel s.queue_limit session s in
    let q = clean_session-limit remote session usr u in
    let e = clean_session-sessions remote session usr u in
    let c : TunnelIs limit u session (traffic - 1) (stays limit traffic corked) =
      subst
        (λ n.
          TunnelIs limit (uncork_tunnel n session s) session (traffic - 1)
            (stays limit traffic corked))
        (sym h.0) (uncorked_tunnel limit session traffic corked s l p w h) in
    (
      q ∙ c.0,
      ap (λ f. (f session).tunnel_traffic) e ∙ c.1,
      ap (λ f. (f session).tunnel_corked) e ∙ c.2,
    )

-- The direction from the relay to the service, as DATA and the callback of its send treat it.
abbrev pub tunnel_cork : (limit remote session : ℕ) → User → 0 < limit → Cork App
tunnel_cork limit remote session usr l = record {
  fit = λ s. s.queue_limit ≡ limit;
  limit = limit;
  traffic = λ s. (s.session_at session).tunnel_traffic;
  corked = λ s. (s.session_at session).tunnel_corked;
  blocked = λ s. session_blocked session s.effects;
  arrive = λ s. cork_tunnel s.queue_limit session s;
  leave = on_tunnel_sent remote session usr;
  limited = l;
  arrive_counts = λ s f w. cork_tunnel-TunnelIs limit session _ _ s l w (f, refl, refl);
  leave_counts =
      λ s f p w. on_tunnel_sent-TunnelIs limit remote session usr _ _ s l p w (f, refl, refl);
  arrive_tells = λ s f h. cork_tunnel-TunnelTold s.queue_limit session s h;
  leave_tells = λ s f h. on_tunnel_sent-TunnelTold remote session usr s h;
}

abbrev pub UserIs : ℕ → App → ℕ → ℕ → Bool → Type 0
UserIs limit s session traffic corked =
    (s.queue_limit ≡ limit)
    × ((s.session_at session).user_traffic ≡ traffic)
    × ((s.session_at session).user_corked ≡ corked)

uncorked_user :
    (limit session traffic : ℕ) (corked : Bool) (s : App)
    → 0 < limit
    → 0 < traffic
    → traffic < 2 ^ 32
    → UserIs limit s session traffic corked
    → UserIs limit (uncork_user limit session s) session (traffic - 1) (stays limit traffic corked)
unfolding uncork_user dec32
uncorked_user limit session traffic corked s l p w h = ground arith

pub cork_user-UserIs :
    (limit session traffic : ℕ) (corked : Bool) (s : App)
    → 0 < limit
    → traffic + 1 < 2 ^ 32
    → UserIs limit s session traffic corked
    → UserIs limit
        (cork_user s.queue_limit session s)
        session
        (traffic + 1)
        (corks limit traffic corked)
unfolding cork_user inc32
cork_user-UserIs limit session traffic corked s l w h = ground arith

pub on_user_sent-UserIs :
    (limit remote session : ℕ) (usr : User) (traffic : ℕ) (corked : Bool) (s : App)
    → 0 < limit
    → 0 < traffic
    → traffic < 2 ^ 32
    → UserIs limit s session traffic corked
    → UserIs limit
        (on_user_sent remote session usr s)
        session
        (traffic - 1)
        (stays limit traffic corked)
unfolding on_user_sent
on_user_sent-UserIs limit remote session usr traffic corked s l p w h =
    let u = uncork_user s.queue_limit session s in
    let q = clean_session-limit remote session usr u in
    let e = clean_session-sessions remote session usr u in
    let c : UserIs limit u session (traffic - 1) (stays limit traffic corked) =
      subst
        (λ n.
          UserIs limit (uncork_user n session s) session (traffic - 1) (stays limit traffic corked))
        (sym h.0) (uncorked_user limit session traffic corked s l p w h) in
    (q ∙ c.0, ap (λ f. (f session).user_traffic) e ∙ c.1, ap (λ f. (f session).user_corked) e ∙ c.2)

-- The direction from the service to the relay, as __OnUserRecv and the callback of its send treat it.
abbrev pub user_cork : (limit remote session : ℕ) → User → 0 < limit → Cork App
user_cork limit remote session usr l = record {
  fit = λ s. s.queue_limit ≡ limit;
  limit = limit;
  traffic = λ s. (s.session_at session).user_traffic;
  corked = λ s. (s.session_at session).user_corked;
  blocked = λ s. user_blocked session s.effects;
  arrive = λ s. cork_user s.queue_limit session s;
  leave = on_user_sent remote session usr;
  limited = l;
  arrive_counts = λ s f w. cork_user-UserIs limit session _ _ s l w (f, refl, refl);
  leave_counts =
      λ s f p w. on_user_sent-UserIs limit remote session usr _ _ s l p w (f, refl, refl);
  arrive_tells = λ s f h. cork_user-UserTold s.queue_limit session s h;
  leave_tells = λ s f h. on_user_sent-UserTold remote session usr s h;
}

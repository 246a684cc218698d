-- ===== src/Agent/Isolation/Users.antt =====
-- The users of r-nat-c/app1 and their sessions.
use r_nat.Common.{
  ℕ, ◌<◌, ◌^◌, ◌≡◌, refl, sym, ap, ◌∙◌, ◌⊎◌, inl, inr, Option, none, some, List, [], ◌∷◌, arith,
  ◌==◌, ◌&&◌, Bool-cases, length, nat_key, lookup, lookup-insert, Option-cases,
}
use r_nat.Protocol.{Bytes, R2a, put_r2a, parse_r2a}
use r_nat.Protocol.RoundTrip.{parse-put_r2a}
use r_nat.Endpoint.{Endpoint}
use r_nat.Agent.State.{App, User, user_key, same_user, same_user_iff, user_conn, send, tunnel_sent}
use r_nat.Agent.Tunnel.{
  on_server_connect, on_server_recv, on_notice, on_session_connect, on_session_disconnect,
  on_session_recv, on_connect, open_at, open_session, on_relay_data, cork_tunnel,
}
use r_nat.Agent.User.{on_user_disconnect, on_user_recv}
use r_nat.Agent.Sessions.{session_of}
use r_nat.Agent.Step.{
  Event, server_connects, server_disconnects, reconnects, server_sends, session_connects,
  session_disconnects, session_sends, user_disconnects, user_sends, completes, step, run,
}
use r_nat.Agent.Isolation.Tables.{
  IsSeparate, Narrows-IsSeparate, IsSame-Narrows, cork_user-IsSame, announce-IsSame,
  on_server_disconnect-Narrows, reconnect-Narrows, on_relay_data-Narrows, on_relay_hangs_up-Narrows,
  on_session_notice-Narrows, cleaned-Narrows, on_sent-Narrows,
}

-- The entry that a new session makes.
open_session-session_of :
    (remote : ℕ) (usr : User) (ep : Endpoint) (s : App) (r : ℕ) (u : User) (ref : ℕ)
    → session_of (open_session remote usr ep s) r u ≡ some ref
    → ((r ≡ remote) × (u ≡ usr) × (ref ≡ s.next_ref)) ⊎ (session_of s r u ≡ some ref)
unfolding open_session
open_session-session_of remote usr ep s r u ref h =
    let l = lookup-insert usr u s.next_ref (s.remote_at remote).users in
    elim (Bool-cases (remote == r && same_user usr u)) [
      | inl x ↦
          let k : usr ≡ u = (same_user_iff usr u).0 (ground (arith, x)) in
          inl (ground (arith, x), sym k, ground (arith, x, h, l))
      | inr x ↦ inr (ground (arith, x, h, l))
    ]

pub open_session-IsSeparate :
    (remote : ℕ) (usr : User) (ep : Endpoint) (s : App)
    → IsSeparate s
    → IsSeparate (open_session remote usr ep s)
open_session-IsSeparate remote usr ep s h = record {
  fresh = λ r u ref e. elim (open_session-session_of remote usr ep s r u ref e) [
    | inl x ↦ unfold open_session in ground (arith, x.2)
    | inr x ↦ unfold open_session in ground (arith, h.fresh r u ref x)
  ];
  distinct = λ r q u v ref e f. elim (open_session-session_of remote usr ep s r u ref e) [
    | inl x ↦ elim (open_session-session_of remote usr ep s q v ref f) [
      | inl y ↦ (x.0 ∙ sym y.0, x.1 ∙ sym y.1)
      | inr y ↦ absurd (ground (arith, x.2, h.fresh q v ref y))
    ]
    | inr x ↦ elim (open_session-session_of remote usr ep s q v ref f) [
      | inl y ↦ absurd (ground (arith, y.2, h.fresh r u ref x))
      | inr y ↦ h.distinct r q u v ref x y
    ]
  ];
}

open_at-IsSeparate :
    (o : Option Endpoint) (remote : ℕ) (usr : User) (s : App)
    → IsSeparate s
    → IsSeparate (open_at o remote usr s)
open_at-IsSeparate none remote usr s h = h
open_at-IsSeparate (some ep) remote usr s h = open_session-IsSeparate remote usr ep s h

pub on_connect-IsSeparate :
    (remote port id usr_ip : ℕ) (s : App)
    → IsSeparate s
    → IsSeparate (on_connect remote port id usr_ip s)
unfolding on_connect
on_connect-IsSeparate remote port id usr_ip s h =
    elim (Option-cases (session_of s remote (port, id))) [
      | inr (x, e) ↦ rw (e, on_connect) h
      | inl e ↦ elim (Option-cases (lookup port s.service_ep)) [
        | inl f ↦ rw (e, f, on_connect) h
        | inr (eps, f) ↦ elim (Bool-cases (length eps == 0)) [
          | inl n ↦ rw (e, f, on_connect) (rw n h)
          | inr n ↦ rw (e, f, on_connect) (rw n (open_at-IsSeparate _ remote (port, id) s h))
        ]
      ]
    ]

on_notice-IsSeparate :
    (o : Option R2a) (remote : ℕ) (s : App) → IsSeparate s → IsSeparate (on_notice o remote s)
on_notice-IsSeparate none remote s h = h
on_notice-IsSeparate (some (R2a.bind port error_code)) remote s h = h
on_notice-IsSeparate (some (R2a.unbind port error_code)) remote s h = h
on_notice-IsSeparate (some (R2a.carry port id pkt)) remote s h =
    Narrows-IsSeparate (on_relay_data-Narrows remote (port, id) pkt s) h
on_notice-IsSeparate (some (R2a.connect port id usr_ip usr_port)) remote s h =
    on_connect-IsSeparate remote port id usr_ip s h
on_notice-IsSeparate (some (R2a.disconnect port id)) remote s h =
    Narrows-IsSeparate (on_relay_hangs_up-Narrows remote (port, id) s) h

step-IsSeparate : (e : Event) (s : App) → IsSeparate s → IsSeparate (step e s)
unfolding step on_server_connect on_server_recv on_session_connect on_session_disconnect
    on_session_recv on_user_disconnect on_user_recv
step-IsSeparate (server_connects remote) s h =
    Narrows-IsSeparate (IsSame-Narrows (announce-IsSame remote s.service_ports s)) h
step-IsSeparate (server_disconnects remote) s h =
    Narrows-IsSeparate (on_server_disconnect-Narrows remote s) h
step-IsSeparate (reconnects remote) s h = Narrows-IsSeparate (reconnect-Narrows remote s) h
step-IsSeparate (server_sends remote buf) s h = on_notice-IsSeparate (parse_r2a buf) remote s h
step-IsSeparate (session_connects session (port, id)) s h =
    Narrows-IsSeparate (IsSame-Narrows (refl, refl)) h
step-IsSeparate (session_disconnects remote session usr) s h =
    Narrows-IsSeparate (cleaned-Narrows remote session usr s _ (refl, refl)) h
step-IsSeparate (session_sends remote buf) s h =
    Narrows-IsSeparate (on_session_notice-Narrows (parse_r2a buf) remote s) h
step-IsSeparate (user_disconnects remote session (port, id)) s h =
    Narrows-IsSeparate (cleaned-Narrows remote session (port, id) s _ (refl, refl)) h
step-IsSeparate (user_sends remote session (port, id) buf) s h =
    Narrows-IsSeparate (IsSame-Narrows (cork_user-IsSame s.queue_limit session s)) h
step-IsSeparate (completes sent) s h = Narrows-IsSeparate (on_sent-Narrows sent s) h

pub empty-IsSeparate : (s : App) → ((r : ℕ) → (s.remote_at r).users ≡ []) → IsSeparate s
unfolding lookup
empty-IsSeparate s h = record {
  fresh = λ r u ref e. absurd (ground (arith, h r));
  distinct = λ r q u v ref e f. absurd (ground (arith, h r));
}

kept-IsSeparate : (es : List Event) (s : App) → IsSeparate s → IsSeparate (run es s)
unfolding run
kept-IsSeparate [] s h = h
kept-IsSeparate (e ∷ es) s h = kept-IsSeparate es (step e s) (step-IsSeparate e s h)

-- DATA for a user that has a session.
on_server_recv-carry :
    (remote port id session : ℕ) (buf : Bytes) (s : App)
    → port < 2 ^ 16
    → id < 2 ^ 32
    → session_of s remote (port, id) ≡ some session
    → (on_server_recv remote (put_r2a (R2a.carry port id buf)) s).effects
      ≡ send (user_conn session) buf (some (tunnel_sent remote session (port, id)))
        ∷ (cork_tunnel s.queue_limit session s).effects
unfolding on_server_recv on_relay_data
on_server_recv-carry remote port id session buf s p i e =
    ap (λ o. (on_notice o remote s).effects) (parse-put_r2a (R2a.carry port id buf) (p, i))
    ∙ (rw (e, on_relay_data) refl)

-- Users of the agent never share a session: after every sequence of events, whatever the relays and
-- the services send, that starts without users, a session stands in the tables for one user of one
-- remote only; and it is one that has been made, so that the next one is new. DATA of a remote for a
-- user that has a session is sent to the service on the user_conn of that session, which so is no
-- other user's.
pub run-IsSeparate :
    (es : List Event) (s : App) (remote port id session : ℕ) (buf : Bytes)
    → ((r : ℕ) → (s.remote_at r).users ≡ [])
    → port < 2 ^ 16
    → id < 2 ^ 32
    → session_of (run es s) remote (port, id) ≡ some session
    → let t = run es s in
      IsSeparate t
      × ((on_server_recv remote (put_r2a (R2a.carry port id buf)) t).effects
          ≡ send (user_conn session) buf (some (tunnel_sent remote session (port, id)))
            ∷ (cork_tunnel t.queue_limit session t).effects)
run-IsSeparate es s remote port id session buf h p i e = (
  kept-IsSeparate es s (empty-IsSeparate s h),
  on_server_recv-carry remote port id session buf (run es s) p i e,
)

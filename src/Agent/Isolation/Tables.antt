-- ===== src/Agent/Isolation/Tables.antt =====
-- The tables of users of r-nat-c/app1, and what the handlers do to them.
use r_nat.Common.{
  ℕ, ◌≤◌, ◌<◌, ◌≡◌, refl, sym, ap, ◌∙◌, inl, inr, Option, none, some, List, [], ◌∷◌, arith, nat_key,
  lookup, Option-cases,
}
use r_nat.Protocol.{Bytes, R2a}
use r_nat.Agent.State.{App, User, user_key, Sent, tunnel_sent, user_sent, clean_session}
use r_nat.Agent.Tunnel.{
  announce, on_server_disconnect, reconnect, on_session_notice, on_tunnel_sent, on_relay_data,
  on_relay_hangs_up, mark_tunnel_gone, cork_tunnel, uncork_tunnel,
}
use r_nat.Agent.User.{on_user_sent, cork_user, uncork_user}
use r_nat.Agent.Sessions.{session_of, user_of-clean_session}
use r_nat.Agent.Step.{on_sent}

-- Every session in a table is one that has been made, and stands there for one user of one remote.
pub record IsSeparate (s : App) : Type 0 where
  pub fresh : (r : ℕ) (u : User) (ref : ℕ) → session_of s r u ≡ some ref → ref < s.next_ref
  pub distinct :
      (r q : ℕ) (u v : User) (ref : ℕ)
      → session_of s r u ≡ some ref
      → session_of s q v ≡ some ref
      → (r ≡ q) × (u ≡ v)

-- No table has gained or changed an entry.
pub record Narrows (s t : App) : Type 0 where
  pub next_ref : s.next_ref ≤ t.next_ref
  pub kept :
      (r : ℕ) (u : User) (ref : ℕ) → session_of t r u ≡ some ref → session_of s r u ≡ some ref

pub Narrows-refl : (s : App) → Narrows s s
Narrows-refl s = record { next_ref = omega arith; kept = λ r u ref h. h }

pub Narrows-trans : {s t w : App} → Narrows s t → Narrows t w → Narrows s w
Narrows-trans a b = record {
  next_ref = ground (arith, a.next_ref, b.next_ref);
  kept = λ r u ref h. a.kept r u ref (b.kept r u ref h);
}

pub Narrows-IsSeparate : {s t : App} → Narrows s t → IsSeparate s → IsSeparate t
Narrows-IsSeparate n h = record {
  fresh = λ r u ref e. ground (arith, n.next_ref, h.fresh r u ref (n.kept r u ref e));
  distinct = λ r q u v ref e f. h.distinct r q u v ref (n.kept r u ref e) (n.kept q v ref f);
}

pub clean_session-Narrows :
    (remote session : ℕ) (usr : User) (s : App) → Narrows s (clean_session remote session usr s)
clean_session-Narrows remote session usr s = record {
  next_ref = unfold clean_session in ground arith;
  kept = λ r u ref h. ground (arith, user_of-clean_session remote session usr u s r);
}

-- The tables stay as they are.
abbrev pub IsSame : App → App → Type 0
IsSame s t = (t.next_ref ≡ s.next_ref) × (t.remote_at ≡ s.remote_at)

pub IsSame-Narrows : {s t : App} → IsSame s t → Narrows s t
IsSame-Narrows {s} {t} h = record {
  next_ref = ground (arith, h.0);
  kept = λ r u ref e. sym (ap (λ m. lookup u (m r).users) h.1) ∙ e;
}

pub cork_tunnel-IsSame : (limit session : ℕ) (s : App) → IsSame s (cork_tunnel limit session s)
unfolding cork_tunnel
cork_tunnel-IsSame limit session s = ground arith

pub uncork_tunnel-IsSame : (limit session : ℕ) (s : App) → IsSame s (uncork_tunnel limit session s)
unfolding uncork_tunnel
uncork_tunnel-IsSame limit session s = ground arith

pub cork_user-IsSame : (limit session : ℕ) (s : App) → IsSame s (cork_user limit session s)
unfolding cork_user
cork_user-IsSame limit session s = ground arith

pub uncork_user-IsSame : (limit session : ℕ) (s : App) → IsSame s (uncork_user limit session s)
unfolding uncork_user
uncork_user-IsSame limit session s = ground arith

pub announce-IsSame : (remote : ℕ) (ports : List ℕ) (s : App) → IsSame s (announce remote ports s)
unfolding announce
announce-IsSame remote [] s = (refl, refl)
announce-IsSame remote (port ∷ ports) s = announce-IsSame remote ports _

pub on_server_disconnect-Narrows :
    (remote : ℕ) (s : App) → Narrows s (on_server_disconnect remote s)
unfolding on_server_disconnect lookup
on_server_disconnect-Narrows remote s = record {
  next_ref = omega arith;
  kept = λ r u ref h. ground arith;
}

pub reconnect-Narrows : (remote : ℕ) (s : App) → Narrows s (reconnect remote s)
unfolding reconnect
reconnect-Narrows remote s = record { next_ref = omega arith; kept = λ r u ref h. ground arith }

pub on_relay_data-Narrows :
    (remote : ℕ) (usr : User) (pkt : Bytes) (s : App) → Narrows s (on_relay_data remote usr pkt s)
unfolding on_relay_data
on_relay_data-Narrows remote usr pkt s =
    elim (Option-cases (lookup usr (s.remote_at remote).users)) [
      | inl e ↦ rw (e, on_relay_data) (Narrows-refl s)
      | inr (session, e) ↦
          rw (e, on_relay_data) (IsSame-Narrows (cork_tunnel-IsSame s.queue_limit session s))
    ]

pub on_relay_hangs_up-Narrows :
    (remote : ℕ) (usr : User) (s : App) → Narrows s (on_relay_hangs_up remote usr s)
unfolding on_relay_hangs_up
on_relay_hangs_up-Narrows remote usr s =
    elim (Option-cases (lookup usr (s.remote_at remote).users)) [
      | inl e ↦ rw (e, on_relay_hangs_up) (Narrows-refl s)
      | inr (session, e) ↦
          rw (e, on_relay_hangs_up)
            (Narrows-trans (IsSame-Narrows (refl, refl))
              (clean_session-Narrows remote session usr (mark_tunnel_gone session s)))
    ]

pub on_session_notice-Narrows :
    (o : Option R2a) (remote : ℕ) (s : App) → Narrows s (on_session_notice o remote s)
on_session_notice-Narrows none remote s = Narrows-refl s
on_session_notice-Narrows (some (R2a.bind port error_code)) remote s = Narrows-refl s
on_session_notice-Narrows (some (R2a.unbind port error_code)) remote s = Narrows-refl s
on_session_notice-Narrows (some (R2a.carry port id pkt)) remote s =
    on_relay_data-Narrows remote (port, id) pkt s
on_session_notice-Narrows (some (R2a.connect port id usr_ip usr_port)) remote s = Narrows-refl s
on_session_notice-Narrows (some (R2a.disconnect port id)) remote s =
    on_relay_hangs_up-Narrows remote (port, id) s

-- What ends with __CleanSession, after a part that leaves the tables.
pub cleaned-Narrows :
    (remote session : ℕ) (usr : User) (s t : App)
    → IsSame s t
    → Narrows s (clean_session remote session usr t)
cleaned-Narrows remote session usr s t h =
    Narrows-trans (IsSame-Narrows h) (clean_session-Narrows remote session usr t)

pub on_sent-Narrows : (sent : Sent) (s : App) → Narrows s (on_sent sent s)
unfolding on_sent on_tunnel_sent on_user_sent
on_sent-Narrows (tunnel_sent remote session usr) s =
    cleaned-Narrows remote session usr s _ (uncork_tunnel-IsSame s.queue_limit session s)
on_sent-Narrows (user_sent remote session usr) s =
    cleaned-Narrows remote session usr s _ (uncork_user-IsSame s.queue_limit session s)

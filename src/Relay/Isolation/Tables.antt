-- ===== src/Relay/Isolation/Tables.antt =====
-- The tables of sessions of r-nat-s/app1, and what the parts of the handlers do to them.
use r_nat.Common.{
  ℕ, ◌≤◌, ◌<◌, ◌≡◌, refl, sym, ap, ◌∙◌, Option, none, some, [], ◌∷◌, true, arith, nat_key, lookup,
  Map, KeySet,
}
use r_nat.Relay.State.{App, clean_session, set_session}
use r_nat.Relay.Tunnel.{leave_ports, leave_port, leave_service, hang_up, cork_tunnel, uncork_tunnel}
use r_nat.Relay.User.{mark_user_gone, cork_user, uncork_user}
use r_nat.Relay.Registry.{clean_session-Keeps}
use r_nat.Relay.Sessions.{session_of, session_of-clean_session}

-- Every session in a table is one that has been made, and stands there for one user of one service.
pub record IsSeparate (s : App) : Type 0 where
  pub fresh : (r seq ref : ℕ) → session_of s r seq ≡ some ref → ref < s.next_ref
  pub distinct :
      (r q seq id ref : ℕ)
      → session_of s r seq ≡ some ref
      → session_of s q id ≡ some ref
      → (r ≡ q) × (seq ≡ id)

-- No table has gained or changed an entry.
pub record Narrows (s t : App) : Type 0 where
  pub next_ref : s.next_ref ≤ t.next_ref
  pub kept : (r seq ref : ℕ) → session_of t r seq ≡ some ref → session_of s r seq ≡ some ref

pub Narrows-refl : (s : App) → Narrows s s
Narrows-refl s = record { next_ref = omega arith; kept = λ r seq ref h. h }

pub Narrows-trans : {s t w : App} → Narrows s t → Narrows t w → Narrows s w
Narrows-trans a b = record {
  next_ref = ground (arith, a.next_ref, b.next_ref);
  kept = λ r seq ref h. a.kept r seq ref (b.kept r seq ref h);
}

pub Narrows-IsSeparate : {s t : App} → Narrows s t → IsSeparate s → IsSeparate t
Narrows-IsSeparate n h = record {
  fresh = λ r seq ref e. ground (arith, n.next_ref, h.fresh r seq ref (n.kept r seq ref e));
  distinct =
      λ r q seq id ref e f. h.distinct r q seq id ref (n.kept r seq ref e) (n.kept q id ref f);
}

pub clean_session-Narrows :
    (service session : ℕ) (s : App) → Narrows s (clean_session service session s)
clean_session-Narrows service session s = record {
  next_ref = (clean_session-Keeps service session s).next_ref;
  kept = λ r seq ref h. ground (arith, session_of-clean_session service session s r seq);
}

-- The tables stay as they are.
abbrev pub IsSame : App → App → Type 0
IsSame s t =
    (t.next_ref ≡ s.next_ref) × ((r : ℕ) → (t.service_at r).sessions ≡ (s.service_at r).sessions)

pub IsSame-Narrows : {s t : App} → IsSame s t → Narrows s t
IsSame-Narrows {s} {t} h = record {
  next_ref = ground (arith, h.0);
  kept = λ r seq ref e. sym (ap (λ m. lookup seq m) (h.1 r)) ∙ e;
}

pub cork_tunnel-IsSame :
    (limit seq session : ℕ) (s : App) → IsSame s (cork_tunnel limit seq session s)
unfolding cork_tunnel
cork_tunnel-IsSame limit seq session s = (ground arith, λ r. ground arith)

pub uncork_tunnel-IsSame :
    (limit seq session : ℕ) (s : App) → IsSame s (uncork_tunnel limit seq session s)
unfolding uncork_tunnel
uncork_tunnel-IsSame limit seq session s = (ground arith, λ r. ground arith)

pub cork_user-IsSame :
    (limit service seq session : ℕ) (s : App) → IsSame s (cork_user limit service seq session s)
unfolding cork_user
cork_user-IsSame limit service seq session s = (ground arith, λ r. ground arith)

pub uncork_user-IsSame :
    (limit service seq session : ℕ) (s : App) → IsSame s (uncork_user limit service seq session s)
unfolding uncork_user
uncork_user-IsSame limit service seq session s = (ground arith, λ r. ground arith)

pub mark_user_gone-IsSame :
    (service seq session : ℕ) (s : App) → IsSame s (mark_user_gone service seq session s)
unfolding mark_user_gone
mark_user_gone-IsSame service seq session s = (ground arith, λ r. ground arith)

pub leave_service-IsSame :
    (seq port service : ℕ) (s : App) → IsSame s (leave_service seq port service s)
unfolding leave_service
leave_service-IsSame seq port service s = (ground arith, λ r. ground arith)

-- What ends with __CleanSession, after a part that leaves the tables.
pub cleaned-Narrows :
    (service session : ℕ) (s t : App) → IsSame s t → Narrows s (clean_session service session t)
cleaned-Narrows service session s t h =
    Narrows-trans (IsSame-Narrows h) (clean_session-Narrows service session t)

hang_up-Narrows :
    (service : ℕ) (sessions : Map ℕ ℕ) (s : App) → Narrows s (hang_up service sessions s)
unfolding hang_up
hang_up-Narrows service [] s = Narrows-refl s
hang_up-Narrows service ((seq, session) ∷ rest) s =
    let ses = record (s.session_at session) {
      tunnel_disconnected = true;
      tunnel_hard_disconnected = true;
    } in
    let marked = set_session session ses s in
    Narrows-trans (cleaned-Narrows service session s marked (refl, λ r. refl))
      (hang_up-Narrows service rest (clean_session service session marked))

leave_port-Narrows :
    (o : Option ℕ) (seq port : ℕ) (sessions : Map ℕ ℕ) (s : App)
    → Narrows s (leave_port o seq port sessions s)
leave_port-Narrows none seq port sessions s = Narrows-refl s
leave_port-Narrows (some service) seq port sessions s =
    Narrows-trans (hang_up-Narrows service sessions s)
      (IsSame-Narrows (leave_service-IsSame seq port service (hang_up service sessions s)))

pub leave_ports-Narrows :
    (seq : ℕ) (ports : KeySet) (sessions : Map ℕ ℕ) (s : App)
    → Narrows s (leave_ports seq ports sessions s)
unfolding leave_ports
leave_ports-Narrows seq [] sessions s = Narrows-refl s
leave_ports-Narrows seq ((port, u) ∷ ports) sessions s =
    Narrows-trans (leave_port-Narrows (lookup port s.services) seq port sessions s) (
      leave_ports-Narrows seq ports sessions
        (leave_port (lookup port s.services) seq port sessions s))

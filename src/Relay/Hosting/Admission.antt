-- ===== src/Relay/Hosting/Admission.antt =====
-- The numbers that the server of r-nat-s/app1 announces, and the agents that the application knows.
use r_nat.Common.{
  ℕ, suc, ◌≡◌, refl, sym, ap, subst, ◌∙◌, inl, inr, Option, none, some, List, [], ◌∷◌, ◌++◌, Bool,
  true, false, ◌==◌, length, arith, nat_key, lookup, insert, erase, lookup-insert, lookup-erase,
  is_some, update, Option-cases, Bool-cases, if◌then◌else◌, Ensures-some,
}
use r_nat.Endpoint.{Endpoint}
use r_nat.Connection.{Connection, ErrorCode}
use r_nat.TcpServer.{TcpServer, tcp_ops, start_next_connection, on_conn_disconnect, get_next_seq}
use r_nat.TcpServer.Numbers.{search_seq-free, on_accept_lem, accepted}
use r_nat.Relay.State.{App}
use r_nat.Relay.Step.{Event, agent_connects, agent_disconnects, step}
use r_nat.Relay.Registry.Invariant.{IsRegistered, Admits, step-IsRegistered, initial}
use r_nat.Relay.Hosting.{
  Host, HostStep, HostReach, begins, accepts, fails, ends, posts, runs, here, next,
}
use r_nat.Relay.Hosting.Fits.{
  knows, known_after, Fits, Fits-connects, Fits-disconnects, Fits-other, Fits-same,
}
use r_nat.Relay.Hosting.Known.{knows-step, IsDue-Admits}

-- A number that the server takes is new in its table, and the table gains nothing else.
pub record Takes (s t : TcpServer Connection) : Type 0 where
  pub fresh : is_some (lookup t.next_seq s.conns) ≡ false
  pub grown :
      (k : ℕ)
      → is_some (lookup k t.conns) ≡ (if t.next_seq == k then true else is_some (lookup k s.conns))

start_next_connection-Takes :
    (acceptor : Endpoint) (s t : TcpServer Connection)
    → start_next_connection tcp_ops acceptor s ≡ some t
    → Takes s t
unfolding start_next_connection
start_next_connection-Takes acceptor s t e = elim (Option-cases (get_next_seq s)) [
  | inl x ↦ absurd (ground (arith, x))
  | inr (seq, x) ↦
      let free =
        (search_seq-free (suc (length s.conns)) s.next_seq seq s.conns
          (unfold get_next_seq in x)).0 in
      let n : t.next_seq ≡ seq = ground (arith, x) in
      let m : t.conns ≡ insert seq (tcp_ops.configure s.settings) s.conns = ground (arith, x) in
      record {
        fresh = ap (λ i. is_some (lookup i s.conns)) n ∙ free;
        grown =
            λ k. ground (arith, n, m, lookup-insert seq k (tcp_ops.configure s.settings) s.conns);
      }
]

-- The host: the tables are consistent, what is posted fits, and the numbers are apart: an opened one
-- and a pending one are in the server's table, and none is both.
pub record IsHosted (h : Host) : Type 0 where
  pub registered : IsRegistered h.app
  pub fits : Fits (knows h.app) h.posted h.opened
  pub opened_listed : (a : ℕ) → h.opened a ≡ true → is_some (lookup a h.server.conns) ≡ true
  pub pending_listed : (a : ℕ) → h.pending a ≡ true → is_some (lookup a h.server.conns) ≡ true
  pub apart : (a : ℕ) → h.pending a ≡ true → h.opened a ≡ false

-- The server goes on to accept; `seq` was pending and is opened or dropped.
awaits-IsHosted :
    (h : Host) (acceptor : Endpoint) (s t : TcpServer Connection)
    → s.conns ≡ h.server.conns
    → start_next_connection tcp_ops acceptor s ≡ some t
    → IsHosted h
    → IsHosted (record h { server = t; pending = update h.pending t.next_seq true })
awaits-IsHosted h acceptor s t c e i =
    let k = start_next_connection-Takes acceptor s t e in
    record {
      registered = i.registered;
      fits = i.fits;
      opened_listed = λ a x. ground (arith, k.grown a, c, i.opened_listed a x);
      pending_listed = λ a x. ground (arith, k.grown a, c, i.pending_listed a);
      apart = λ a x. elim (Bool-cases (h.opened a)) [
        | inr o ↦ o
        | inl o ↦ ground (arith, k.fresh, c, i.opened_listed a o, i.apart a)
      ];
    }

dropped-IsHosted :
    (h : Host) (seq : ℕ) → IsHosted h → IsHosted (record h { pending = update h.pending seq false })
dropped-IsHosted h seq i = record {
  registered = i.registered;
  fits = i.fits;
  opened_listed = i.opened_listed;
  pending_listed = λ a x. i.pending_listed a (ground arith);
  apart = λ a x. i.apart a (ground arith);
}

announced-IsHosted :
    (h : Host) (seq : ℕ)
    → h.pending seq ≡ true
    → IsHosted h
    → IsHosted (record h {
      pending = update h.pending seq false;
      opened = update h.opened seq true;
      posted = h.posted ++ agent_connects seq ∷ [];
    })
announced-IsHosted h seq p i = record {
  registered = i.registered;
  fits = Fits-connects (knows h.app) h.posted h.opened seq (i.apart seq p) i.fits;
  opened_listed = λ a x. ground (arith, i.opened_listed a, i.pending_listed seq p);
  pending_listed = λ a x. i.pending_listed a (ground arith);
  apart = λ a x. ground (arith, i.apart a);
}

ended-IsHosted :
    (h : Host) (seq : ℕ) (e : ErrorCode) (t : TcpServer Connection)
    → h.opened seq ≡ true
    → on_conn_disconnect seq e h.server ≡ some t
    → IsHosted h
    → IsHosted (record h {
      server = t;
      opened = update h.opened seq false;
      posted = h.posted ++ agent_disconnects seq ∷ [];
    })
unfolding on_conn_disconnect
ended-IsHosted h seq e t o x i =
    let c : t.conns ≡ erase seq h.server.conns = ground arith in
    record {
      registered = i.registered;
      fits = Fits-disconnects (knows h.app) h.posted h.opened seq i.fits;
      opened_listed =
          λ a y. ground (arith, c, lookup-erase seq a h.server.conns, i.opened_listed a);
      pending_listed = λ a y.
          ground (arith, c, lookup-erase seq a h.server.conns, i.pending_listed a y, i.apart a y);
      apart = λ a y. ground (arith, i.apart a y);
    }

-- The strand runs an admitted event.
run-IsHosted :
    (listens : ℕ → Option Bool) (h : Host) (e : Event) (rest : List Event) (u : App)
    → h.posted ≡ e ∷ rest
    → step listens e h.app ≡ some u
    → IsHosted h
    → Admits e h.app × IsHosted (record h { app = u; posted = rest })
run-IsHosted listens h e rest u p x i =
    let f : Fits (knows h.app) (e ∷ rest) h.opened =
      subst (λ es. Fits (knows h.app) es h.opened) p i.fits in
    let admitted = IsDue-Admits e h.app f.0 in
    (
      admitted,
      record {
        registered =
            Ensures-some IsRegistered (step listens e h.app) x
              (step-IsRegistered listens e h.app admitted i.registered);
        fits =
            Fits-same (knows u) (known_after e (knows h.app)) rest h.opened
              (knows-step listens e h.app u i.registered x) f.1;
        opened_listed = i.opened_listed;
        pending_listed = i.pending_listed;
        apart = i.apart;
      },
    )

accepted-conns :
    (seq : ℕ) (e : ErrorCode) (s : TcpServer Connection) → (accepted seq e s).conns ≡ s.conns
accepted-conns seq none s = refl
accepted-conns seq (some e) s = refl

HostStep-IsHosted :
    {listens : ℕ → Option Bool} {h k : Host} → HostStep listens h k → IsHosted h → IsHosted k
HostStep-IsHosted (begins h acceptor t e) i = awaits-IsHosted h acceptor h.server t refl e i
HostStep-IsHosted (accepts h seq acceptor t p a b e) i =
    let s = accepted seq none h.server in
    let e' = sym (on_accept_lem tcp_ops seq acceptor none h.server a b refl) ∙ e in
    awaits-IsHosted
      (record h {
        pending = update h.pending seq false;
        opened = update h.opened seq true;
        posted = h.posted ++ agent_connects seq ∷ [];
      })
      acceptor s t (accepted-conns seq none h.server) e' (announced-IsHosted h seq p i)
HostStep-IsHosted (fails h seq acceptor x t p a b n e) i =
    let s = accepted seq (some x) h.server in
    let e' = sym (on_accept_lem tcp_ops seq acceptor (some x) h.server a b n) ∙ e in
    awaits-IsHosted (record h { pending = update h.pending seq false }) acceptor s t
      (accepted-conns seq (some x) h.server) e' (dropped-IsHosted h seq i)
HostStep-IsHosted (ends h seq e t o x) i = ended-IsHosted h seq e t o x i
HostStep-IsHosted (posts h e o) i = record {
  registered = i.registered;
  fits = Fits-other (knows h.app) h.posted h.opened e o i.fits;
  opened_listed = i.opened_listed;
  pending_listed = i.pending_listed;
  apart = i.apart;
}
HostStep-IsHosted {listens} (runs h e rest u p x) i = (run-IsHosted listens h e rest u p x i).1

HostReach-IsHosted :
    {listens : ℕ → Option Bool} {h k : Host} → IsHosted h → HostReach listens h k → IsHosted k
HostReach-IsHosted i here = i
HostReach-IsHosted i (next r st) = HostStep-IsHosted st (HostReach-IsHosted i r)

-- A relay that has not begun to accept.
pub record IsIdle (h : Host) : Type 0 where
  pub services : h.app.services ≡ []
  pub agents : h.app.agents ≡ []
  pub pending : (a : ℕ) → h.pending a ≡ false
  pub opened : (a : ℕ) → h.opened a ≡ false
  pub posted : h.posted ≡ []

IsIdle-IsHosted : (h : Host) → IsIdle h → IsHosted h
unfolding lookup
IsIdle-IsHosted h i = record {
  registered = initial h.app i.services;
  fits =
      subst (λ es. Fits (knows h.app) es h.opened) (sym i.posted)
        (λ a. ground (arith, i.agents, i.opened a));
  opened_listed = λ a x. absurd (ground (arith, i.opened a));
  pending_listed = λ a x. absurd (ground (arith, i.pending a));
  apart = λ a x. i.opened a;
}

-- The server of the agents and the application together: whatever connections come, fail and end, in
-- whatever order with all other events, and however late the strand runs what was posted, each event
-- that it runs is admitted (an announced agent's number is never one that the application still
-- knows, also once the 32-bit numbers have wrapped), and the tables of the relay stay consistent.
pub HostReach-Admits :
    {listens : ℕ → Option Bool} {h k : Host} (e : Event) (rest : List Event)
    → IsIdle h
    → HostReach listens h k
    → k.posted ≡ e ∷ rest
    → Admits e k.app × IsRegistered k.app
HostReach-Admits {listens} {h} {k} e rest i r p =
    let j = HostReach-IsHosted (IsIdle-IsHosted h i) r in
    (IsDue-Admits e k.app (subst (λ es. Fits (knows k.app) es k.opened) p j.fits).0, j.registered)

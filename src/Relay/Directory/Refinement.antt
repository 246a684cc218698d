-- ===== src/Relay/Directory/Refinement.antt =====
-- The handlers of r-nat-s/app1 as changes of a directory of agents and ports.
use mathlib.Core.Option.{some_inj}
use r_nat.Common.{
  ℕ, suc, ◌≡◌, refl, sym, ap, subst, ◌∙◌, inl, inr, Option, none, some, Bool, true, false, ◌==◌,
  length, arith, nat_key, lookup, Option-cases, ◌>>=◌,
}
use r_nat.Protocol.{A2r, parse_a2r}
use r_nat.Relay.State.{
  App, AgentInfo, Sent, tunnel_sent, user_sent, service_start, emit, set_service,
}
use r_nat.Relay.Tunnel.{on_bind, bind_started, new_service, on_unbind, on_agent_recv, dispatch}
use r_nat.Relay.Step.{
  Event, agent_connects, agent_disconnects, agent_sends, user_connects, user_disconnects,
  user_sends, completes, on_sent, step,
}
use r_nat.Relay.Registry.{emit-Keeps}
use r_nat.Relay.Registry.Handlers.{
  on_agent_data-Keeps, on_tunnel_sent-Keeps, on_agent_hangs_up-Keeps, on_session-Keeps,
  on_user_connect-Keeps, on_user_disconnect-Keeps, on_user_recv-Keeps, on_user_sent-Keeps,
}
use r_nat.Relay.Registry.Invariant.{
  IsRegistered, Keeps-IsRegistered, Runs, here, next, Runs-IsRegistered,
}
use r_nat.Relay.Directory.{
  Directory, Matches, Agrees, providers_of, offer, withdraw, follow, advance, open_port,
}
use r_nat.Relay.Directory.Leaving.{on_unbind-providers_of}
use r_nat.Relay.Directory.Changes.{
  Keeps-Matches, on_agent_connect-Matches, stranger_unbinds, on_agent_disconnect-Matches,
  join-Matches, found-Matches, spare-Matches,
}

started-Agrees :
    (o : Option Bool) (seq p : ℕ) (agent : AgentInfo) (s : App) (d : Directory)
    → lookup seq s.agents ≡ some agent
    → lookup p s.services ≡ none
    → IsRegistered s
    → Matches s d
    → Agrees
        (bind_started o seq agent p s.next_ref (
          emit
            (service_start s.next_ref p)
            (set_service s.next_ref (new_service p seq) (record s { next_ref = suc s.next_ref }))))
        (open_port o seq p d)
started-Agrees none seq p agent s d e f h m = tt
started-Agrees (some false) seq p agent s d e f h m =
    Keeps-Matches (emit-Keeps _ _) (Keeps-Matches (emit-Keeps _ _) (spare-Matches seq p s d h m))
started-Agrees (some true) seq p agent s d e f h m =
    let s1 = emit (service_start s.next_ref p) s in
    Keeps-Matches (emit-Keeps _ _) (
      found-Matches seq p agent s1 d e f (Keeps-IsRegistered (emit-Keeps _ s) h)
        (Keeps-Matches (emit-Keeps _ s) m))

on_bind-Agrees :
    (listens : ℕ → Option Bool) (seq p : ℕ) (s : App) (d : Directory)
    → IsRegistered s
    → Matches s d
    → Agrees (on_bind listens seq p s) (offer listens seq p d)
unfolding on_bind
on_bind-Agrees listens seq p s d h m = elim (Option-cases (lookup seq s.agents)) [
  | inl e ↦
      let c : d.connected seq ≡ false = sym (m.connected seq) ∙ ground (arith, e) in
      rw (e, on_bind) (rw (c, offer) m)
  | inr (agent, e) ↦
      let c : d.connected seq ≡ true = sym (m.connected seq) ∙ ground (arith, e) in
      elim (Option-cases (lookup p s.services)) [
        | inl f ↦
            let n : (length (d.providers p) == 0) ≡ true =
              ap (λ m. length m == 0) (sym (m.providers p))
              ∙ (unfold providers_of in ground (arith, f)) in
            rw (e, f, on_bind)
              (rw (c, n, offer) (started-Agrees (listens p) seq p agent s d e f h m))
        | inr (r, f) ↦
            let n : (length (d.providers p) == 0) ≡ false =
              ap (λ m. length m == 0) (sym (m.providers p))
              ∙ (unfold providers_of in ground (arith, f, h.served p r f)) in
            rw (e, f, on_bind)
              (rw (c, n, offer)
                (Keeps-Matches (emit-Keeps _ _) (join-Matches seq p r agent s d e f h m)))
      ]
]

on_unbind-Matches :
    (seq p : ℕ) (s : App) (d : Directory)
    → IsRegistered s
    → Matches s d
    → Matches (on_unbind seq p s) (withdraw seq p d)
on_unbind-Matches seq p s d h m = elim (Option-cases (lookup seq s.agents)) [
  | inl e ↦
      let c : d.connected seq ≡ false = sym (m.connected seq) ∙ ground (arith, e) in
      rw (c, withdraw) (subst (λ t. Matches t d) (sym (stranger_unbinds seq p s e)) m)
  | inr (agent, e) ↦
      let c : d.connected seq ≡ true = sym (m.connected seq) ∙ ground (arith, e) in
      rw (c, withdraw)
        (record {
          connected = λ a. (on_unbind-providers_of seq p a agent s e h).1 ∙ m.connected a;
          providers = λ q.
              ground (
                arith,
                (on_unbind-providers_of seq p q agent s e h).0,
                m.providers p,
                m.providers q,
              );
        })
]

dispatch-Agrees :
    (listens : ℕ → Option Bool) (seq : ℕ) (o : Option A2r) (s : App) (d : Directory)
    → IsRegistered s
    → Matches s d
    → Agrees (dispatch listens seq o s) (follow listens seq o d)
dispatch-Agrees listens seq none s d h m = m
dispatch-Agrees listens seq (some (A2r.bind port)) s d h m = on_bind-Agrees listens seq port s d h m
dispatch-Agrees listens seq (some (A2r.unbind port)) s d h m = on_unbind-Matches seq port s d h m
dispatch-Agrees listens seq (some (A2r.carry port id pkt)) s d h m =
    Keeps-Matches (on_agent_data-Keeps seq port id pkt s) m
dispatch-Agrees listens seq (some (A2r.disconnect port id)) s d h m =
    Keeps-Matches (on_agent_hangs_up-Keeps port id s) m
dispatch-Agrees listens seq (some (A2r.session port id)) s d h m =
    Keeps-Matches (on_session-Keeps seq port id s) m

on_sent-Matches : (sent : Sent) (s : App) (d : Directory) → Matches s d → Matches (on_sent sent s) d
unfolding on_sent
on_sent-Matches (tunnel_sent service session seq limit) s d m =
    Keeps-Matches (on_tunnel_sent-Keeps service session seq limit s) m
on_sent-Matches (user_sent service session seq limit) s d m =
    Keeps-Matches (on_user_sent-Keeps service session seq limit s) m

-- The relay implements a directory of agents and ports: in a consistent state, every event changes
-- which agents are connected and which of them serve a port exactly as the directory says, with the
-- same answer of the network to a BIND, and throws exactly where the directory has no next state.
pub step-Agrees :
    (listens : ℕ → Option Bool) (e : Event) (s : App) (d : Directory)
    → IsRegistered s
    → Matches s d
    → Agrees (step listens e s) (advance listens e d)
unfolding step on_agent_recv
step-Agrees listens (agent_connects seq) s d h m = on_agent_connect-Matches seq s d m
step-Agrees listens (agent_disconnects seq) s d h m = on_agent_disconnect-Matches seq s d h m
step-Agrees listens (agent_sends seq buf) s d h m =
    dispatch-Agrees listens seq (parse_a2r buf) s d h m
step-Agrees listens (user_connects service seq ip port) s d h m =
    Keeps-Matches (on_user_connect-Keeps service seq ip port s) m
step-Agrees listens (user_disconnects service seq) s d h m =
    Keeps-Matches (on_user_disconnect-Keeps service seq s) m
step-Agrees listens (user_sends service seq buf) s d h m =
    Keeps-Matches (on_user_recv-Keeps service seq buf s) m
step-Agrees listens (completes sent) s d h m = on_sent-Matches sent s d m

-- The directory after the events of a history.
unfoldable pub directory_after :
    {listens : ℕ → Option Bool} {s t : App} → Runs listens s t → Directory → Option Directory
directory_after here d = some d
directory_after {listens} (next r e a x) d = directory_after r d >>= advance listens e

pub Agrees-some :
    (os : Option App) (od : Option Directory) (t : App)
    → os ≡ some t
    → Agrees os od
    → (d : Directory) × (od ≡ some d) × Matches t d
Agrees-some none od t e g = absurd (cc)
Agrees-some (some s) none t e g = absurd g
Agrees-some (some s) (some d) t e g = (d, refl, subst (λ u. Matches u d) (some_inj.0 e) g)

-- After every history of admitted events that starts in a consistent state, the relay's tables say
-- what the directory says after the same events.
pub Runs-Matches :
    {listens : ℕ → Option Bool} {s t : App} (d : Directory)
    → IsRegistered s
    → Matches s d
    → (r : Runs listens s t) → (d' : Directory) × (directory_after r d ≡ some d') × Matches t d'
unfolding directory_after
Runs-Matches d h m here = (d, refl, m)
Runs-Matches {listens} d h m (next {t} {u} r e a x) =
    let (d1, p, m1) = Runs-Matches d h m r in
    let (d2, q, m2) =
      Agrees-some (step listens e t) (advance listens e d1) u x
        (step-Agrees listens e t d1 (Runs-IsRegistered h r) m1) in
    (d2, ap (λ o. o >>= advance listens e) p ∙ q, m2)

-- ===== src/Link/Stream/Relaying.antt =====
-- The relay's part in Link/Stream: what its handlers give the connection of the agent.
use r_nat.Common.{
  ℕ, ◌<◌, ◌≡◌, refl, sym, ap, subst, ◌∙◌, inl, inr, some, List, [], ◌∷◌, ◌++◌, true, false,
  append-nil, arith, nat_key, lookup, is_some, Option-cases,
}
use r_nat.Protocol.{Bytes, R2a, put_r2a}
use r_nat.Connection.{concat}
use r_nat.Relay.State.{
  App, Effect, Sent, tunnel_sent, user_sent, clean_session, emit, service_send, agent_send_v,
}
use r_nat.Relay.Tunnel.{on_agent_data, cork_tunnel, uncork_tunnel, on_tunnel_sent}
use r_nat.Relay.User.{on_user_recv, cork_user, uncork_user, on_user_sent}
use r_nat.Relay.Step.{on_sent}
use r_nat.Relay.Ending.{agent_there}
use r_nat.Relay.Sessions.{session_of}
use r_nat.Link.{joined_r2a}
use r_nat.Link.Stream.{packets_to}

-- The service has one agent, which is known; its sessions are assigned to that agent; and no agent
-- has said that a session's service is gone.
pub record IsRelaying (service port k : ℕ) (r : App) : Type 0 where
  pub alone : (r.service_at service).agents ≡ (k, tt) ∷ []
  pub serves : (r.service_at service).port ≡ port
  pub known : is_some (lookup k r.agents) ≡ true
  pub fresh : (seq x : ℕ) → session_of r service seq ≡ some x → x < r.next_ref
  pub assigned : (seq x : ℕ) → session_of r service seq ≡ some x → (r.session_at x).agent_id ≡ k
  pub up : (x : ℕ) → (r.session_at x).tunnel_disconnected ≡ false

-- The relay goes on so, with these packets more and the same tables.
pub record Relays (service port k : ℕ) (packets : List Bytes) (r t : App) : Type 0 where
  pub relaying : IsRelaying service port k t
  pub given : packets_to k t.effects ≡ packets_to k r.effects ++ packets
  pub same : (seq : ℕ) → session_of t service seq ≡ session_of r service seq

-- What the counters and flags of flow control leave alone.
pub record Alike (k : ℕ) (r t : App) : Type 0 where
  pub services : t.service_at ≡ r.service_at
  pub agents : t.agents ≡ r.agents
  pub next_ref : t.next_ref ≡ r.next_ref
  pub assigned : (x : ℕ) → (t.session_at x).agent_id ≡ (r.session_at x).agent_id
  pub up : (x : ℕ) → (t.session_at x).tunnel_disconnected ≡ (r.session_at x).tunnel_disconnected
  pub given : packets_to k t.effects ≡ packets_to k r.effects

module _ (k limit x : ℕ) (r : App) where
  cork_tunnel-Alike : (a : ℕ) → Alike k r (cork_tunnel limit a x r)
  unfolding cork_tunnel packets_to
  cork_tunnel-Alike a = record {
    services = ground arith;
    agents = ground arith;
    next_ref = ground arith;
    assigned = λ y. ground arith;
    up = λ y. ground arith;
    given = ground arith;
  }

  uncork_tunnel-Alike : (a : ℕ) → Alike k r (uncork_tunnel limit a x r)
  unfolding uncork_tunnel packets_to
  uncork_tunnel-Alike a = record {
    services = ground arith;
    agents = ground arith;
    next_ref = ground arith;
    assigned = λ y. ground arith;
    up = λ y. ground arith;
    given = ground arith;
  }

  cork_user-Alike : (s seq : ℕ) → Alike k r (cork_user limit s seq x r)
  unfolding cork_user packets_to
  cork_user-Alike s seq = record {
    services = ground arith;
    agents = ground arith;
    next_ref = ground arith;
    assigned = λ y. ground arith;
    up = λ y. ground arith;
    given = ground arith;
  }

  uncork_user-Alike : (s seq : ℕ) → Alike k r (uncork_user limit s seq x r)
  unfolding uncork_user packets_to
  uncork_user-Alike s seq = record {
    services = ground arith;
    agents = ground arith;
    next_ref = ground arith;
    assigned = λ y. ground arith;
    up = λ y. ground arith;
    given = ground arith;
  }

-- What SendV gives the agent's own connection.
to_agent :
    (k a : ℕ) (es : List Effect) (parts : List Bytes) (pfn : Sent) (ps : List Bytes)
    → a ≡ k
    → packets_to k es ≡ ps
    → packets_to k (agent_send_v a parts pfn ∷ es) ≡ ps ++ concat parts ∷ []
unfolding packets_to
to_agent k a es parts pfn ps e f = ground (arith, e, f)

module _ (service port k : ℕ) where
  pub Alike-Relays :
      {r t : App} → Alike k r t → IsRelaying service port k r → Relays service port k [] r t
  Alike-Relays {r} {t} a i =
      let same : (seq : ℕ) → session_of t service seq ≡ session_of r service seq =
        λ seq. ap (λ f. lookup seq (f service).sessions) a.services in
      record {
        relaying = record {
          alone = ap (λ f. (f service).agents) a.services ∙ i.alone;
          serves = ap (λ f. (f service).port) a.services ∙ i.serves;
          known = ap (λ m. is_some (lookup k m)) a.agents ∙ i.known;
          fresh = λ seq x e. ground (arith, a.next_ref, i.fresh seq x (sym (same seq) ∙ e));
          assigned = λ seq x e. a.assigned x ∙ i.assigned seq x (sym (same seq) ∙ e);
          up = λ x. a.up x ∙ i.up x;
        };
        given = a.given ∙ sym (append-nil _);
        same = same;
      }

  pub emit-IsRelaying :
      (e : Effect) (r : App) → IsRelaying service port k r → IsRelaying service port k (emit e r)
  emit-IsRelaying e r i = record {
    alone = i.alone;
    serves = i.serves;
    known = i.known;
    fresh = i.fresh;
    assigned = i.assigned;
    up = i.up;
  }

  pub Relays-refl : (r : App) → IsRelaying service port k r → Relays service port k [] r r
  Relays-refl r i = record { relaying = i; given = sym (append-nil _); same = λ seq. refl }

  -- A state like it, cleaned.
  cleaned-Relays :
      (s x : ℕ) {r t : App}
      → Alike k r t
      → IsRelaying service port k r
      → Relays service port k [] r (clean_session s x t)
  cleaned-Relays s x {r} {t} a i =
      subst (λ u. Relays service port k [] r u) (sym (agent_there s x t (a.up x ∙ i.up x)))
        (Alike-Relays a i)

  pub on_sent-Relays :
      (pfn : Sent) (r : App)
      → IsRelaying service port k r
      → Relays service port k [] r (on_sent pfn r)
  unfolding on_sent on_tunnel_sent on_user_sent
  on_sent-Relays (tunnel_sent s x a limit) r i =
      cleaned-Relays s x (uncork_tunnel-Alike k limit x r a) i
  on_sent-Relays (user_sent s x seq limit) r i =
      cleaned-Relays s x (uncork_user-Alike k limit x r s seq) i

  with_back :
      (s id : ℕ) (buf : Bytes) (pfn : Sent) (r t : App)
      → Alike k r t
      → Alike k r (emit (service_send s id buf pfn) t)
  unfolding packets_to
  with_back s id buf pfn r t a = record {
    services = a.services;
    agents = a.agents;
    next_ref = a.next_ref;
    assigned = a.assigned;
    up = a.up;
    given = a.given;
  }

  pub on_agent_data-Relays :
      (a p id : ℕ) (buf : Bytes) (r : App)
      → IsRelaying service port k r
      → Relays service port k [] r (on_agent_data a p id buf r)
  unfolding on_agent_data
  on_agent_data-Relays a p id buf r i = elim (Option-cases (lookup a r.agents)) [
    | inl e ↦ rw (e, on_agent_data) (Relays-refl r i)
    | inr (agent, e) ↦ elim (Option-cases (lookup p r.services)) [
      | inl f ↦ rw (e, f, on_agent_data) (Relays-refl r i)
      | inr (s, f) ↦ elim (Option-cases (lookup id (r.service_at s).sessions)) [
        | inl g ↦ rw (e, f, g, on_agent_data) (Relays-refl r i)
        | inr (x, g) ↦
            rw (e, f, g, on_agent_data)
              (Alike-Relays (with_back s id buf _ r _ (cork_tunnel-Alike k r.queue_limit x r a)) i)
      ]
    ]
  ]

  -- The bytes of a user with a session.
  pub on_user_recv-Relays :
      (seq x : ℕ) (buf : Bytes) (r : App)
      → IsRelaying service port k r
      → session_of r service seq ≡ some x
      → Relays service port k
          (put_r2a (R2a.carry port seq buf) ∷ [])
          r
          (on_user_recv service seq buf r)
  unfolding on_user_recv
  on_user_recv-Relays seq x buf r i e =
      let corked = Alike-Relays (cork_user-Alike k r.queue_limit x r service seq) i in
      let to = i.assigned seq x e in
      rw (e, on_user_recv)
        (record {
          relaying = emit-IsRelaying _ _ corked.relaying;
          given =
              to_agent k (r.session_at x).agent_id _ _ (user_sent service x seq r.queue_limit) _ to
                (cork_user-Alike k r.queue_limit x r service seq).given
              ∙ ap (λ bs. packets_to k r.effects ++ bs ∷ [])
                  (joined_r2a (r.service_at service).port seq buf
                    ∙ ap (λ p. put_r2a (R2a.carry p seq buf)) i.serves);
          same = corked.same;
        })

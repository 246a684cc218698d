-- ===== src/Link/Stream/Users.antt =====
-- The relay's part in Link/Stream: a user comes, and a user goes.
use r_nat.Common.{
  ℕ, ◌%◌, ◌≡◌, refl, sym, ap, subst, ◌⊎◌, inl, inr, some, List, [], ◌∷◌, ◌++◌, Bool, true, false,
  append-nil, arith, if◌then◌else◌, ◌==◌, nat_key, lookup, lookup-insert, insert, Option-cases,
  length,
}
use r_nat.Protocol.{Bytes, R2a, put_r2a}
use r_nat.Relay.State.{App, AgentInfo, emit, agent_send, set_session}
use r_nat.Relay.User.{on_user_connect, assign, on_user_disconnect, mark_user_gone, cli_index}
use r_nat.Relay.Ending.{agent_there}
use r_nat.Relay.Sessions.{session_of}
use r_nat.Relay.Assignment.{on_user_connect_lem}
use r_nat.Link.Stream.{packets_to}
use r_nat.Link.Stream.Relaying.{
  IsRelaying, Relays, Alike, Alike-Relays, Relays-refl, emit-IsRelaying,
}

-- The relay goes on with one session more.
pub record Comes (service port k seq ip p : ℕ) (r t : App) : Type 0 where
  pub relaying : IsRelaying service port k t
  pub given :
      packets_to k t.effects ≡ packets_to k r.effects ++ put_r2a (R2a.connect port seq ip p) ∷ []
  pub now :
      (n : ℕ)
      → session_of t service n ≡ (if seq == n then some r.next_ref else session_of r service n)

-- The packets of a user's end.
abbrev pub IsEnd : (port seq : ℕ) → List Bytes → Type 0
IsEnd port seq ps = (ps ≡ []) ⊎ (ps ≡ put_r2a (R2a.disconnect port seq) ∷ [])

marked-Alike :
    (k x : ℕ) (r : App)
    → Alike k r (set_session x (record (r.session_at x) { user_disconnected = true }) r)
marked-Alike k x r = record {
  services = refl;
  agents = refl;
  next_ref = refl;
  assigned = λ y. ground arith;
  up = λ y. ground arith;
  given = refl;
}

module _ (service port k : ℕ) where
  -- With the notice to the agent, unless its connection is down.
  noticed :
      (b : Bool) (seq a p : ℕ) (r t : App)
      → a ≡ k
      → p ≡ port
      → Relays service port k [] r t
      → (ps : List Bytes) × IsEnd port seq ps
        × Relays service port k ps r
            (if b then t else emit (agent_send a (put_r2a (R2a.disconnect p seq))) t)
  unfolding packets_to
  noticed true seq a p r t e f i = ([], inl refl, i)
  noticed false seq a p r t e f i = (
    put_r2a (R2a.disconnect port seq) ∷ [],
    inr refl,
    record {
      relaying = emit-IsRelaying service port k _ _ i.relaying;
      given = ground (arith, e, f, i.given, append-nil (packets_to k r.effects));
      same = i.same;
    },
  )

  mark_user_gone-Relays :
      (seq x : ℕ) (r : App)
      → IsRelaying service port k r
      → session_of r service seq ≡ some x
      → (ps : List Bytes) × IsEnd port seq ps
        × Relays service port k ps r (mark_user_gone service seq x r)
  unfolding mark_user_gone
  mark_user_gone-Relays seq x r i e =
      noticed (r.session_at x).tunnel_hard_disconnected seq _ _ r _ (i.assigned seq x e) i.serves
        (Alike-Relays service port k (marked-Alike k x r) i)

  pub on_user_disconnect-Relays :
      (seq : ℕ) (r : App)
      → IsRelaying service port k r
      → (ps : List Bytes) × IsEnd port seq ps
        × Relays service port k ps r (on_user_disconnect service seq r)
  unfolding on_user_disconnect
  on_user_disconnect-Relays seq r i =
      elim (Option-cases (lookup seq (r.service_at service).sessions)) [
        | inl e ↦ rw (e, on_user_disconnect) ([], inl refl, Relays-refl service port k r i)
        | inr (x, e) ↦
            let (ps, end, gone) = mark_user_gone-Relays seq x r i e in
            rw (e, on_user_disconnect)
              (
                ps,
                end,
                subst (λ u. Relays service port k ps r u)
                    (sym (agent_there service x _ (gone.relaying.up x))) gone,
              )
      ]

  on_user_connect-assign :
      (seq ip p : ℕ) (r : App)
      → IsRelaying service port k r
      → (agent : AgentInfo) × (on_user_connect service seq ip p r
          ≡ assign service seq ip p k agent r)
  on_user_connect-assign seq ip p r i = elim (Option-cases (lookup k r.agents)) [
    | inl e ↦ absurd (cc (e, i.known))
    | inr (agent, e) ↦
        let first : cli_index r.char_is_signed r.load_policy seq ip % 1 ≡ 0 = omega arith in
        (
          agent,
          on_user_connect_lem r service seq ip p k agent (ap (λ xs. length xs == 0) i.alone)
              (rw (i.alone, first) refl) e,
        )
  ]

  assign-packets :
      (seq ip p : ℕ) (agent : AgentInfo) (r : App)
      → IsRelaying service port k r
      → packets_to k (assign service seq ip p k agent r).effects
        ≡ packets_to k r.effects ++ put_r2a (R2a.connect port seq ip p) ∷ []
  unfolding assign packets_to
  assign-packets seq ip p agent r i = ground (arith, i.serves)

  assign-session_of :
      (seq ip p : ℕ) (agent : AgentInfo) (r : App) (n : ℕ)
      → session_of (assign service seq ip p k agent r) service n
        ≡ (if seq == n then some r.next_ref else session_of r service n)
  unfolding assign
  assign-session_of seq ip p agent r n =
      ground (arith, lookup-insert seq n r.next_ref (r.service_at service).sessions)

  came :
      (seq ip p : ℕ) (agent : AgentInfo) (r : App) (n x : ℕ)
      → session_of (assign service seq ip p k agent r) service n ≡ some x
      → (x ≡ r.next_ref) ⊎ (session_of r service n ≡ some x)
  came seq ip p agent r n x e = ground (arith, e, assign-session_of seq ip p agent r n)

  assigned-IsRelaying :
      (seq ip p : ℕ) (agent : AgentInfo) (r : App)
      → IsRelaying service port k r
      → IsRelaying service port k (assign service seq ip p k agent r)
  unfolding assign
  assigned-IsRelaying seq ip p agent r i = record {
    alone = ground (arith, i.alone);
    serves = ground (arith, i.serves);
    known = ground (
      arith,
      lookup-insert k k (record agent { sessions = insert seq r.next_ref agent.sessions }) r.agents,
    );
    fresh = λ n x e. elim (came seq ip p agent r n x e) [
      | inl f ↦ ground (arith, f)
      | inr f ↦ ground (arith, i.fresh n x f)
    ];
    assigned = λ n x e. elim (came seq ip p agent r n x e) [
      | inl f ↦ ground (arith, f)
      | inr f ↦ ground (arith, i.fresh n x f, i.assigned n x f)
    ];
    up = λ x. ground (arith, i.up x);
  }

  -- A user gets the next session, and the agent gets CONNECT.
  pub on_user_connect-Comes :
      (seq ip p : ℕ) (r : App)
      → IsRelaying service port k r
      → Comes service port k seq ip p r (on_user_connect service seq ip p r)
  on_user_connect-Comes seq ip p r i =
      let (agent, e) = on_user_connect-assign seq ip p r i in
      subst (λ t. Comes service port k seq ip p r t) (sym e)
        (record {
          relaying = assigned-IsRelaying seq ip p agent r i;
          given = assign-packets seq ip p agent r i;
          now = assign-session_of seq ip p agent r;
        })

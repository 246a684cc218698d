-- ===== src/Link/Stream/Connecting.antt =====
-- The agent's part in Link/Stream: CONNECT, and every packet of the relay.
use r_nat.Common.{
  ℕ, ◌%◌, ◌≡◌, ◌≢◌, refl, sym, ap, subst, ◌∙◌, ◌⊎◌, inl, inr, Option, none, some, Bool, true, false,
  arith, if◌then◌else◌, ◌==◌, nat_key, lookup, lookup-insert, Option-cases, Bool-cases, length,
  get_elem?-lt,
}
use r_nat.Protocol.{Bytes, R2a, parse_r2a}
use r_nat.Agent.State.{App, User, user_key, Endpoint, same_user, same_user_iff}
use r_nat.Agent.Tunnel.{on_connect, open_session, on_notice, on_server_recv}
use r_nat.Relay.User.{cli_index}
use r_nat.Agent.Sessions.{session_of}
use r_nat.Agent.Isolation.Users.{open_session-IsSeparate}
use r_nat.Link.Stream.{to_service}
use r_nat.Link.Stream.View.{opened, taken}
use r_nat.Link.Stream.Receiving.{bytes_of, same_bytes, view, IsReceiving, Receives}
use r_nat.Link.Stream.Taking.{IsKept, on_relay_hangs_up-IsKept, on_relay_data-Receives}

module _ (remote port : ℕ) where
  -- The entry of a new session.
  opened_entry :
      (usr other : User) (ep : Endpoint) (a : App)
      → session_of (open_session remote usr ep a) remote other
        ≡ (if same_user usr other then some a.next_ref else session_of a remote other)
  unfolding open_session
  opened_entry usr other ep a =
      ground (arith, lookup-insert usr other a.next_ref (a.remote_at remote).users)

  opened_bytes :
      (usr : User) (ep : Endpoint) (a : App) (o : Option ℕ)
      → bytes_of o (open_session remote usr ep a).effects ≡ bytes_of o a.effects
  unfolding open_session to_service
  opened_bytes usr ep a o = same_bytes _ _ o (λ x. refl)

  -- CONNECT for the user `usr`, seen by the user `other`.
  opens_entry :
      (b : Bool) (usr other : User) (a : App)
      → IsReceiving remote port a
      → session_of a remote usr ≡ none
      → (b ≡ true → usr ≡ other)
      → bytes_of (if b then some a.next_ref else session_of a remote other) a.effects
        ≡ (if b then opened (view remote other a) else view remote other a)
  opens_entry false usr other a i e h = refl
  opens_entry true usr other a i e h =
      subst (λ u. bytes_of (some a.next_ref) a.effects ≡ opened (view remote u a)) (h refl)
        (rw e (ap some (i.unused a.next_ref (omega arith))))

  opens_view :
      (usr other : User) (ep : Endpoint) (a : App)
      → IsReceiving remote port a
      → session_of a remote usr ≡ none
      → view remote other (open_session remote usr ep a)
        ≡ (if same_user usr other then opened (view remote other a) else view remote other a)
  opens_view usr other ep a i e =
      ap (λ o. bytes_of o (open_session remote usr ep a).effects) (opened_entry usr other ep a)
      ∙ opened_bytes usr ep a _
      ∙ opens_entry (same_user usr other) usr other a i e (same_user_iff usr other).0

  open_session-IsReceiving :
      (usr : User) (ep : Endpoint) (a : App)
      → IsReceiving remote port a
      → IsReceiving remote port (open_session remote usr ep a)
  unfolding open_session to_service
  open_session-IsReceiving usr ep a i = record {
    separate = open_session-IsSeparate remote usr ep a i.separate;
    unused = λ x h. i.unused x (omega (arith, h));
    eps = i.eps;
    served = i.served;
    some_eps = i.some_eps;
    up = λ x. ground (arith, i.up x);
  }

  -- CONNECT for another user, or for one that has a session.
  again_view :
      (b : Bool) (usr other : User) (a : App)
      → (b ≡ true → view remote other a ≡ opened (view remote other a))
      → view remote other a ≡ (if b then opened (view remote other a) else view remote other a)
  again_view false usr other a h = refl
  again_view true usr other a h = h refl

  has_view :
      (usr other : User) (x : ℕ) (a : App)
      → session_of a remote usr ≡ some x
      → usr ≡ other
      → view remote other a ≡ opened (view remote other a)
  has_view usr other x a e h = subst (λ u. view remote u a ≡ opened (view remote u a)) h (rw e refl)

  opens_or_stays :
      (p id ip : ℕ) (a : App)
      → IsReceiving remote port a
      → session_of a remote (p, id) ≡ none
      → ((ep : Endpoint) × (on_connect remote p id ip a ≡ open_session remote (p, id) ep a))
        ⊎ ((on_connect remote p id ip a ≡ a) × (p ≢ port))
  unfolding on_connect
  opens_or_stays p id ip a i e = elim (Option-cases (lookup p a.service_ep)) [
    | inl f ↦ inr (rw (e, f, on_connect) refl, λ g. absurd (cc (f, g, i.served)))
    | inr (eps, f) ↦ elim (Bool-cases (length eps == 0)) [
      | inl n ↦
          inr (rw (e, f, on_connect) (rw n refl), λ g. absurd (cc (f, g, i.served, n, i.some_eps)))
      | inr n ↦
          let index = cli_index a.char_is_signed a.load_policy id ip % length eps in
          let (ep, at) = get_elem?-lt eps index (ground (arith, n)) in
          inl (ep, rw (e, f, on_connect) (rw (n, at) refl))
    ]
  ]

  on_connect-Receives :
      (p id ip q : ℕ) (a : App)
      → IsReceiving remote port a
      → Receives remote port (some (R2a.connect p id ip q)) a (on_connect remote p id ip a)
  unfolding on_connect
  on_connect-Receives p id ip q a i = elim (Option-cases (session_of a remote (p, id))) [
    | inr (x, e) ↦
        rw (e, on_connect)
          (record {
            receiving = i;
            views = λ seq.
                again_view (same_user (p, id) (port, seq)) (p, id) (port, seq) a
                  (λ h.
                    has_view (p, id) (port, seq) x a e ((same_user_iff (p, id) (port, seq)).0 h));
          })
    | inl e ↦ elim (opens_or_stays p id ip a i e) [
      | inl (ep, f) ↦
          subst (λ t. Receives remote port (some (R2a.connect p id ip q)) a t) (sym f)
            (record {
              receiving = open_session-IsReceiving (p, id) ep a i;
              views = λ seq. opens_view (p, id) (port, seq) ep a i e;
            })
      | inr (f, h) ↦
          subst (λ t. Receives remote port (some (R2a.connect p id ip q)) a t) (sym f)
            (record {
              receiving = i;
              views = λ seq.
                  again_view (same_user (p, id) (port, seq)) (p, id) (port, seq) a
                    (λ g. absurd (h (ground (arith, g))));
            })
    ]
  ]

  ignored-Receives :
      (o : Option R2a) {a t : App}
      → IsKept remote port a t
      → ((seq : ℕ) → taken port seq o (view remote (port, seq) a) ≡ view remote (port, seq) a)
      → Receives remote port o a t
  ignored-Receives o i h = record {
    receiving = i.receiving;
    views = λ seq. i.views seq ∙ sym (h seq);
  }

  on_notice-Receives :
      (o : Option R2a) (a : App)
      → IsReceiving remote port a
      → Receives remote port o a (on_notice o remote a)
  on_notice-Receives none a i = record { receiving = i; views = λ seq. refl }
  on_notice-Receives (some (R2a.bind p e)) a i = record { receiving = i; views = λ seq. refl }
  on_notice-Receives (some (R2a.unbind p e)) a i = record { receiving = i; views = λ seq. refl }
  on_notice-Receives (some (R2a.carry p id buf)) a i =
      on_relay_data-Receives remote port p id buf a i
  on_notice-Receives (some (R2a.connect p id ip q)) a i = on_connect-Receives p id ip q a i
  on_notice-Receives (some (R2a.disconnect p id)) a i =
      ignored-Receives _ (on_relay_hangs_up-IsKept remote port (p, id) a i) (λ seq. refl)

  -- Whatever the relay sends.
  pub on_server_recv-Receives :
      (packet : Bytes) (a : App)
      → IsReceiving remote port a
      → Receives remote port (parse_r2a packet) a (on_server_recv remote packet a)
  unfolding on_server_recv
  on_server_recv-Receives packet a i = on_notice-Receives (parse_r2a packet) a i

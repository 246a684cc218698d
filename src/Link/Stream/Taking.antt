-- ===== src/Link/Stream/Taking.antt =====
-- The agent's part in Link/Stream: DATA and DISCONNECT, what the services send, and completions.
use r_nat.Common.{
  ℕ, ◌<◌, ◌≡◌, ◌≢◌, ◌↔◌, refl, sym, ap, subst, ◌∙◌, inl, inr, Option, none, some, List, ◌∷◌, Bool,
  true, false, arith, if◌then◌else◌, ◌==◌, nat_key, Option-cases, Bool-cases,
}
use r_nat.Protocol.{Bytes, R2a}
use r_nat.Agent.State.{
  App, User, user_key, Effect, Sent, tunnel_sent, user_sent, user_conn, send, send_v, clean_session,
  emit, same_user, same_user_iff,
}
use r_nat.Agent.Tunnel.{on_relay_data, on_relay_hangs_up, on_tunnel_sent}
use r_nat.Agent.User.{on_user_recv, on_user_sent, way_back}
use r_nat.Agent.Step.{on_sent}
use r_nat.Agent.Sessions.{session_of}
use r_nat.Agent.Isolation.Tables.{Narrows-IsSeparate, IsSame-Narrows}
use r_nat.Link.Stream.{to_service}
use r_nat.Link.Stream.View.{grown}
use r_nat.Link.Stream.Receiving.{
  bytes_of, same_bytes, view, IsReceiving, Receives, Alike, Alike-IsReceiving, Alike-view,
  cork_tunnel-Alike, uncork_tunnel-Alike, cork_user-Alike, uncork_user-Alike, marked-Alike,
  cleaned-up,
}

-- The agent goes on with the same tables, and the services have got no more.
pub record IsKept (remote port : ℕ) (a t : App) : Type 0 where
  pub receiving : IsReceiving remote port t
  pub views : (seq : ℕ) → view remote (port, seq) t ≡ view remote (port, seq) a

module _ (remote port : ℕ) where
  Alike-IsKept : {a t : App} → Alike a t → IsReceiving remote port a → IsKept remote port a t
  Alike-IsKept e i = record {
    receiving = Alike-IsReceiving remote port e i;
    views = λ seq. Alike-view remote port e (port, seq);
  }

  cleaned-IsKept :
      (r x : ℕ) (usr : User) {a t : App}
      → Alike a t
      → IsReceiving remote port a
      → IsKept remote port a (clean_session r x usr t)
  cleaned-IsKept r x usr {a} {t} e i =
      subst (λ u. IsKept remote port a u) (sym (cleaned-up r x usr t (e.up x ∙ i.up x)))
        (Alike-IsKept e i)

  pub on_sent-IsKept :
      (pfn : Sent) (a : App) → IsReceiving remote port a → IsKept remote port a (on_sent pfn a)
  unfolding on_sent on_tunnel_sent on_user_sent
  on_sent-IsKept (tunnel_sent r x usr) a i =
      cleaned-IsKept r x usr (uncork_tunnel-Alike a.queue_limit x a) i
  on_sent-IsKept (user_sent r x usr) a i =
      cleaned-IsKept r x usr (uncork_user-Alike a.queue_limit x a) i

  with_back :
      (r x : ℕ) (parts : List Bytes) (pfn : Sent) (a t u : App)
      → Alike a t
      → Alike a (emit (send_v (way_back r x u) parts pfn) t)
  unfolding to_service
  with_back r x parts pfn a t u e = record {
    next_ref = e.next_ref;
    remote_at = e.remote_at;
    service_ep = e.service_ep;
    up = e.up;
    given = e.given;
  }

  pub on_user_recv-IsKept :
      (r x : ℕ) (usr : User) (buf : Bytes) (a : App)
      → IsReceiving remote port a
      → IsKept remote port a (on_user_recv r x usr buf a)
  unfolding on_user_recv
  on_user_recv-IsKept r x (p, id) buf a i =
      Alike-IsKept (with_back r x _ _ a _ a (cork_user-Alike a.queue_limit x a)) i

  -- DISCONNECT closes the session's connection to the relay, and leaves the service's open.
  pub on_relay_hangs_up-IsKept :
      (usr : User) (a : App)
      → IsReceiving remote port a
      → IsKept remote port a (on_relay_hangs_up remote usr a)
  unfolding on_relay_hangs_up
  on_relay_hangs_up-IsKept usr a i = elim (Option-cases (session_of a remote usr)) [
    | inl e ↦ rw (e, on_relay_hangs_up) (record { receiving = i; views = λ seq. refl })
    | inr (x, e) ↦ rw (e, on_relay_hangs_up) (cleaned-IsKept remote x usr (marked-Alike x a) i)
  ]

  -- The bytes that DATA adds for a session.
  same_session :
      (x : ℕ) (buf : Bytes) (pfn : Option Sent) (es : List Effect)
      → bytes_of (some x) (send (user_conn x) buf pfn ∷ es) ≡ grown buf (bytes_of (some x) es)
  unfolding to_service
  same_session x buf pfn es = ground arith

  other_session :
      (x : ℕ) (o : Option ℕ) (buf : Bytes) (pfn : Option Sent) (es : List Effect)
      → o ≢ some x
      → bytes_of o (send (user_conn x) buf pfn ∷ es) ≡ bytes_of o es
  unfolding to_service
  other_session x none buf pfn es h = refl
  other_session x (some y) buf pfn es h = elim (Bool-cases (x == y)) [
    | inl e ↦ absurd (h (ground (arith, e)))
    | inr e ↦ ground (arith, e)
  ]

  -- DATA for the user `usr`, seen by the user `other`.
  data_view :
      (b : Bool) (usr other : User) (buf : Bytes) (a : App) (o : Option ℕ)
      → IsReceiving remote port a
      → session_of a remote usr ≡ o
      → ((b ≡ true) ↔ (usr ≡ other))
      → view remote other (on_relay_data remote usr buf a)
        ≡ (if b then grown buf (view remote other a) else view remote other a)
  unfolding on_relay_data
  data_view true usr other buf a none i e h =
      subst (λ u. view remote u (on_relay_data remote usr buf a) ≡ grown buf (view remote u a))
        (h.0 refl) (rw (e, on_relay_data) (rw e refl))
  data_view false usr other buf a none i e h = rw (e, on_relay_data) refl
  data_view true usr other buf a (some x) i e h =
      subst (λ u. view remote u (on_relay_data remote usr buf a) ≡ grown buf (view remote u a))
        (h.0 refl)
        (let c = cork_tunnel-Alike a.queue_limit x a in
          rw (e, on_relay_data)
            (rw (c.remote_at, e)
              (same_session x buf _ _ ∙ ap (grown buf) (same_bytes _ _ (some x) c.given))))
  data_view false usr other buf a (some x) i e h =
      let c = cork_tunnel-Alike a.queue_limit x a in
      rw (e, on_relay_data)
        (rw (c.remote_at) (
          other_session x (session_of a remote other) buf _ _
            (λ f. absurd (cc (h.1 (i.separate.distinct remote remote usr other x e f).1)))
          ∙ same_bytes _ _ (session_of a remote other) c.given))

  sent-IsReceiving :
      (x : ℕ) (buf : Bytes) (pfn : Option Sent) (a : App)
      → IsReceiving remote port a
      → x < a.next_ref
      → IsReceiving remote port (emit (send (user_conn x) buf pfn) a)
  unfolding to_service
  sent-IsReceiving x buf pfn a i h = record {
    separate = Narrows-IsSeparate (IsSame-Narrows (refl, refl)) i.separate;
    unused = λ y g. ground (arith, i.unused y g);
    eps = i.eps;
    served = i.served;
    some_eps = i.some_eps;
    up = i.up;
  }

  on_relay_data-IsReceiving :
      (usr : User) (buf : Bytes) (a : App)
      → IsReceiving remote port a
      → IsReceiving remote port (on_relay_data remote usr buf a)
  unfolding on_relay_data to_service
  on_relay_data-IsReceiving usr buf a i = elim (Option-cases (session_of a remote usr)) [
    | inl e ↦ rw (e, on_relay_data) i
    | inr (x, e) ↦
        rw (e, on_relay_data)
          (sent-IsReceiving x buf _ _
            (Alike-IsReceiving remote port (cork_tunnel-Alike a.queue_limit x a) i)
            (ground (
              arith,
              (cork_tunnel-Alike a.queue_limit x a).next_ref,
              i.separate.fresh remote usr x e,
            )))
  ]

  pub on_relay_data-Receives :
      (p id : ℕ) (buf : Bytes) (a : App)
      → IsReceiving remote port a
      → Receives remote port (some (R2a.carry p id buf)) a (on_relay_data remote (p, id) buf a)
  on_relay_data-Receives p id buf a i = record {
    receiving = on_relay_data-IsReceiving (p, id) buf a i;
    views = λ seq.
        data_view (same_user (p, id) (port, seq)) (p, id) (port, seq) buf a _ i refl
          (same_user_iff (p, id) (port, seq));
  }

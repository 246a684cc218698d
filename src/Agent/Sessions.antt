-- ===== src/Agent/Sessions.antt =====
-- The life of a session in r-nat-c/app1.
use r_nat.Common.{
  ℕ, ◌<◌, ◌%◌, ◌≡◌, refl, sym, ap, ◌∙◌, ◌++◌, append_assoc, inl, inr, Option, none, some, List, [],
  ◌∷◌, true, false, ◌==◌, ltb, not, ◌&&◌, length, arith, nat_key, lookup, lookup-insert,
  lookup-erase, if◌then◌else◌, Map, Bool-cases, get_elem?, get_elem?-lt, Ensures,
}
use mathlib.Core.List.{Memᴰ}
use r_nat.Balance.{inc32}
use r_nat.Protocol.{Bytes, A2r, put_a2r}
use r_nat.Relay.User.{cli_index}
use r_nat.Agent.State.{
  App, User, user_key, same_user, Endpoint, Client, user_conn, session_conn, Sent, user_sent,
  Effect, close, start, post_reconnect, send_v, clean_session,
}
use r_nat.Agent.Tunnel.{
  mark_tunnel_gone, on_relay_hangs_up, on_connect, open_session, on_server_disconnect, close_users,
  on_session_disconnect,
}
use r_nat.Agent.User.{on_user_disconnect, on_user_recv, cork_user}

abbrev pub session_of : App → ℕ → User → Option ℕ
session_of s remote usr = lookup usr (s.remote_at remote).users

-- __CleanSession takes a session out of the table exactly when both sides have gone, and no other.
pub user_of-clean_session :
    (remote session : ℕ) (usr v : User) (s : App) (r : ℕ)
    → let ses = s.session_at session in
      session_of (clean_session remote session usr s) r v ≡ (
        if (ses.user_disconnected && ses.tunnel_disconnected) && ((remote == r) && same_user usr v)
        then none
        else session_of s r v)
unfolding clean_session
user_of-clean_session remote session usr v s r =
    ground (arith, lookup-erase usr v (s.remote_at remote).users)

-- The state after a CONNECT that opens a session.
pub record IsOpened (s t : App) (remote port id usr_ip : ℕ) (eps : List Endpoint) : Type 0 where
  pub endpoint : Endpoint
  pub chosen :
      get_elem? eps (cli_index s.char_is_signed s.load_policy id usr_ip % length eps)
      ≡ some endpoint
  pub listed : session_of t remote (port, id) ≡ some s.next_ref
  pub started :
      t.effects
      ≡ start (user_conn s.next_ref) endpoint
        ∷ start (session_conn s.next_ref) (s.remote_at remote).ep
        ∷ s.effects

on_connect_lem :
    (remote port id usr_ip : ℕ) (eps : List Endpoint) (ep : Endpoint) (s : App)
    → session_of s remote (port, id) ≡ none
    → lookup port s.service_ep ≡ some eps
    → (length eps == 0) ≡ false
    → get_elem? eps (cli_index s.char_is_signed s.load_policy id usr_ip % length eps) ≡ some ep
    → on_connect remote port id usr_ip s ≡ open_session remote (port, id) ep s
unfolding on_connect
on_connect_lem remote port id usr_ip eps ep s e f n g = rw (e, f, on_connect) (rw (n, g) refl)

open_session-session_of :
    (remote port id : ℕ) (ep : Endpoint) (s : App)
    → session_of (open_session remote (port, id) ep s) remote (port, id) ≡ some s.next_ref
unfolding open_session
open_session-session_of remote port id ep s =
    ground (arith, lookup-insert (port, id) (port, id) s.next_ref (s.remote_at remote).users)

-- A CONNECT for a user that the remote does not have yet, of a configured service, opens one session
-- at the endpoint that the policy selects: its two clients are started, one towards the relay and one
-- towards the service, and the user is in the table.
pub on_connect-IsOpened :
    (remote port id usr_ip : ℕ) (eps : List Endpoint) (s : App)
    → session_of s remote (port, id) ≡ none
    → lookup port s.service_ep ≡ some eps
    → 0 < length eps
    → IsOpened s (on_connect remote port id usr_ip s) remote port id usr_ip eps
on_connect-IsOpened remote port id usr_ip eps s e f n =
    let i = cli_index s.char_is_signed s.load_policy id usr_ip % length eps in
    let (ep, g) = get_elem?-lt eps i (omega arith) in
    let o = on_connect_lem remote port id usr_ip eps ep s e f (ground arith) g in
    record {
      endpoint = ep;
      chosen = g;
      listed =
          ap (λ t. session_of t remote (port, id)) o ∙ open_session-session_of remote port id ep s;
      started = ap (λ t. t.effects) o ∙ (unfold open_session in refl);
    }

clean-forgets :
    (remote session port id : ℕ) (u : App)
    → (u.session_at session).user_disconnected ≡ true
    → (u.session_at session).tunnel_disconnected ≡ true
    → session_of (clean_session remote session (port, id) u) remote (port, id) ≡ none
clean-forgets remote session port id u a b =
    user_of-clean_session remote session (port, id) (port, id) u remote ∙ ground arith

-- If the relay's side has gone, by DISCONNECT or by the loss of its connection, the end of the
-- service's connection takes the user out of the table.
pub on_service_gone-session_of :
    (remote session port id : ℕ) (s : App)
    → (s.session_at session).tunnel_disconnected ≡ true
    → session_of (on_user_disconnect remote session (port, id) s) remote (port, id) ≡ none
unfolding on_user_disconnect
on_service_gone-session_of remote session port id s t =
    clean-forgets remote session port id _ (ground arith) (ground arith)

-- If the service's side has gone, the relay's DISCONNECT and the loss of the session's connection to
-- the relay each take the user out of the table.
pub on_relay_gone-session_of :
    (remote session port id : ℕ) (s : App)
    → session_of s remote (port, id) ≡ some session
    → (s.session_at session).user_disconnected ≡ true
    → (session_of (on_relay_hangs_up remote (port, id) s) remote (port, id) ≡ none)
      × (session_of (on_session_disconnect remote session (port, id) s) remote (port, id) ≡ none)
on_relay_gone-session_of remote session port id s e u = (
  unfold on_relay_hangs_up in
      rw (e, on_relay_hangs_up)
        (clean-forgets remote session port id _ (ground arith) (ground arith)),
  unfold on_session_disconnect in
      clean-forgets remote session port id _ (ground arith) (ground arith),
)

close_users-++ : (us : Map User ℕ) (es : List Effect) → close_users us es ≡ close_users us [] ++ es
unfolding close_users
close_users-++ [] es = refl
close_users-++ ((usr, session) ∷ us) es =
    let two = close (session_conn session) ∷ close (user_conn session) ∷ [] in
    close_users-++ us (close (session_conn session) ∷ close (user_conn session) ∷ es)
    ∙ sym (append_assoc (close_users us []) two es)
    ∙ ap (λ l. l ++ es) (sym (close_users-++ us two))

close_users-keeps :
    (e : Effect) (us : Map User ℕ) (es : List Effect) → Memᴰ e es → Memᴰ e (close_users us es)
unfolding close_users
close_users-keeps e [] es m = m
close_users-keeps e ((usr, session) ∷ us) es m = close_users-keeps e us _ (Memᴰ.tail (Memᴰ.tail m))

close_users-closes :
    (us : Map User ℕ) (usr : User) (session : ℕ) (es : List Effect)
    → lookup usr us ≡ some session
    → Memᴰ (close (user_conn session)) (close_users us es)
      × Memᴰ (close (session_conn session)) (close_users us es)
unfolding close_users lookup
close_users-closes [] usr session es h = absurd (ground arith)
close_users-closes ((v, r) ∷ us) usr session es h = elim (Bool-cases (same_user v usr)) [
  | inl x ↦
      let q : session ≡ r = ground arith in
      (
        close_users-keeps _ us _ (Memᴰ.tail (Memᴰ.head (ap (λ n. close (user_conn n)) q))),
        close_users-keeps _ us _ (Memᴰ.head (ap (λ n. close (session_conn n)) q)),
      )
  | inr x ↦ close_users-closes us usr session _ (ground arith)
]

-- The closes of both clients of a session.
abbrev pub ClosesBoth : List Effect → ℕ → Type 0
ClosesBoth es session = Memᴰ (close (user_conn session)) es × Memᴰ (close (session_conn session)) es

close_users-Ensures :
    (us : Map User ℕ) (usr : User) (o : Option ℕ)
    → lookup usr us ≡ o
    → Ensures (ClosesBoth (close_users us [])) o
close_users-Ensures us usr none h = tt
close_users-Ensures us usr (some session) h = close_users-closes us usr session [] h

-- When the remote's connection is lost, whatever users it has, a new connection is asked for, after
-- some closes; no user is left in its table; and among these closes are those of both clients of the
-- session of the user `usr`, if it was in it.
pub on_server_disconnect-closes :
    (remote : ℕ) (usr : User) (s : App)
    → let t = on_server_disconnect remote s in
      ((t.remote_at remote).users ≡ [])
      × (new : List Effect) × (t.effects ≡ post_reconnect remote ∷ (new ++ s.effects))
      × Ensures (ClosesBoth new) (session_of s remote usr)
on_server_disconnect-closes remote usr s =
    let us = (s.remote_at remote).users in
    unfold on_server_disconnect in
    (
      ground arith,
      close_users us [],
      ap (λ l. post_reconnect remote ∷ l) (close_users-++ us s.effects),
      close_users-Ensures us usr (lookup usr us) refl,
    )

cork_user-keeps :
    (limit session : ℕ) (s : App) (e : Effect)
    → Memᴰ e s.effects
    → Memᴰ e (cork_user limit session s).effects
unfolding cork_user
cork_user-keeps limit session s e m =
    elim (Bool-cases (
      not (limit == 0)
      && (not (s.session_at session).user_corked
          && ltb limit (inc32 (s.session_at session).user_traffic)))) [
            | inl x ↦ rw (x, cork_user) (Memᴰ.tail m)
            | inr x ↦ rw (x, cork_user) m
          ]

pub on_relay_hangs_up_lem :
    (remote session : ℕ) (usr : User) (s : App)
    → session_of s remote usr ≡ some session
    → (s.session_at session).user_disconnected ≡ false
    → on_relay_hangs_up remote usr s ≡ mark_tunnel_gone session s
unfolding on_relay_hangs_up
on_relay_hangs_up_lem remote session usr s e u =
    rw (e, on_relay_hangs_up) (unfold clean_session in ground arith)

-- The client whose SendV an effect calls.
abbrev pub SendsOn : Client → List Effect → Type 0
SendsOn c es =
    (bs : List Bytes) × (f : Sent) × (rest : List Effect) × (es ≡ send_v c bs f ∷ rest)
    × Memᴰ (close c) rest

-- While the service's side is still there, bytes that it sends after the relay's DISCONNECT are handed
-- to SendV of the session's own connection, which that DISCONNECT has closed.
pub on_user_recv-SendsOn :
    (remote session port id : ℕ) (buf : Bytes) (s : App)
    → session_of s remote (port, id) ≡ some session
    → (s.session_at session).session_conn_ready ≡ true
    → (s.session_at session).user_disconnected ≡ false
    → SendsOn
        (session_conn session)
        (on_user_recv remote session (port, id) buf (on_relay_hangs_up remote (port, id) s)).effects
on_user_recv-SendsOn remote session port id buf s e r u =
    let t = mark_tunnel_gone session s in
    let hung = on_relay_hangs_up_lem remote session (port, id) s e u in
    (
      put_a2r (A2r.carry port id []) ∷ buf ∷ [],
      user_sent remote session (port, id),
      (cork_user t.queue_limit session t).effects,
      ap (λ v. (on_user_recv remote session (port, id) buf v).effects) hung
          ∙ (unfold on_user_recv in ground (arith)),
      cork_user-keeps t.queue_limit session t (close (session_conn session)) (Memᴰ.head refl),
    )

-- ===== src/Link/Stream/Receiving.antt =====
-- The agent's part in Link/Stream: what its handlers give the services.
use r_nat.Common.{
  ℕ, ◌≤◌, ◌≡◌, refl, ap, ◌∙◌, Option, none, some, List, [], false, arith, ◌==◌, nat_key, lookup,
  length,
}
use r_nat.Protocol.{Bytes, R2a}
use r_nat.Agent.State.{App, User, user_key, Endpoint, Effect, clean_session}
use r_nat.Agent.Tunnel.{mark_tunnel_gone, cork_tunnel, uncork_tunnel}
use r_nat.Agent.User.{cork_user, uncork_user}
use r_nat.Agent.Sessions.{session_of}
use r_nat.Agent.Isolation.Tables.{IsSeparate, Narrows-IsSeparate, IsSame-Narrows}
use r_nat.Link.Stream.{to_service}
use r_nat.Link.Stream.View.{taken}

abbrev pub bytes_of : Option ℕ → List Effect → Option Bytes
bytes_of none es = none
bytes_of (some x) es = some (to_service x es)

-- What the service of a user has got.
abbrev pub view : ℕ → User → App → Option Bytes
view remote usr a = bytes_of (session_of a remote usr) a.effects

pub same_bytes :
    (es fs : List Effect) (o : Option ℕ)
    → ((x : ℕ) → to_service x fs ≡ to_service x es)
    → bytes_of o fs ≡ bytes_of o es
same_bytes es fs none e = refl
same_bytes es fs (some x) e = ap some (e x)

-- The port has a service, whose connections are up.
pub record IsReceiving (remote port : ℕ) (a : App) : Type 0 where
  pub separate : IsSeparate a
  pub unused : (x : ℕ) → a.next_ref ≤ x → to_service x a.effects ≡ []
  pub eps : List Endpoint
  pub served : lookup port a.service_ep ≡ some eps
  pub some_eps : (length eps == 0) ≡ false
  pub up : (x : ℕ) → (a.session_at x).user_disconnected ≡ false

pub record Receives (remote port : ℕ) (o : Option R2a) (a t : App) : Type 0 where
  pub receiving : IsReceiving remote port t
  pub views : (seq : ℕ) → view remote (port, seq) t ≡ taken port seq o (view remote (port, seq) a)

-- What the counters and flags leave alone.
pub record Alike (a t : App) : Type 0 where
  pub next_ref : t.next_ref ≡ a.next_ref
  pub remote_at : t.remote_at ≡ a.remote_at
  pub service_ep : t.service_ep ≡ a.service_ep
  pub up : (x : ℕ) → (t.session_at x).user_disconnected ≡ (a.session_at x).user_disconnected
  pub given : (x : ℕ) → to_service x t.effects ≡ to_service x a.effects

pub cork_tunnel-Alike : (limit x : ℕ) (a : App) → Alike a (cork_tunnel limit x a)
unfolding cork_tunnel to_service
cork_tunnel-Alike limit x a = record {
  next_ref = ground arith;
  remote_at = ground arith;
  service_ep = ground arith;
  up = λ y. ground arith;
  given = λ y. ground arith;
}

pub uncork_tunnel-Alike : (limit x : ℕ) (a : App) → Alike a (uncork_tunnel limit x a)
unfolding uncork_tunnel to_service
uncork_tunnel-Alike limit x a = record {
  next_ref = ground arith;
  remote_at = ground arith;
  service_ep = ground arith;
  up = λ y. ground arith;
  given = λ y. ground arith;
}

pub cork_user-Alike : (limit x : ℕ) (a : App) → Alike a (cork_user limit x a)
unfolding cork_user to_service
cork_user-Alike limit x a = record {
  next_ref = ground arith;
  remote_at = ground arith;
  service_ep = ground arith;
  up = λ y. ground arith;
  given = λ y. ground arith;
}

pub uncork_user-Alike : (limit x : ℕ) (a : App) → Alike a (uncork_user limit x a)
unfolding uncork_user to_service
uncork_user-Alike limit x a = record {
  next_ref = ground arith;
  remote_at = ground arith;
  service_ep = ground arith;
  up = λ y. ground arith;
  given = λ y. ground arith;
}

pub marked-Alike : (x : ℕ) (a : App) → Alike a (mark_tunnel_gone x a)
unfolding to_service
marked-Alike x a = record {
  next_ref = refl;
  remote_at = refl;
  service_ep = refl;
  up = λ y. ground arith;
  given = λ y. refl;
}

pub cleaned-up :
    (remote x : ℕ) (usr : User) (a : App)
    → (a.session_at x).user_disconnected ≡ false
    → clean_session remote x usr a ≡ a
unfolding clean_session
cleaned-up remote x usr a e = ground (arith, e)

module _ (remote port : ℕ) where
  pub Alike-IsReceiving :
      {a t : App} → Alike a t → IsReceiving remote port a → IsReceiving remote port t
  Alike-IsReceiving e i = record {
    separate = Narrows-IsSeparate (IsSame-Narrows (e.next_ref, e.remote_at)) i.separate;
    unused = λ x h. e.given x ∙ i.unused x (ground (arith, h, e.next_ref));
    eps = i.eps;
    served = ap (λ m. lookup port m) e.service_ep ∙ i.served;
    some_eps = i.some_eps;
    up = λ x. e.up x ∙ i.up x;
  }

  pub Alike-view : {a t : App} → Alike a t → (usr : User) → view remote usr t ≡ view remote usr a
  Alike-view {a} {t} e usr =
      ap (λ f. bytes_of (lookup usr (f remote).users) t.effects) e.remote_at
      ∙ same_bytes _ _ (session_of a remote usr) e.given

  pub Alike-Receives :
      {a t : App} → Alike a t → IsReceiving remote port a → Receives remote port none a t
  Alike-Receives e i = record {
    receiving = Alike-IsReceiving e i;
    views = λ seq. Alike-view e (port, seq);
  }

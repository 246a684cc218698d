-- ===== src/Agent/Startup/Tunnels.antt =====
-- The connections to relays that Start of r-nat-c opens for the configured remotes.
use mathlib.Core.Option.{some_inj}
use r_nat.Common.{
  ℕ, zero, suc, ◌+◌, ◌*◌, ◌<◌, ◌≡◌, refl, ap, ◌∙◌, inl, inr, none, some, List, [], ◌∷◌, ◌++◌, Bool,
  true, length, length-append, arith, Option-cases,
}
use r_nat.Protocol.{Bytes}
use r_nat.Endpoint.{Endpoint}
use r_nat.Text.{trim}
use r_nat.Config.{Config, AddressInfo}
use r_nat.Agent.State.{App, Effect, tunnel_conn, start, set_remote, emit}
use r_nat.Agent.Startup.{
  Agent, repeat, repeat_each, resolve_remotes, init, create_relays, start_relays, start_up,
}
use r_nat.Agent.Startup.Endpoints.{init_lem}

-- How many connections the configuration asks for.
unfoldable pub wanted : (Bytes → Bytes → List Endpoint) → List AddressInfo → ℕ
wanted resolve [] = 0
wanted resolve (a ∷ others) =
    (elim (trim a.address) [
      | none ↦ 0
      | some address ↦ a.concurrency * length (resolve address a.port)
    ])
    + wanted resolve others

length-repeat : (n : ℕ) (ep : Endpoint) → length (repeat n ep) ≡ n
unfolding repeat
length-repeat zero ep = refl
length-repeat (suc n) ep = omega (arith, length-repeat n ep)

length-repeat_each : (n : ℕ) (eps : List Endpoint) → length (repeat_each n eps) ≡ n * length eps
unfolding repeat_each
length-repeat_each n [] = omega arith
length-repeat_each n (ep ∷ eps) = grind (
  arith,
  length-append (repeat n ep) (repeat_each n eps),
  length-repeat n ep,
  length-repeat_each n eps,
)

length-resolve_remotes :
    (resolve : Bytes → Bytes → List Endpoint) (remotes : List AddressInfo)
    (found eps : List Endpoint)
    → resolve_remotes resolve remotes found ≡ some eps
    → length eps ≡ length found + wanted resolve remotes
unfolding resolve_remotes wanted
length-resolve_remotes resolve [] found eps e = omega (arith, ap length (some_inj.0 e))
length-resolve_remotes resolve (a ∷ others) found eps e = elim (Option-cases (trim a.address)) [
  | inl x ↦ absurd (ground (arith, x))
  | inr (address, x) ↦
      let more = repeat_each a.concurrency (resolve address a.port) in
      let ih = length-resolve_remotes resolve others (found ++ more) eps (ground (arith, x)) in
      rw x (
        omega (
          arith,
          ih,
          length-append found more,
          length-repeat_each a.concurrency (resolve address a.port),
        ))
]

-- The clients of the remotes from `n` on, started one after the other.
unfoldable pub starts : ℕ → List Endpoint → List Effect → List Effect
starts n [] es = es
starts n (ep ∷ eps) es = starts (suc n) eps (start (tunnel_conn n 0) ep ∷ es)

-- The remotes from `n` on have these endpoints.
abbrev Have : ℕ → List Endpoint → App → Type 0
Have n [] s = Unit {0}
Have n (ep ∷ eps) s = ((s.remote_at n).ep ≡ ep) × Have (suc n) eps s

create_relays-below :
    (n k : ℕ) (eps : List Endpoint) (s : App)
    → k < n
    → (create_relays n eps s).remote_at k ≡ s.remote_at k
unfolding create_relays
create_relays-below n k [] s h = refl
create_relays-below n k (ep ∷ eps) s h = ground (
  arith,
  create_relays-below (suc n) k eps (set_remote n (record { ep = ep; tunnel = 0; users = [] }) s),
)

create_relays-Have : (n : ℕ) (eps : List Endpoint) (s : App) → Have n eps (create_relays n eps s)
unfolding create_relays
create_relays-Have n [] s = tt
create_relays-Have n (ep ∷ eps) s =
    let t = set_remote n (record { ep = ep; tunnel = 0; users = [] }) s in
    (
      ground (arith, create_relays-below (suc n) n eps t (omega arith)),
      create_relays-Have (suc n) eps t,
    )

create_relays-effects :
    (n : ℕ) (eps : List Endpoint) (s : App) → (create_relays n eps s).effects ≡ s.effects
unfolding create_relays
create_relays-effects n [] s = refl
create_relays-effects n (ep ∷ eps) s =
    create_relays-effects (suc n) eps (set_remote n (record { ep = ep; tunnel = 0; users = [] }) s)

Have-emit :
    (n : ℕ) (eps : List Endpoint) (e : Effect) (s : App) → Have n eps s → Have n eps (emit e s)
Have-emit n [] e s h = tt
Have-emit n (ep ∷ eps) e s h = (h.0, Have-emit (suc n) eps e s h.1)

start_relays-starts :
    (n : ℕ) (eps : List Endpoint) (s : App)
    → Have n eps s
    → (start_relays n (length eps) s).effects ≡ starts n eps s.effects
unfolding start_relays starts
start_relays-starts n [] s h = refl
start_relays-starts n (ep ∷ eps) s h =
    let e = start (tunnel_conn n 0) (s.remote_at n).ep in
    start_relays-starts (suc n) eps (emit e s) (Have-emit (suc n) eps e s h.1)
    ∙ ap (λ x. starts (suc n) eps (start (tunnel_conn n 0) x ∷ s.effects)) h.0

-- Init and Start: where Init succeeds, Start starts one client for each endpoint of remote_ep_, in
-- order, and nothing else; these are, over the configured remotes, the endpoints found for one
-- address times its concurrency, and at least one.
pub start_up-starts :
    (resolve : Bytes → Bytes → List Endpoint) (atol : Bytes → ℕ) (signed : Bool) (c : Config)
    (a : Agent)
    → init resolve atol signed c ≡ some (a, true)
    → ((start_up a).app.effects ≡ starts 0 a.remote_ep [])
      × ((start_up a).relays ≡ wanted resolve c.remotes)
      × (0 < (start_up a).relays)
unfolding start_up
start_up-starts resolve atol signed c a e =
    let (m, _, app, found, some_eps) = init_lem resolve atol signed c a e in
    let t = create_relays 0 a.remote_ep a.app in
    let no_effects : t.effects ≡ [] =
      create_relays-effects 0 a.remote_ep a.app ∙ ap (λ (s : App). s.effects) app in
    (
      start_relays-starts 0 a.remote_ep t (create_relays-Have 0 a.remote_ep a.app)
          ∙ ap (starts 0 a.remote_ep) no_effects,
      omega (arith, length-resolve_remotes resolve c.remotes [] a.remote_ep found),
      ground arith,
    )

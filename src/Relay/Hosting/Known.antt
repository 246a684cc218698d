-- ===== src/Relay/Hosting/Known.antt =====
-- Which agents the handlers of r-nat-s/app1 know.
use mathlib.Core.Option.{some_inj}
use r_nat.Common.{
  ℕ, ◌≡◌, refl, sym, ap, ◌∙◌, inl, inr, Option, none, some, Bool, true, false, ◌==◌, length, arith,
  nat_key, lookup, Option-cases, Bool-cases,
}
use r_nat.Protocol.{A2r, parse_a2r}
use r_nat.Relay.State.{App}
use r_nat.Relay.Step.{
  Event, agent_connects, agent_disconnects, agent_sends, user_connects, user_disconnects,
  user_sends, completes, step,
}
use r_nat.Relay.Registry.Invariant.{IsRegistered, Admits}
use r_nat.Relay.Directory.{
  Directory, Matches, providers_of, advance, follow, offer, open_port, withdraw,
}
use r_nat.Relay.Directory.Refinement.{step-Agrees, Agrees-some}
use r_nat.Relay.Hosting.Fits.{knows, known_after, IsDue}

abbrev view : App → Directory
view s = record { connected = knows s; providers = providers_of s }

view-Matches : (s : App) → Matches s (view s)
view-Matches s = record { connected = λ a. refl; providers = λ p. refl }

open_port-connected :
    (o : Option Bool) (a p : ℕ) (d d' : Directory)
    → open_port o a p d ≡ some d'
    → d'.connected ≡ d.connected
open_port-connected none a p d d' e = absurd (cc)
open_port-connected (some false) a p d d' e =
    ap (λ (x : Directory). x.connected) (sym (some_inj.0 e))
open_port-connected (some true) a p d d' e =
    ap (λ (x : Directory). x.connected) (sym (some_inj.0 e))

offer-connected :
    (listens : ℕ → Option Bool) (a p : ℕ) (d d' : Directory)
    → offer listens a p d ≡ some d'
    → d'.connected ≡ d.connected
offer-connected listens a p d d' e = elim (Bool-cases (d.connected a)) [
  | inr x ↦ ap (λ (x : Directory). x.connected) (sym (some_inj.0 (rw x at e)))
  | inl x ↦ elim (Bool-cases (length (d.providers p) == 0)) [
    | inl y ↦ open_port-connected (listens p) a p d d' (rw (x, y) at e)
    | inr y ↦ ap (λ (x : Directory). x.connected) (sym (some_inj.0 (rw (x, y) at e)))
  ]
]

withdraw-connected : (a p : ℕ) (d : Directory) → (withdraw a p d).connected ≡ d.connected
withdraw-connected a p d = elim (Bool-cases (d.connected a)) [
  | inl x ↦ rw x refl
  | inr x ↦ rw x refl
]

follow-connected :
    (listens : ℕ → Option Bool) (a : ℕ) (m : Option A2r) (d d' : Directory)
    → follow listens a m d ≡ some d'
    → d'.connected ≡ d.connected
follow-connected listens a none d d' e = ap (λ (x : Directory). x.connected) (sym (some_inj.0 e))
follow-connected listens a (some (A2r.bind p)) d d' e = offer-connected listens a p d d' e
follow-connected listens a (some (A2r.unbind p)) d d' e =
    ap (λ (x : Directory). x.connected) (sym (some_inj.0 e)) ∙ withdraw-connected a p d
follow-connected listens a (some (A2r.carry p id pkt)) d d' e =
    ap (λ (x : Directory). x.connected) (sym (some_inj.0 e))
follow-connected listens a (some (A2r.disconnect p id)) d d' e =
    ap (λ (x : Directory). x.connected) (sym (some_inj.0 e))
follow-connected listens a (some (A2r.session p id)) d d' e =
    ap (λ (x : Directory). x.connected) (sym (some_inj.0 e))

advance-connected :
    (listens : ℕ → Option Bool) (e : Event) (d d' : Directory)
    → advance listens e d ≡ some d'
    → d'.connected ≡ known_after e d.connected
advance-connected listens (agent_connects seq) d d' e =
    ap (λ (x : Directory). x.connected) (sym (some_inj.0 e))
advance-connected listens (agent_disconnects seq) d d' e =
    ap (λ (x : Directory). x.connected) (sym (some_inj.0 e))
advance-connected listens (agent_sends seq buf) d d' e =
    follow-connected listens seq (parse_a2r buf) d d' e
advance-connected listens (user_connects service seq ip port) d d' e =
    ap (λ (x : Directory). x.connected) (sym (some_inj.0 e))
advance-connected listens (user_disconnects service seq) d d' e =
    ap (λ (x : Directory). x.connected) (sym (some_inj.0 e))
advance-connected listens (user_sends service seq buf) d d' e =
    ap (λ (x : Directory). x.connected) (sym (some_inj.0 e))
advance-connected listens (completes sent) d d' e =
    ap (λ (x : Directory). x.connected) (sym (some_inj.0 e))

-- An event changes which agents are known as its kind says.
pub knows-step :
    (listens : ℕ → Option Bool) (e : Event) (s t : App)
    → IsRegistered s
    → step listens e s ≡ some t
    → (a : ℕ) → knows t a ≡ known_after e (knows s) a
knows-step listens e s t h x a =
    let (d, y, m) =
      Agrees-some (step listens e s) (advance listens e (view s)) t x
        (step-Agrees listens e s (view s) h (view-Matches s)) in
    m.connected a ∙ ap (λ g. g a) (advance-connected listens e (view s) d y)

pub IsDue-Admits : (e : Event) (s : App) → IsDue e (knows s) → Admits e s
IsDue-Admits (agent_connects seq) s h = elim (Option-cases (lookup seq s.agents)) [
  | inl x ↦ x
  | inr (a, x) ↦ absurd (ground (arith, x))
]
IsDue-Admits (agent_disconnects seq) s h = tt
IsDue-Admits (agent_sends seq buf) s h = tt
IsDue-Admits (user_connects service seq ip port) s h = tt
IsDue-Admits (user_disconnects service seq) s h = tt
IsDue-Admits (user_sends service seq buf) s h = tt
IsDue-Admits (completes sent) s h = tt

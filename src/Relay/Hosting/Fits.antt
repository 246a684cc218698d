-- ===== src/Relay/Hosting/Fits.antt =====
-- The functions on the strand of r-nat-s/app1 that announce agents and their ends, in their order.
use mathlib.Core.Path.{fun_ext}
use r_nat.Common.{
  ℕ, ◌≡◌, refl, sym, ap, subst, ◌∙◌, List, [], ◌∷◌, ◌++◌, Bool, true, false, arith, nat_key, lookup,
  is_some, update,
}
use r_nat.Relay.State.{App}
use r_nat.Relay.Step.{
  Event, agent_connects, agent_disconnects, agent_sends, user_connects, user_disconnects,
  user_sends, completes,
}
use r_nat.Relay.Hosting.{is_other}

abbrev pub knows : App → ℕ → Bool
knows s a = is_some (lookup a s.agents)

-- Which agents are known once an event has been handled.
abbrev pub known_after : Event → (ℕ → Bool) → ℕ → Bool
known_after (agent_connects seq) k = update k seq true
known_after (agent_disconnects seq) k = update k seq false
known_after (agent_sends seq buf) k = k
known_after (user_connects service seq ip port) k = k
known_after (user_disconnects service seq) k = k
known_after (user_sends service seq buf) k = k
known_after (completes sent) k = k

abbrev pub IsDue : Event → (ℕ → Bool) → Type 0
IsDue (agent_connects seq) k = k seq ≡ false
IsDue (agent_disconnects seq) k = Unit {0}
IsDue (agent_sends seq buf) k = Unit {0}
IsDue (user_connects service seq ip port) k = Unit {0}
IsDue (user_disconnects service seq) k = Unit {0}
IsDue (user_sends service seq buf) k = Unit {0}
IsDue (completes sent) k = Unit {0}

-- Each posted event is admitted when its turn comes, and in the end the opened numbers are known.
abbrev pub Fits : (ℕ → Bool) → List Event → (ℕ → Bool) → Type 0
Fits k [] opened = (a : ℕ) → k a ≡ opened a
Fits k (e ∷ es) opened = IsDue e k × Fits (known_after e k) es opened

pub Fits-connects :
    (k : ℕ → Bool) (es : List Event) (opened : ℕ → Bool) (seq : ℕ)
    → opened seq ≡ false
    → Fits k es opened
    → Fits k (es ++ agent_connects seq ∷ []) (update opened seq true)
Fits-connects k [] opened seq o f = (f seq ∙ o, λ a. ground (arith, f a))
Fits-connects k (e ∷ es) opened seq o f = (f.0, Fits-connects (known_after e k) es opened seq o f.1)

pub Fits-disconnects :
    (k : ℕ → Bool) (es : List Event) (opened : ℕ → Bool) (seq : ℕ)
    → Fits k es opened
    → Fits k (es ++ agent_disconnects seq ∷ []) (update opened seq false)
Fits-disconnects k [] opened seq f = (tt, λ a. ground (arith, f a))
Fits-disconnects k (e ∷ es) opened seq f =
    (f.0, Fits-disconnects (known_after e k) es opened seq f.1)

other_lem : (e : Event) (k : ℕ → Bool) → is_other e ≡ true → IsDue e k × (known_after e k ≡ k)
other_lem (agent_connects seq) k h = absurd (ground arith)
other_lem (agent_disconnects seq) k h = absurd (ground arith)
other_lem (agent_sends seq buf) k h = (tt, refl)
other_lem (user_connects service seq ip port) k h = (tt, refl)
other_lem (user_disconnects service seq) k h = (tt, refl)
other_lem (user_sends service seq buf) k h = (tt, refl)
other_lem (completes sent) k h = (tt, refl)

pub Fits-other :
    (k : ℕ → Bool) (es : List Event) (opened : ℕ → Bool) (e : Event)
    → is_other e ≡ true
    → Fits k es opened
    → Fits k (es ++ e ∷ []) opened
Fits-other k [] opened e o f = let l = other_lem e k o in (l.0, λ a. ap (λ g. g a) l.1 ∙ f a)
Fits-other k (d ∷ es) opened e o f = (f.0, Fits-other (known_after d k) es opened e o f.1)

pub Fits-same :
    (k l : ℕ → Bool) (es : List Event) (opened : ℕ → Bool)
    → ((a : ℕ) → k a ≡ l a)
    → Fits l es opened
    → Fits k es opened
Fits-same k l es opened e f = subst (λ g. Fits g es opened) (sym (fun_ext e)) f

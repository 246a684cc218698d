-- ===== src/Agent/Startup/Sets.antt =====
-- The sets of endpoints that Init of r-nat-c/app1/app1.cpp fills: an insertion adds the endpoint and
-- no other.
use mathlib.Core.Option.{some_inj}
use mathlib.Core.List.{Memᴰ}
use mathlib.Core.List.Memᴰ.{cases_cons, not-nil}
use r_nat.Common.{
  ℕ, zero, suc, ◌≡◌, ◌⊎◌, Option, get_elem?, refl, sym, ap, subst, inl, inr, none, some, List, [],
  ◌∷◌, ◌==◌, arith, nat_key, Map, lookup, insert, lookup-insert, map, Bool-cases,
}
use r_nat.Endpoint.{Endpoint, endpoint_key}
use r_nat.Agent.Startup.{add_endpoint, endpoints_at, add_service}

set_of : List Endpoint → Map Endpoint (Unit {0})
set_of eps = map (λ (e : Endpoint). (e, tt)) eps

elements : Map Endpoint (Unit {0}) → List Endpoint
elements m = map (λ (x : Endpoint × Unit {0}). x.0) m

elements-insert :
    (x ep : Endpoint) (m : Map Endpoint (Unit {0}))
    → Memᴰ x (elements (insert ep tt m))
    → (x ≡ ep) ⊎ Memᴰ x (elements m)
unfolding insert elements
elements-insert x ep [] h = elim (cases_cons h) [ inl e ↦ inl e | inr k ↦ absurd (not-nil k) ]
elements-insert x ep ((j, w) ∷ m) h = elim (Bool-cases (endpoint_key.same j ep)) [
  | inl q ↦ elim (cases_cons (rw q at h)) [ inl e ↦ inl e | inr k ↦ inr (Memᴰ.tail k) ]
  | inr q ↦ elim (Bool-cases (endpoint_key.before ep j)) [
    | inl b ↦ elim (cases_cons (rw (q, b) at h)) [ inl e ↦ inl e | inr k ↦ inr k ]
    | inr b ↦ elim (cases_cons (rw (q, b) at h)) [
      | inl e ↦ inr (Memᴰ.head e)
      | inr k ↦ elim (elements-insert x ep m k) [ inl e ↦ inl e | inr r ↦ inr (Memᴰ.tail r) ]
    ]
  ]
]

elements-set_of : (eps : List Endpoint) → elements (set_of eps) ≡ eps
unfolding elements set_of
elements-set_of [] = refl
elements-set_of (ep ∷ eps) = ap (◌∷◌ ep) (elements-set_of eps)

add_endpoint-Memᴰ :
    (x ep : Endpoint) (eps : List Endpoint) → Memᴰ x (add_endpoint ep eps) → (x ≡ ep) ⊎ Memᴰ x eps
unfolding elements set_of
add_endpoint-Memᴰ x ep eps h = elim (elements-insert x ep (set_of eps) h) [
  | inl e ↦ inl e
  | inr k ↦ inr (subst (Memᴰ x) (elements-set_of eps) k)
]

pub get_elem?-Memᴰ :
    (xs : List Endpoint) (i : ℕ) (x : Endpoint) → get_elem? xs i ≡ some x → Memᴰ x xs
get_elem?-Memᴰ [] i x e = absurd (cc)
get_elem?-Memᴰ (y ∷ xs) zero x e = Memᴰ.head (sym (some_inj.0 e))
get_elem?-Memᴰ (y ∷ xs) (suc i) x e = Memᴰ.tail (get_elem?-Memᴰ xs i x e)

-- All endpoints of the table satisfy `P` with their port.
abbrev pub AllAre : (ℕ → Endpoint → Type 0) → Map ℕ (List Endpoint) → Type 0
AllAre P m =
    (port : ℕ) (eps : List Endpoint) (x : Endpoint)
    → lookup port m ≡ some eps
    → Memᴰ x eps
    → P port x

endpoints_at-AllAre :
    (P : ℕ → Endpoint → Type 0) (port : ℕ) (m : Map ℕ (List Endpoint)) (x : Endpoint)
    (o : Option (List Endpoint))
    → lookup port m ≡ o
    → AllAre P m
    → Memᴰ x (elim o [ none ↦ [] | some eps ↦ eps ])
    → P port x
endpoints_at-AllAre P port m x none e h k = absurd (not-nil k)
endpoints_at-AllAre P port m x (some eps) e h k = h port eps x e k

pub add_service-AllAre :
    (P : ℕ → Endpoint → Type 0) (port : ℕ) (found : List Endpoint) (m : Map ℕ (List Endpoint))
    → ((x : Endpoint) → Memᴰ x found → P port x)
    → AllAre P m
    → AllAre P (add_service port found m)
unfolding add_service
add_service-AllAre P port [] m f h = h
add_service-AllAre P port (ep ∷ found) m f h =
    let eps = add_endpoint ep (endpoints_at port m) in
    add_service-AllAre P port found (insert port eps m) (λ x k. f x (Memᴰ.tail k))
      (λ p xs x e k. elim (Bool-cases (port == p)) [
        | inl q ↦
            let same : port ≡ p = ground (arith, q) in
            let here : xs ≡ eps = ground (arith, lookup-insert port p eps m, q, e) in
            subst (λ n. P n x) same
              (elim (add_endpoint-Memᴰ x ep (endpoints_at port m) (subst (Memᴰ x) here k)) [
                | inl w ↦ f x (Memᴰ.head w)
                | inr w ↦ endpoints_at-AllAre P port m x (lookup port m) refl h w
              ])
        | inr q ↦ h p xs x (ground (arith, lookup-insert port p eps m, q, e)) k
      ])

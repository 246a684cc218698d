-- ===== src/Relay/Isolation/Gains.antt =====
-- A table of r-nat-s/app1 that gains a new session.
use r_nat.Common.{
  ℕ, ◌≡◌, sym, ap, ◌∙◌, ◌⊎◌, inl, inr, some, ◌==◌, ◌&&◌, if◌then◌else◌, suc, arith, nat_key, lookup,
  insert, lookup-insert, Bool-cases,
}
use r_nat.Relay.State.{App}
use r_nat.Relay.Sessions.{session_of}
use r_nat.Relay.Isolation.Tables.{IsSeparate}

-- No table has gained an entry but one for a new session.
pub record Gains (service seq : ℕ) (s t : App) : Type 0 where
  pub next_ref : t.next_ref ≡ suc s.next_ref
  pub made :
      (r n ref : ℕ)
      → session_of t r n ≡ some ref
      → ((r ≡ service) × (n ≡ seq) × (ref ≡ s.next_ref)) ⊎ (session_of s r n ≡ some ref)

pub Gains-IsSeparate :
    {s t : App} (service seq : ℕ) → Gains service seq s t → IsSeparate s → IsSeparate t
Gains-IsSeparate {s} {t} service seq g h = record {
  fresh = λ r n ref e. elim (g.made r n ref e) [
    | inl x ↦ ground (arith, x.2, g.next_ref)
    | inr x ↦ ground (arith, h.fresh r n ref x, g.next_ref)
  ];
  distinct = λ r q n m ref e f. elim (g.made r n ref e) [
    | inl x ↦ elim (g.made q m ref f) [
      | inl y ↦ (x.0 ∙ sym y.0, x.1 ∙ sym y.1)
      | inr y ↦ absurd (ground (arith, x.2, h.fresh q m ref y))
    ]
    | inr x ↦ elim (g.made q m ref f) [
      | inl y ↦ absurd (ground (arith, y.2, h.fresh r n ref x))
      | inr y ↦ h.distinct r q n m ref x y
    ]
  ];
}

-- `insert` into the table of one service.
pub inserted :
    (service seq : ℕ) (s t : App)
    → ((r : ℕ)
        → (t.service_at r).sessions ≡ (
            if service == r
            then insert seq s.next_ref (s.service_at service).sessions
            else (s.service_at r).sessions))
    → t.next_ref ≡ suc s.next_ref
    → Gains service seq s t
inserted service seq s t e n = record {
  next_ref = n;
  made = λ r m ref h.
      let l = lookup-insert seq m s.next_ref (s.service_at service).sessions in
      let k : lookup m (
            if service == r
            then insert seq s.next_ref (s.service_at service).sessions
            else (s.service_at r).sessions)
          ≡ some ref =
        sym (ap (λ x. lookup m x) (e r)) ∙ h in
      elim (Bool-cases (service == r && seq == m)) [
        | inl x ↦ inl (ground (arith, x), ground (arith, x), ground (arith, x, k, l))
        | inr x ↦ inr (ground (arith, x, k, l))
      ];
}

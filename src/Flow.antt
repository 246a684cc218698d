-- ===== src/Flow.antt =====
-- The flow control that both programs put on a direction of a session: a counter of the buffers that
-- wait to be sent on, and a flag that says that receiving is blocked.
use r_nat.Common.{
  ℕ, ◌+◌, ◌-◌, ◌/◌, ◌^◌, ◌≤◌, ◌<◌, ◌≡◌, refl, sym, ap, ◌∙◌, subst, Bool, true, false, ◌&&◌, ◌||◌,
  not, ltb, leb, List, [], ◌∷◌, Option, none, some, if◌then◌else◌, arith, ◌⊎◌, inl, inr,
}

-- The flag after one more buffer, and after one less.
abbrev pub corks : ℕ → ℕ → Bool → Bool
corks limit traffic corked = corked || ltb limit (traffic + 1)

abbrev pub stays : ℕ → ℕ → Bool → Bool
stays limit traffic corked = corked && not (leb (traffic - 1) (limit / 2))

-- What a direction of a session offers: its counter and its flag, whether BlockRecv was last called
-- with `true`, what the arrival of a buffer does
-- to them, and what the completion of the send of one does, in the states that are `fit`.
pub record Cork (S : Type 0) : Type 1 where
  pub fit : S → Type 0
  pub limit : ℕ
  pub traffic : S → ℕ
  pub corked : S → Bool
  pub blocked : S → Bool
  pub arrive : S → S
  pub leave : S → S
  pub limited : 0 < limit
  pub arrive_counts :
      (s : S)
      → fit s
      → traffic s + 1 < 2 ^ 32
      → fit (arrive s)
        × (traffic (arrive s) ≡ traffic s + 1)
        × (corked (arrive s) ≡ corks limit (traffic s) (corked s))
  pub leave_counts :
      (s : S)
      → fit s
      → 0 < traffic s
      → traffic s < 2 ^ 32
      → fit (leave s)
        × (traffic (leave s) ≡ traffic s - 1)
        × (corked (leave s) ≡ stays limit (traffic s) (corked s))
  pub arrive_tells : (s : S) → fit s → blocked s ≡ corked s → blocked (arrive s) ≡ corked (arrive s)
  pub leave_tells : (s : S) → fit s → blocked s ≡ corked s → blocked (leave s) ≡ corked (leave s)

-- Receiving is open only while at most `limit` buffers wait, and blocked only while more than half
-- of `limit` do.
pub record IsBalanced (limit traffic : ℕ) (corked : Bool) : Type 0 where
  pub open_below : corked ≡ false → traffic ≤ limit
  pub blocked_above : corked ≡ true → limit / 2 < traffic

corks-IsBalanced :
    (limit traffic : ℕ) (corked : Bool)
    → IsBalanced limit traffic corked
    → IsBalanced limit (traffic + 1) (corks limit traffic corked)
corks-IsBalanced limit traffic corked h = ground arith

stays-IsBalanced :
    (limit traffic : ℕ) (corked : Bool)
    → IsBalanced limit traffic corked
    → IsBalanced limit (traffic - 1) (stays limit traffic corked)
stays-IsBalanced limit traffic corked h = ground arith

-- Blocked with more than half of the limit waiting, or open with at most the limit.
abbrev pub Limited : (limit traffic : ℕ) → Bool → Type 0
Limited limit traffic corked =
    ((corked ≡ true) × (limit / 2 < traffic)) ⊎ ((corked ≡ false) × (traffic ≤ limit))

IsBalanced-Limited :
    (limit traffic : ℕ) (corked : Bool)
    → IsBalanced limit traffic corked
    → Limited limit traffic corked
IsBalanced-Limited limit traffic true h = inl (refl, h.blocked_above refl)
IsBalanced-Limited limit traffic false h = inr (refl, h.open_below refl)

pub data Traffic : Type 0 where
  arrives leaves : Traffic

-- How many buffers wait after a history, if no send completes that was not begun and the counter
-- does not wrap.
unfoldable pub waiting : ℕ → List Traffic → Option ℕ
waiting n [] = some n
waiting n (arrives ∷ ms) =
    let rest = waiting (n + 1) ms in if ltb (n + 1) (2 ^ 32) then rest else none
waiting n (leaves ∷ ms) = let rest = waiting (n - 1) ms in if ltb 0 n then rest else none

module _ {S : Type 0} (k : Cork S) where
  unfoldable pub exchange : List Traffic → S → S
  exchange [] s = s
  exchange (arrives ∷ ms) s = exchange ms (k.arrive s)
  exchange (leaves ∷ ms) s = exchange ms (k.leave s)

  abbrev pub Balanced : S → Type 0
  Balanced s = IsBalanced k.limit (k.traffic s) (k.corked s)

  arrive-Balanced :
      (s : S) → k.fit s → k.traffic s + 1 < 2 ^ 32 → Balanced s → Balanced (k.arrive s)
  arrive-Balanced s f w h =
      let c = k.arrive_counts s f w in
      subst (IsBalanced k.limit (k.traffic (k.arrive s))) (sym c.2) (
        subst (λ n. IsBalanced k.limit n (corks k.limit (k.traffic s) (k.corked s))) (sym c.1)
          (corks-IsBalanced k.limit (k.traffic s) (k.corked s) h))

  leave-Balanced :
      (s : S) → k.fit s → 0 < k.traffic s → k.traffic s < 2 ^ 32 → Balanced s → Balanced (k.leave s)
  leave-Balanced s f p w h =
      let c = k.leave_counts s f p w in
      subst (IsBalanced k.limit (k.traffic (k.leave s))) (sym c.2) (
        subst (λ n. IsBalanced k.limit n (stays k.limit (k.traffic s) (k.corked s))) (sym c.1)
          (stays-IsBalanced k.limit (k.traffic s) (k.corked s) h))

  -- What holds of a direction between two buffers: it is balanced, and the flag tells what BlockRecv
  -- was called with last.
  record IsWell (s : S) : Type 0 where
    well_fit : k.fit s
    fits : k.traffic s < 2 ^ 32
    balanced : Balanced s
    told : k.blocked s ≡ k.corked s

  -- A direction stays well, and its counter counts the buffers that wait.
  exchange-IsWell :
      (ms : List Traffic) (s : S) (n : ℕ)
      → IsWell s
      → waiting (k.traffic s) ms ≡ some n
      → (k.traffic (exchange ms s) ≡ n) × IsWell (exchange ms s)
  unfolding exchange waiting
  exchange-IsWell [] s n h e = (ground arith, h)
  exchange-IsWell (arrives ∷ ms) s n h e =
      let w : k.traffic s + 1 < 2 ^ 32 = ground arith in
      let c = k.arrive_counts s h.well_fit w in
      exchange-IsWell ms (k.arrive s) n
        (record {
          well_fit = c.0;
          fits = omega (arith, c.1);
          balanced = arrive-Balanced s h.well_fit w h.balanced;
          told = k.arrive_tells s h.well_fit h.told;
        })
        (subst (λ t. waiting t ms ≡ some n) (sym c.1) (ground arith))
  exchange-IsWell (leaves ∷ ms) s n h e =
      let some_wait : 0 < k.traffic s = ground arith in
      let c = k.leave_counts s h.well_fit some_wait h.fits in
      let f = h.fits in
      exchange-IsWell ms (k.leave s) n
        (record {
          well_fit = c.0;
          fits = omega (arith, c.1, f);
          balanced = leave-Balanced s h.well_fit some_wait h.fits h.balanced;
          told = k.leave_tells s h.well_fit h.told;
        })
        (subst (λ t. waiting t ms ≡ some n) (sym c.1) (ground arith))

  -- From an idle, open direction the counter counts the buffers that wait, and receiving is blocked
  -- only while more than half of the limit wait, and open only while at most the limit wait.
  pub never_stalls :
      (ms : List Traffic) (s : S) (n : ℕ)
      → k.fit s
      → k.traffic s ≡ 0
      → k.corked s ≡ false
      → k.blocked s ≡ false
      → waiting 0 ms ≡ some n
      → (k.traffic (exchange ms s) ≡ n) × Limited k.limit n (k.blocked (exchange ms s))
  never_stalls ms s n f z o b e =
      let start : Balanced s = record {
        open_below = λ c. omega arith;
        blocked_above = λ c. absurd (cc);
      } in
      let well : IsWell s = record {
        well_fit = f;
        fits = omega arith;
        balanced = start;
        told = b ∙ sym o;
      } in
      let (counts, t) = exchange-IsWell ms s n well (ap (λ t. waiting t ms) z ∙ e) in
      let r =
        subst (Limited k.limit (k.traffic (exchange ms s))) (sym t.told)
          (IsBalanced-Limited k.limit _ _ t.balanced) in
      (counts, subst (λ t. Limited k.limit t (k.blocked (exchange ms s))) counts r)

-- ===== src/Server/Picking.antt =====
-- GetIoService of server.h.
use native.Mathlib.Nat.{mod-eq_of_lt, mod-eq-sub-mod}
use r_nat.Common.{
  ℕ, zero, suc, ◌+◌, ◌%◌, ◌^◌, ◌<◌, ◌≤◌, ◌≡◌, refl, ap, ◌∙◌, some, List, [], ◌∷◌, false, ◌==◌,
  if◌then◌else◌, length, ltb, arith,
}
use r_nat.Server.{Server, get_io_service, get_io_services}

abbrev hit : ℕ → ℕ → ℕ
hit k x = if x == k then 1 else 0

-- How often a number stands in a list.
unfoldable pub times : ℕ → List ℕ → ℕ
times k [] = 0
times k (x ∷ xs) = hit k x + times k xs

-- The remainders of `m` numbers from `a` on.
unfoldable pub remainders : (n a m : ℕ) → List ℕ
remainders n a zero = []
remainders n a (suc m) = a % n ∷ remainders n (suc a) m

times-snoc :
    (n k m a : ℕ)
    → times k (remainders n a (suc m)) ≡ times k (remainders n a m) + hit k ((a + m) % n)
unfolding times remainders
times-snoc n k zero a = let e : a + 0 ≡ a = omega arith in rw e (omega arith)
times-snoc n k (suc m) a =
    let e : suc a + m ≡ a + suc m = omega arith in
    let h : times k (remainders n (suc a) (suc m))
        ≡ times k (remainders n (suc a) m) + hit k ((a + suc m) % n) =
      times-snoc n k m (suc a) ∙ ap (λ x. times k (remainders n (suc a) m) + hit k (x % n)) e in
    omega (arith, h)

-- A window of length `n` may be moved on by one.
times-shift : (n k a : ℕ) → times k (remainders n (suc a) n) ≡ times k (remainders n a n)
unfolding times remainders
times-shift n k a =
    let back : (a + n) % n ≡ a % n = mod-eq-sub-mod (omega arith) ∙ ap (λ x. x % n) (omega arith) in
    let h : hit k (a % n) + times k (remainders n (suc a) n)
        ≡ times k (remainders n a n) + hit k (a % n) =
      times-snoc n k n a ∙ ap (λ x. times k (remainders n a n) + hit k x) back in
    omega (arith, h)

below : (n k m : ℕ) → m ≤ n → times k (remainders n 0 m) ≡ (if ltb k m then 1 else 0)
unfolding times remainders
below n k zero h = ground arith
below n k (suc m) h =
    let last : (0 + m) % n ≡ m = ap (λ x. x % n) (omega arith) ∙ mod-eq_of_lt (omega (arith, h)) in
    times-snoc n k m 0 ∙ ground (arith, below n k m (omega (arith, h)), last)

window : (n k a : ℕ) → k < n → times k (remainders n a n) ≡ 1
window n k zero h = below n k n (omega arith) ∙ ground (arith, h)
window n k (suc a) h = times-shift n k a ∙ window n k a h

length-remainders : (n m a : ℕ) → length (remainders n a m) ≡ m
unfolding remainders
length-remainders n zero a = refl
length-remainders n (suc m) a = omega (arith, length-remainders n m (suc a))

get_io_service_lem :
    (s : Server)
    → 0 < s.pool
    → s.next_ioservice + 1 < 2 ^ 64
    → get_io_service s
      ≡ some (s.next_ioservice % s.pool, record s { next_ioservice = s.next_ioservice + 1 })
unfolding get_io_service
get_io_service_lem s p h =
    let no_wrap : (s.next_ioservice + 1) % 2 ^ 64 ≡ s.next_ioservice + 1 = omega (arith, h) in
    let some_pool : (s.pool == 0) ≡ false = ground (arith, p) in rw (some_pool, no_wrap) refl

pub picks :
    (m : ℕ) (s : Server)
    → 0 < s.pool
    → s.next_ioservice + m < 2 ^ 64
    → get_io_services m s
      ≡ some
          (remainders s.pool s.next_ioservice m, record s { next_ioservice = s.next_ioservice + m })
unfolding get_io_services get_io_service remainders
picks zero s p h =
    let e : s.next_ioservice ≡ s.next_ioservice + 0 = omega arith in
    ap (λ x. some ([], record s { next_ioservice = x })) e
picks (suc m) s p h =
    let t = record s { next_ioservice = s.next_ioservice + 1 } in
    let first : get_io_service s ≡ some (s.next_ioservice % s.pool, t) =
      get_io_service_lem s p (omega (arith, h)) in
    let one : s.next_ioservice + 1 ≡ suc s.next_ioservice = omega arith in
    let end : s.next_ioservice + 1 + m ≡ s.next_ioservice + suc m = omega arith in
    let rest = picks m t p (omega (arith, h)) in
    rw (first, rest)
      (ap
          (λ x. some (
            s.next_ioservice % s.pool ∷ remainders s.pool x m,
            record s { next_ioservice = s.next_ioservice + 1 + m },
          ))
          one
        ∙ ap
            (λ x. some (
              s.next_ioservice % s.pool ∷ remainders s.pool (suc s.next_ioservice) m,
              record s { next_ioservice = x },
            ))
            end)

-- As many calls of GetIoService in a row as there are io_services give each of them exactly once.
pub record IsFair (s : Server) : Type 0 where
  pub given : List ℕ
  pub after : Server
  pub picked : get_io_services s.pool s ≡ some (given, after)
  pub all : length given ≡ s.pool
  pub once : (k : ℕ) → k < s.pool → times k given ≡ 1

pub get_io_services-IsFair :
    (s : Server) → 0 < s.pool → s.next_ioservice + s.pool < 2 ^ 64 → IsFair s
get_io_services-IsFair s p h = record {
  given = remainders s.pool s.next_ioservice s.pool;
  after = record s { next_ioservice = s.next_ioservice + s.pool };
  picked = picks s.pool s p h;
  all = length-remainders s.pool s.pool s.next_ioservice;
  once = λ k l. window s.pool k s.next_ioservice l;
}

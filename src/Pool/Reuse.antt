-- ===== src/Pool/Reuse.antt =====
-- Who holds the buffers that __CreateIoBuffer of r-nat-s/app1/app1.cpp hands out.
use r_nat.Common.{
  ℕ, ◌≡◌, refl, inl, inr, List, [], ◌∷◌, ◌++◌, Bool, true, false, ◌||◌, ◌==◌, Store, update, arith,
  Bool-cases,
}
use r_nat.Protocol.{Bytes}
use r_nat.Pool.{Pool, take_buffer, create_io_buffer, release, fill, set_pooling}

abbrev pub member : ℕ → List ℕ → Bool
member p [] = false
member p (q ∷ qs) = q == p || member p qs

abbrev pub IsDistinct : List ℕ → Type 0
IsDistinct [] = Unit {0}
IsDistinct (q ∷ qs) = (member q qs ≡ false) × IsDistinct qs

-- A pool with the buffers that are in use.
pub record Held : Type 0 where
  pub pool : Pool
  pub in_use : Store Bool

-- No buffer is pooled twice; a pooled buffer is empty and nobody uses it.
pub record IsSound (h : Held) : Type 0 where
  pub distinct : IsDistinct h.pool.buffer_pool
  pub unused : (p : ℕ) → member p h.pool.buffer_pool ≡ true → h.in_use p ≡ false
  pub empty : (p : ℕ) → member p h.pool.buffer_pool ≡ true → h.pool.content p ≡ []

abbrev pub created : ℕ → Held → Held
created fresh h =
    let r = create_io_buffer fresh h.pool in
    record { pool = r.0; in_use = update h.in_use r.1 true }

abbrev pub released : ℕ → Held → Held
released p h = record { pool = release p h.pool; in_use = update h.in_use p false }

-- What happens to a pool: operator new gives no address that is still allocated, a buffer is written
-- by who uses it, and is released once.
pub data Step : Held → Held → Type 0 where
  creates :
      (h : Held) (fresh : ℕ)
      → member fresh h.pool.buffer_pool ≡ false
      → h.in_use fresh ≡ false
      → Step h (created fresh h)
  fills :
      (h : Held) (p : ℕ) (bs : Bytes)
      → h.in_use p ≡ true
      → Step h (record h { pool = fill p bs h.pool })
  releases : (h : Held) (p : ℕ) → h.in_use p ≡ true → Step h (released p h)
  sets : (h : Held) (b : Bool) → Step h (record h { pool = set_pooling b h.pool })

pub data Reach (s : Held) : Held → Type 0 where
  here : Reach s s
  next : {t u : Held} → Reach s t → Step t u → Reach s u

member-append : (p q : ℕ) (qs : List ℕ) → member p (qs ++ q ∷ []) ≡ (member p qs || q == p)
member-append p q [] = ground arith
member-append p q (r ∷ qs) = ground (arith, member-append p q qs)

IsDistinct-append :
    (q : ℕ) (qs : List ℕ) → IsDistinct qs → member q qs ≡ false → IsDistinct (qs ++ q ∷ [])
IsDistinct-append q [] h n = (refl, tt)
IsDistinct-append q (r ∷ qs) h n =
    (ground (arith, member-append r q qs), IsDistinct-append q qs h.1 (ground arith))

-- What a created buffer is like, by the pool it came from.
created_from :
    (fresh : ℕ) (h : Held) (free : List ℕ)
    → h.pool.buffer_pool ≡ free
    → h.in_use fresh ≡ false
    → member fresh free ≡ false
    → IsDistinct free
    → ((p : ℕ) → member p free ≡ true → h.in_use p ≡ false)
    → ((p : ℕ) → member p free ≡ true → h.pool.content p ≡ [])
    → let r = take_buffer free fresh h.pool in
      IsSound (record { pool = r.0; in_use = update h.in_use r.1 true })
      × (h.in_use r.1 ≡ false)
      × (r.0.content r.1 ≡ [])
created_from fresh h [] e u m d unused empty = (
  record {
    distinct = rw e tt;
    unused = λ p x. absurd (ground (arith, e));
    empty = λ p x. absurd (ground (arith, e));
  },
  u,
  ground arith,
)
created_from fresh h (q ∷ rest) e u m d unused empty = (
  record {
    distinct = d.1;
    unused = λ p x. ground (arith, unused p, d.0);
    empty = λ p x. ground (arith, empty p);
  },
  unused q (ground arith),
  empty q (ground arith),
)

creates-IsSound :
    (fresh : ℕ) (h : Held)
    → member fresh h.pool.buffer_pool ≡ false
    → h.in_use fresh ≡ false
    → IsSound h
    → IsSound (created fresh h)
      × (h.in_use (create_io_buffer fresh h.pool).1 ≡ false)
      × ((create_io_buffer fresh h.pool).0.content (create_io_buffer fresh h.pool).1 ≡ [])
unfolding create_io_buffer
creates-IsSound fresh h m u s =
    created_from fresh h h.pool.buffer_pool refl u m s.distinct s.unused s.empty

-- A buffer in use is not in the pool.
used-absent :
    (p : ℕ) (h : Held) → h.in_use p ≡ true → IsSound h → member p h.pool.buffer_pool ≡ false
used-absent p h u s = elim (Bool-cases (member p h.pool.buffer_pool)) [
  | inl m ↦ absurd (ground (arith, s.unused p m))
  | inr m ↦ m
]

releases-IsSound : (p : ℕ) (h : Held) → h.in_use p ≡ true → IsSound h → IsSound (released p h)
unfolding release
releases-IsSound p h u s =
    let absent = used-absent p h u s in
    elim (Bool-cases h.pool.enable_buffer_pooling) [
      | inl b ↦
          rw (b, release)
            (record {
              distinct = IsDistinct-append p h.pool.buffer_pool s.distinct absent;
              unused = λ q x. ground (arith, member-append q p h.pool.buffer_pool, s.unused q);
              empty = λ q x. ground (arith, member-append q p h.pool.buffer_pool, s.empty q);
            })
      | inr b ↦
          rw (b, release)
            (record {
              distinct = s.distinct;
              unused = λ q x. ground (arith, s.unused q);
              empty = λ q x. s.empty q x;
            })
    ]

Step-IsSound : {h k : Held} → Step h k → IsSound h → IsSound k
Step-IsSound (creates h fresh m u) s = (creates-IsSound fresh h m u s).0
Step-IsSound (fills h p bs u) s = record {
  distinct = s.distinct;
  unused = s.unused;
  empty = λ q x. ground (arith, used-absent p h u s, s.empty q);
}
Step-IsSound (releases h p u) s = releases-IsSound p h u s
Step-IsSound (sets h b) s = record { distinct = s.distinct; unused = s.unused; empty = s.empty }

Reach-IsSound : {h k : Held} → IsSound h → Reach h k → IsSound k
Reach-IsSound s here = s
Reach-IsSound s (next r st) = Step-IsSound st (Reach-IsSound s r)

-- Over every history of a pool that starts empty, in which buffers are created, written, released,
-- and pooling is switched on and off, the next buffer that is handed out is used by nobody else and
-- is empty.
pub create_io_buffer-unused :
    {h k : Held} (fresh : ℕ)
    → h.pool.buffer_pool ≡ []
    → Reach h k
    → member fresh k.pool.buffer_pool ≡ false
    → k.in_use fresh ≡ false
    → let r = create_io_buffer fresh k.pool in (k.in_use r.1 ≡ false) × (r.0.content r.1 ≡ [])
create_io_buffer-unused {h} {k} fresh e r m u =
    let start : IsSound h = record {
      distinct = rw e tt;
      unused = λ p x. absurd (ground (arith, e));
      empty = λ p x. absurd (ground (arith, e));
    } in
    let c = creates-IsSound fresh k m u (Reach-IsSound start r) in (c.1, c.2)

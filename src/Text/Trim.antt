-- ===== src/Text/Trim.antt =====
-- trim of r-nat-s/stdafx.h.
use r_nat.Common.{
  ℕ, zero, suc, ◌+◌, ◌-◌, ◌≡◌, ◌≢◌, refl, sym, ap, ◌∙◌, none, some, [], ◌∷◌, ◌++◌, length, arith,
  take, drop, take-length-append, drop-length-append, length-append, append_assoc,
}
use r_nat.Protocol.{Bytes}
use r_nat.Text.{space, find_first_not_of, find_last_not_of, trim}

abbrev pub spaces : ℕ → Bytes
spaces zero = []
spaces (suc n) = space ∷ spaces n

length-spaces : (n : ℕ) → length (spaces n) ≡ n
length-spaces zero = refl
length-spaces (suc n) = omega (arith, length-spaces n)

first-spaces :
    (n c : ℕ) (rest : Bytes) → c ≢ space → find_first_not_of space (spaces n ++ c ∷ rest) ≡ some n
unfolding find_first_not_of
first-spaces zero c rest h = ground arith
first-spaces (suc n) c rest h = ground (arith, first-spaces n c rest h)

first-blank : (n : ℕ) → find_first_not_of space (spaces n) ≡ none
unfolding find_first_not_of
first-blank zero = refl
first-blank (suc n) = ground (arith, first-blank n)

last-blank : (n : ℕ) → find_last_not_of space (spaces n) ≡ none
unfolding find_last_not_of
last-blank zero = refl
last-blank (suc n) = ground (arith, last-blank n)

last-spaces :
    (front : Bytes) (d n : ℕ)
    → d ≢ space
    → find_last_not_of space (front ++ d ∷ spaces n) ≡ some (length front)
unfolding find_last_not_of
last-spaces [] d n h = ground (arith, last-blank n)
last-spaces (b ∷ front) d n h = ground (arith, last-spaces front d n h)

cut_lem :
    (n m k : ℕ) (core : Bytes)
    → k + 1 ≡ length core
    → take (n + k - n + 1) (drop n (spaces n ++ (core ++ spaces m))) ≡ core
cut_lem n m k core h =
    let len : n + k - n + 1 ≡ length core = omega arith in
    let dropped : drop n (spaces n ++ (core ++ spaces m)) ≡ core ++ spaces m =
      ap (λ i. drop i (spaces n ++ (core ++ spaces m))) (sym (length-spaces n))
      ∙ drop-length-append (spaces n) (core ++ spaces m) in
    ap (λ i. take i (drop n (spaces n ++ (core ++ spaces m)))) len
    ∙ ap (take (length core)) dropped
    ∙ take-length-append core (spaces m)

-- trim takes exactly the blanks off both ends: of a text that begins and ends with no blank, between
-- any number of blanks, it gives that text, blanks inside included.
pub trim-spaces :
    (n m c d : ℕ) (core rest front : Bytes)
    → core ≡ c ∷ rest
    → core ≡ front ++ d ∷ []
    → c ≢ space
    → d ≢ space
    → trim (spaces n ++ (core ++ spaces m)) ≡ some core
unfolding trim
trim-spaces n m c d core rest front e f hc hd =
    let first : find_first_not_of space (spaces n ++ (core ++ spaces m)) ≡ some n =
      ap (λ t. find_first_not_of space (spaces n ++ (t ++ spaces m))) e
      ∙ first-spaces n c (rest ++ spaces m) hc in
    let shape : spaces n ++ (core ++ spaces m) ≡ (spaces n ++ front) ++ d ∷ spaces m =
      ap (λ t. spaces n ++ (t ++ spaces m)) f ∙ simp append_assoc in
    let last : find_last_not_of space (spaces n ++ (core ++ spaces m)) ≡ some (n + length front) =
      ap (find_last_not_of space) shape
      ∙ last-spaces (spaces n ++ front) d m hd
      ∙ ap some (omega (arith, length-append (spaces n) front, length-spaces n)) in
    let size : length front + 1 ≡ length core =
      omega (arith, ap length f, length-append front (d ∷ [])) in
    rw (first, last, trim) (ap some (cut_lem n m (length front) core size))

-- Of a text of blanks alone, also of the empty one, trim throws.
pub trim-blank : (n : ℕ) → trim (spaces n) ≡ none
unfolding trim
trim-blank n = rw (first-blank n, trim) refl

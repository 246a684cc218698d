-- ===== src/Text.antt =====
-- What both programs do with texts: trim of stdafx.h, and the comparison of LoadPolicy in config.h. A
-- std::string is the list of its bytes. `none` is an exception.
pub mod Trim
use r_nat.Common.{
  ℕ, suc, ◌+◌, ◌-◌, Option, none, some, List, [], ◌∷◌, Bool, true, false, ◌&&◌, ◌==◌, leb,
  if◌then◌else◌, take, drop,
}
use r_nat.Protocol.{Bytes}

abbrev pub space : ℕ
space = 32

-- find_first_not_of(' ') and find_last_not_of(' '), `none` for npos.
abbrev next_index : Option ℕ → Option ℕ
next_index none = none
next_index (some i) = some (suc i)

unfoldable pub find_first_not_of : ℕ → Bytes → Option ℕ
find_first_not_of c [] = none
find_first_not_of c (b ∷ bs) =
    let rest = next_index (find_first_not_of c bs) in if b == c then rest else some 0

unfoldable pub find_last_not_of : ℕ → Bytes → Option ℕ
find_last_not_of c [] = none
find_last_not_of c (b ∷ bs) = elim (find_last_not_of c bs) [
  | none ↦ if b == c then none else some 0
  | some i ↦ some (suc i)
]

-- substr(first, last - first + 1): it throws where `first` is npos.
abbrev cut : Option ℕ → Option ℕ → Bytes → Option Bytes
cut none last s = none
cut (some first) none s = some (drop first s)
cut (some first) (some last) s = some (take (last - first + 1) (drop first s))

unfoldable pub trim : Bytes → Option Bytes
unfolding find_first_not_of find_last_not_of
trim s = cut (find_first_not_of space s) (find_last_not_of space s) s

abbrev to_lower : ℕ → ℕ
to_lower c = if leb 65 c && leb c 90 then c + 32 else c

-- `!_stricmp(s, t)`.
unfoldable pub same_text : Bytes → Bytes → Bool
same_text [] [] = true
same_text (a ∷ others) (b ∷ bs) = let rest = same_text others bs in to_lower a == to_lower b && rest
same_text _ _ = false

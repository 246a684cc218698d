-- ===== src/Balance.antt =====
-- fnv_hash_int of r-nat-s/stdafx.h (also in r-nat-c) and the wrapping counters of both programs.
use Prim.Native.Nat.{bit_xor}
use r_nat.Common.{ℕ, ◌+◌, ◌-◌, ◌*◌, ◌%◌, ◌^◌, Bool, ◌&&◌, [], ◌∷◌, leb, if◌then◌else◌}
use r_nat.Protocol.{Bytes, put_u32}

-- std::atomic<uint32_t> ++ and --.
unfoldable pub inc32 : ℕ → ℕ
inc32 n = (n + 1) % 2 ^ 32

unfoldable pub dec32 : ℕ → ℕ
dec32 n = (n + 2 ^ 32 - 1) % 2 ^ 32

-- A byte read as `char`, promoted and converted to unsigned int. Whether `char` is signed is up to
-- the target.
unfoldable pub char_value : Bool → ℕ → ℕ
char_value signed b = if signed && leb 128 b then 2 ^ 32 - 256 + b else b

-- The loop of fnv_hash_int: `hash = hash ^ (*p) * FNVMultiple`, where `*` binds tighter than `^`.
unfoldable pub fnv_loop : Bool → ℕ → Bytes → ℕ
unfolding char_value
fnv_loop signed hash [] = hash
fnv_loop signed hash (b ∷ bs) =
    fnv_loop signed (bit_xor hash ((char_value signed b * 16777619) % 2 ^ 32)) bs

unfoldable pub fnv_hash_int : Bool → ℕ → ℕ
unfolding fnv_loop
fnv_hash_int signed v = fnv_loop signed 2166136261 (put_u32 v [])

-- ===== src/Pool.antt =====
-- The pool of receive buffers: __CreateIoBuffer of r-nat-s/app1/app1.cpp, the same in r-nat-c/app1.
-- A streambuf is known by its address, and a store gives its bytes. `release` is what the deleter of
-- the shared pointer does when the last reference goes; the pool's lock makes each call one step.
pub mod Reuse
use r_nat.Common.{
  ℕ, List, [], ◌∷◌, ◌++◌, Bool, true, false, ◌||◌, ◌==◌, if◌then◌else◌, Store, update,
}
use r_nat.Protocol.{Bytes}

pub record Pool : Type 0 where
  pub enable_buffer_pooling : Bool
  pub buffer_pool : List ℕ
  pub content : Store Bytes
  pub deleted : List ℕ

-- The front of the pool, or where it is empty `new asio::streambuf` at the address `fresh`.
abbrev pub take_buffer : List ℕ → ℕ → Pool → Pool × ℕ
take_buffer [] fresh s = (record s { content = update s.content fresh [] }, fresh)
take_buffer (p ∷ rest) fresh s = (record s { buffer_pool = rest }, p)

unfoldable pub create_io_buffer : ℕ → Pool → Pool × ℕ
create_io_buffer fresh s = take_buffer s.buffer_pool fresh s

-- The deleter.
unfoldable pub release : ℕ → Pool → Pool
release p s =
    if s.enable_buffer_pooling
    then record s { content = update s.content p []; buffer_pool = s.buffer_pool ++ p ∷ [] }
    else record s { deleted = p ∷ s.deleted }

-- The user of a buffer writes to it.
abbrev pub fill : ℕ → Bytes → Pool → Pool
fill p bs s = record s { content = update s.content p bs }

-- Start and Stop of AppLogic1 set the flag.
abbrev pub set_pooling : Bool → Pool → Pool
set_pooling b s = record s { enable_buffer_pooling = b }

-- ===== src/Casts/Bounds.antt =====
-- The sizes of the two tables, src/compiler-rt-files/hextype.h and hextype.cc.
use hex_type.Prelude.{ℕ, ◌<◌, arith}
use hex_type.Runtime.{get_hash, nummap, numcache}
use hex_type.Casts.{cache_index}

-- For any address and any two hashes, the index into the object map and the index into the cache of
-- verdicts are below the numbers of elements that the tables are allocated with.
pub indices_bound : (a src dst : ℕ) → (get_hash a < nummap) × (cache_index src dst < numcache)
unfolding get_hash cache_index
indices_bound a src dst = (omega arith, omega arith)

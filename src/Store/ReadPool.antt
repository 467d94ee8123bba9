-- ===== src/Store/ReadPool.antt =====
-- src/store/read_pool.rs: a pool of read-only connections. The mutex makes `take` and `put` steps
-- of their own; the vector of idle connections is a list with its last element first.
use minisqlite.Base.{ℕ, Bytes, List, [], ◌∷◌, length, ltb, Result, ok, if◌then◌else◌}
use minisqlite.Errors.{StorageError}

abbrev pub default_read_pool_size : ℕ
default_read_pool_size = 4

pub record ReadPool (Connection : Type 0) : Type 0 where
  pub path : Bytes
  pub idle : List Connection
  pub max_idle : ℕ

module _ {Connection : Type 0} where
  unfoldable pub new : Bytes → ℕ → ReadPool Connection
  new path max_idle = record { path = path; idle = []; max_idle = max_idle }

  abbrev pub pop :
      Result Connection StorageError
      → ReadPool Connection
      → List Connection
      → Result Connection StorageError × ReadPool Connection
  pop opened pool [] = (opened, pool)
  pop opened pool (c ∷ cs) = (ok c, record pool { idle = cs })

  -- `take`; `opened` is what `connection::open_reader` returns if it is called.
  unfoldable pub take :
      Result Connection StorageError
      → ReadPool Connection
      → Result Connection StorageError × ReadPool Connection
  take opened pool = pop opened pool pool.idle

  unfoldable pub put : Connection → ReadPool Connection → ReadPool Connection
  put c pool =
      if ltb (length pool.idle) pool.max_idle then record pool { idle = c ∷ pool.idle } else pool

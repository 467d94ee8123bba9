-- ===== src/Store/Events/Cursor.antt =====
-- The cursor of `events_after` (src/store/events.rs).
use minisqlite.Base.{ℕ, ◌≤◌, ◌<◌, ◌^◌, ◌≡◌, refl, ap, Bool, true, ltb, as_i64, List, [], ◌∷◌, arith}
use minisqlite.Sql.{select, order_by, limit_rows}
use minisqlite.Event.{PersistedEvent}
use minisqlite.Store.Schema.{Db}
use minisqlite.Store.Events.{events_after, by_global_sequence}

select_all :
    (p : PersistedEvent → Bool) (xs : List PersistedEvent)
    → ((e : PersistedEvent) → p e ≡ true)
    → select p xs ≡ xs
unfolding select
select_all p [] h = refl
select_all p (x ∷ xs) h = rw (h x, select_all p xs h) refl

select_same :
    (p q : PersistedEvent → Bool) (xs : List PersistedEvent)
    → ((e : PersistedEvent) → p e ≡ q e)
    → select p xs ≡ select q xs
unfolding select
select_same p q [] h = refl
select_same p q (x ∷ xs) h = rw (h x, select_same p q xs h) refl

-- For a cursor from 2 ^ 63 on, `events_after` hides no event: it returns all of them, in the
-- order of their global sequence and up to the limit.
pub events_after-wraps :
    (db : Db) (after limit : ℕ)
    → 2 ^ 63 ≤ after
    → events_after db after limit
      ≡ limit_rows (as_i64 limit) (order_by by_global_sequence db.events)
unfolding events_after as_i64
events_after-wraps db after limit h =
    ap (λ rows. limit_rows (as_i64 limit) (order_by by_global_sequence rows))
      (select_all _ db.events (λ e. ground arith))

-- For a cursor below 2 ^ 63, `events_after` returns the events with a greater global sequence,
-- in that order and up to the limit.
pub events_after-select :
    (db : Db) (after limit : ℕ)
    → after < 2 ^ 63
    → events_after db after limit
      ≡ limit_rows
          (as_i64 limit)
          (order_by by_global_sequence (select (λ e. ltb after e.global_sequence) db.events))
unfolding events_after as_i64
events_after-select db after limit h =
    ap (λ rows. limit_rows (as_i64 limit) (order_by by_global_sequence rows))
      (select_same _ _ db.events (λ e. ground arith))

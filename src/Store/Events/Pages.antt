-- ===== src/Store/Events/Pages.antt =====
-- Reading the event log of src/store/events.rs page by page.
use minisqlite.Base.{
  ℕ, zero, suc, ◌≤◌, ◌<◌, ◌+◌, ◌^◌, ◌≡◌, refl, ap, ◌∙◌, true, false, Bool-cases, inl, inr, ltb,
  as_i64, List, [], ◌∷◌, ◌++◌, take, All, arith,
}
use minisqlite.Sql.{select, limit_rows}
use minisqlite.Sql.Rows.{All-select}
use minisqlite.Event.{PersistedEvent}
use minisqlite.Store.Schema.{Db}
use minisqlite.Store.Events.{events_after}
use minisqlite.Store.Events.Cursor.{events_after-select}
use minisqlite.Store.Ops.Complete.{Increasing, Increasing-weaken, order_by-Increasing}

abbrev pub sequence : PersistedEvent → ℕ
sequence e = e.global_sequence

-- The sequence of the last event of a page, or the cursor before it.
abbrev pub cursor : ℕ → List PersistedEvent → ℕ
cursor after [] = after
cursor after (e ∷ es) = cursor e.global_sequence es

newer : ℕ → List PersistedEvent → List PersistedEvent
newer after es = select (λ e. ltb after e.global_sequence) es

newer_all :
    (after : ℕ) (es : List PersistedEvent) → Increasing sequence after es → newer after es ≡ es
unfolding newer select
newer_all after [] h = refl
newer_all after (e ∷ es) h =
    let t : ltb after e.global_sequence ≡ true = ground (arith, h.0) in
    rw t (
      ap (λ r. e ∷ r)
        (newer_all after es
          (Increasing-weaken sequence after e.global_sequence es (omega (arith, h.0)) h.1)))

newer-Increasing :
    (n after : ℕ) (es : List PersistedEvent)
    → Increasing sequence n es
    → Increasing sequence n (newer after es)
unfolding newer select
newer-Increasing n after [] h = tt
newer-Increasing n after (e ∷ es) h =
    let k = newer-Increasing e.global_sequence after es h.1 in
    elim (Bool-cases (ltb after e.global_sequence)) [
      | inl b ↦ rw b (h.0, k)
      | inr b ↦
          rw b
            (Increasing-weaken sequence n e.global_sequence (newer after es) (omega (arith, h.0)) k)
    ]

newer_after :
    (n after : ℕ) (es : List PersistedEvent)
    → Increasing sequence n es
    → Increasing sequence after (newer after es)
unfolding newer select
newer_after n after [] h = tt
newer_after n after (e ∷ es) h = elim (Bool-cases (ltb after e.global_sequence)) [
  | inl b ↦ rw b (ground (arith, b), newer-Increasing e.global_sequence after es h.1)
  | inr b ↦ rw b (newer_after e.global_sequence after es h.1)
]

cursor_grows :
    (m after : ℕ) (es : List PersistedEvent)
    → Increasing sequence after es
    → after ≤ cursor after (take m es)
cursor_grows zero after es h = omega arith
cursor_grows (suc m) after [] h = omega arith
cursor_grows (suc m) after (e ∷ es) h = omega (arith, h.0, cursor_grows m e.global_sequence es h.1)

cursor_below :
    (m w after : ℕ) (es : List PersistedEvent)
    → after < w
    → All (λ e. e.global_sequence < w) es
    → cursor after (take m es) < w
cursor_below zero w after es h k = h
cursor_below (suc m) w after [] h k = h
cursor_below (suc m) w after (e ∷ es) h k = cursor_below m w e.global_sequence es k.0 k.1

take_nil : (n : ℕ) → take {A = PersistedEvent} n [] ≡ []
take_nil zero = refl
take_nil (suc n) = refl

take_add : (m n : ℕ) → take {A = PersistedEvent} (m + n) [] ≡ take m [] ++ take n []
take_add m n = rw (take_nil (m + n), take_nil m, take_nil n) refl

newer-here :
    (after : ℕ) (e : PersistedEvent) (es : List PersistedEvent)
    → after < e.global_sequence
    → newer after (e ∷ es) ≡ e ∷ newer after es
unfolding newer select
newer-here after e es h =
    let t : ltb after e.global_sequence ≡ true = ground (arith, h) in rw t refl

newer-skip :
    (after : ℕ) (e : PersistedEvent) (es : List PersistedEvent)
    → e.global_sequence ≤ after
    → newer after (e ∷ es) ≡ newer after es
unfolding newer select
newer-skip after e es h =
    let t : ltb after e.global_sequence ≡ false = ground (arith, h) in rw t refl

-- Of a log that is newer than the cursor, the second page begins where the first one ended.
page_new :
    (m n after : ℕ) (e : PersistedEvent) (es : List PersistedEvent)
    → Increasing sequence e.global_sequence es
    → after < e.global_sequence
    → ((j : ℕ)
        → take (j + n) es ≡ take j es ++ take n (newer (cursor e.global_sequence (take j es)) es))
    → take (m + n) (e ∷ es)
      ≡ take m (e ∷ es) ++ take n (newer (cursor after (take m (e ∷ es))) (e ∷ es))
page_new zero n after e es h a p =
    let z : 0 + n ≡ n = omega arith in
    rw
      (
        z,
        newer-here after e es a,
        newer_all after es
            (Increasing-weaken sequence after e.global_sequence es (omega (arith, a)) h),
      )
      refl
page_new (suc m) n after e es h a p =
    let z : suc m + n ≡ suc (m + n) = omega arith in
    rw
      (
        z,
        newer-skip (cursor e.global_sequence (take m es)) e es
            (cursor_grows m e.global_sequence es h),
      )
      (ap (λ r. e ∷ r) (p m))

newer_nil : (after : ℕ) → newer after [] ≡ []
unfolding newer select
newer_nil after = refl

newer-pages :
    (k m n after : ℕ) (es : List PersistedEvent)
    → Increasing sequence k es
    → take (m + n) (newer after es)
      ≡ take m (newer after es) ++ take n (newer (cursor after (take m (newer after es))) es)
newer-pages k m n after [] h =
    rw (newer_nil after, newer_nil (cursor after (take m []))) (take_add m n)
newer-pages k m n after (e ∷ es) h =
    let s : ℕ = e.global_sequence in
    elim (Bool-cases (ltb after e.global_sequence)) [
      | inl b ↦
          let a : after < e.global_sequence = ground (arith, b) in
          let q : newer after (e ∷ es) ≡ e ∷ es =
            newer-here after e es a
            ∙ ap (λ r. e ∷ r)
                (newer_all after es
                  (Increasing-weaken sequence after s es (omega (arith, a)) h.1)) in
          let p : (j : ℕ)
              → take (j + n) es ≡ take j es ++ take n (newer (cursor s (take j es)) es) =
            λ j. rw (newer_all s es h.1) at (newer-pages s j n s es h.1) in
          rw q (page_new m n after e es h.1 a p)
      | inr b ↦
          let a : e.global_sequence ≤ after = ground (arith, b) in
          let g = cursor_grows m after (newer after es) (newer_after s after es h.1) in
          rw
            (
              newer-skip after e es a,
              newer-skip (cursor after (take m (newer after es))) e es (omega (arith, a, g)),
            )
            (newer-pages s m n after es h.1)
    ]

-- A page of a log that grows is its beginning above the cursor.
paged :
    (db : Db) (after limit : ℕ)
    → Increasing sequence 0 db.events
    → after < 2 ^ 63
    → limit < 2 ^ 63
    → events_after db after limit ≡ take limit (newer after db.events)
unfolding newer as_i64 limit_rows
paged db after limit h a l =
    let t : ltb limit (2 ^ 63) ≡ true = ground (arith, l) in
    events_after-select db after limit a
    ∙ rw
        (
          t,
          order_by-Increasing sequence 0 (newer after db.events)
              (newer-Increasing 0 after db.events h),
        )
        refl

-- When the global sequences of the events grow from above 0 and are below 2 ^ 63, then for a
-- cursor below 2 ^ 63 and two limits whose sum is below it: one read of `events_after` with the
-- sum of two limits is a read with the first limit followed by a read with the second from the
-- last sequence of the first page.
pub events_after-events_after :
    (db : Db) (after m n : ℕ)
    → Increasing sequence 0 db.events
    → All (λ e. e.global_sequence < 2 ^ 63) db.events
    → after < 2 ^ 63
    → m + n < 2 ^ 63
    → events_after db after (m + n)
      ≡ events_after db after m ++ events_after db (cursor after (events_after db after m)) n
unfolding newer
events_after-events_after db after m n h w a l =
    let first = paged db after m h a (omega (arith, l)) in
    let c = cursor after (take m (newer after db.events)) in
    let below : c < 2 ^ 63 =
      cursor_below m (2 ^ 63) after (newer after db.events) a
        (All-select (λ e. e.global_sequence < 2 ^ 63) _ db.events w) in
    rw (first, paged db after (m + n) h a l, paged db c n h below (omega (arith, l)))
      (newer-pages 0 m n after db.events h)

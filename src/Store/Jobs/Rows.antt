-- ===== src/Store/Jobs/Rows.antt =====
-- The `jobs` table as a sequence of rows that are replaced one at a time.
use minisqlite.Base.{
  ◌<◌, ◌≡◌, refl, ap, subst, some-injective, Bool, true, false, ◌&&◌, ◌==◌, bytes_eq, some, List,
  [], ◌∷◌, All, All-mono, arith, Bool-cases, inl, inr, if◌then◌else◌, ok,
}
use minisqlite.Id.{Id128}
use minisqlite.Sql.{select, find_row, exists_row, all_rows, update}
use minisqlite.Sql.Rows.{find_row-All}
use minisqlite.Jobs.State.{is_active, is_pending}
use minisqlite.Store.Schema.{Db, JobRow, check_row}
use minisqlite.Store.Jobs.Table.{has_job_id, load_job, update_job}

abbrev pub same_partition : JobRow → JobRow → Bool
same_partition r s = bytes_eq r.queue s.queue && bytes_eq r.partition_key s.partition_key

-- A job that was never claimed.
abbrev pub is_fresh : JobRow → Bool
is_fresh r = is_pending r.state && r.attempt == 0

-- What holds of a row and a later one: they are different jobs, the later one was enqueued later,
-- and in one partition no work starts on the later job while the earlier one is nonterminal.
pub record Before (r s : JobRow) : Type 0 where
  pub ids : (s.job_id == r.job_id) ≡ false
  pub sequences : r.enqueue_sequence < s.enqueue_sequence
  pub waits :
      is_active r.state ≡ true
      → same_partition r s ≡ true
      → is_active s.state ≡ true
      → is_fresh s ≡ true

abbrev pub Chain : List JobRow → Type 0
Chain [] = Unit
Chain (r ∷ rs) = All (Before r) rs × Chain rs

-- What a transition leaves alone: the job's place, and it starts no work on a fresh job that stays
-- nonterminal, nor revives a terminal one.
pub record Moves (r r' : JobRow) : Type 0 where
  pub id : r'.job_id ≡ r.job_id
  pub sequence : r'.enqueue_sequence ≡ r.enqueue_sequence
  pub queue : r'.queue ≡ r.queue
  pub partition_key : r'.partition_key ≡ r.partition_key
  pub active : is_active r'.state ≡ true → is_active r.state ≡ true
  pub fresh : is_active r'.state ≡ true → is_fresh r ≡ true → is_fresh r' ≡ true

Before-left : {r r' s : JobRow} → Moves r r' → Before r s → Before r' s
Before-left m b = record {
  ids = rw m.id b.ids;
  sequences = rw m.sequence b.sequences;
  waits = λ a p. b.waits (m.active a) (rw (m.queue, m.partition_key) at p);
}

Before-right : {x r r' : JobRow} → Moves r r' → Before x r → Before x r'
Before-right m b = record {
  ids = rw m.id b.ids;
  sequences = rw m.sequence b.sequences;
  waits = λ a p c. m.fresh c (b.waits a (rw (m.queue, m.partition_key) at p) (m.active c));
}

-- The row with the id of `r'` is replaced by `r'`.
unfoldable pub put_row : JobRow → List JobRow → List JobRow
put_row r' [] = []
put_row r' (x ∷ xs) = if has_job_id r'.job_id x then r' ∷ xs else x ∷ put_row r' xs

pub All-put {κ} :
    (P : JobRow → Type κ) (r' : JobRow) (xs : List JobRow) → P r' → All P xs → All P (put_row r' xs)
unfolding put_row
All-put P r' [] p h = tt
All-put P r' (x ∷ xs) p h = elim (Bool-cases (has_job_id r'.job_id x)) [
  | inl e ↦ rw e (p, h.1)
  | inr e ↦ rw e (h.0, All-put P r' xs p h.1)
]

tail_true :
    (a b c : Bool) → (a ≡ true → b ≡ true) → b ≡ false → (if a then true else c) ≡ true → c ≡ true
tail_true true b c h e k = cc (h refl)
tail_true false b c h e k = k

if_false : (b c : Bool) → b ≡ false → (if b then true else c) ≡ true → c ≡ true
if_false true c e k = cc
if_false false c e k = k

module _ (r r' : JobRow) where
  pub Chain-put :
      (xs : List JobRow)
      → find_row (has_job_id r'.job_id) xs ≡ some r
      → Moves r r'
      → Chain xs
      → Chain (put_row r' xs)
  unfolding put_row find_row
  Chain-put [] e m h = tt
  Chain-put (x ∷ xs) e m h = elim (Bool-cases (has_job_id r'.job_id x)) [
    | inl t ↦
        let here : x ≡ r = some-injective (rw t at e) in
        rw t (
          All-mono (Before x) (Before r') xs (λ s b. Before-left m (subst (λ y. Before y s) here b))
              h.0,
          h.1,
        )
    | inr t ↦
        let there : find_row (has_job_id r'.job_id) xs ≡ some r = rw t at e in
        rw t (
          All-put (Before x) r' xs
              (Before-right m (find_row-All (Before x) (has_job_id r'.job_id) xs h.0 there)) h.0,
          Chain-put xs there m h.1,
        )
  ]

  -- A test that the new row passes as the old one did.
  pub exists-put :
      (t : JobRow → Bool) (xs : List JobRow)
      → find_row (has_job_id r'.job_id) xs ≡ some r
      → t r' ≡ t r
      → exists_row t (put_row r' xs) ≡ exists_row t xs
  unfolding put_row find_row exists_row
  exists-put t [] e h = refl
  exists-put t (x ∷ xs) e h = elim (Bool-cases (has_job_id r'.job_id x)) [
    | inl q ↦ let here : x ≡ r = some-injective (rw q at e) in rw q (rw here (rw h))
    | inr q ↦ rw q (ap (λ b. if t x then true else b) (exists-put t xs (rw q at e) h))
  ]

  pub exists-put_mono :
      (t : JobRow → Bool) (xs : List JobRow)
      → find_row (has_job_id r'.job_id) xs ≡ some r
      → (t r' ≡ true → t r ≡ true)
      → exists_row t (put_row r' xs) ≡ true
      → exists_row t xs ≡ true
  unfolding put_row find_row exists_row
  exists-put_mono t [] e h k = k
  exists-put_mono t (x ∷ xs) e h k = elim (Bool-cases (has_job_id r'.job_id x)) [
    | inl q ↦
        let here : x ≡ r = some-injective (rw q at e) in
        rw here (elim (Bool-cases (t r)) [
          | inl a ↦ rw a
          | inr a ↦ rw a (tail_true (t r') (t r) _ h a (rw q at k))
        ])
    | inr q ↦ elim (Bool-cases (t x)) [
      | inl a ↦ rw a
      | inr a ↦ rw a (exists-put_mono t xs (rw q at e) h (if_false _ _ a (rw q at k)))
    ]
  ]

pub find-put :
    (r' : JobRow) (id : Id128) (xs : List JobRow)
    → exists_row (has_job_id r'.job_id) xs ≡ true
    → find_row (has_job_id id) (put_row r' xs)
      ≡ (if id == r'.job_id then some r' else find_row (has_job_id id) xs)
unfolding put_row find_row exists_row
find-put r' id [] h = cc
find-put r' id (x ∷ xs) h = ground (arith, find-put r' id xs)

-- With distinct ids an `UPDATE` by id replaces the row that is found.
update_none :
    (p : JobRow → Bool) (f : JobRow → JobRow) (xs : List JobRow)
    → All (λ x. p x ≡ false) xs
    → update p f xs ≡ xs
unfolding update
update_none p f [] h = refl
update_none p f (x ∷ xs) h = rw (h.0, update_none p f xs h.1)

select_none : (p : JobRow → Bool) (xs : List JobRow) → All (λ x. p x ≡ false) xs → select p xs ≡ []
unfolding select
select_none p [] h = refl
select_none p (x ∷ xs) h = rw (h.0, select_none p xs h.1)

module _ (job_id : Id128) where
  others :
      (x : JobRow) (xs : List JobRow)
      → has_job_id job_id x ≡ true
      → All (Before x) xs
      → All (λ s. has_job_id job_id s ≡ false) xs
  others x xs e h =
      All-mono (Before x) (λ s. has_job_id job_id s ≡ false) xs (λ s b. ground (arith, b.ids)) h

  select_found :
      (xs : List JobRow) (r : JobRow)
      → Chain xs
      → find_row (has_job_id job_id) xs ≡ some r
      → select (has_job_id job_id) xs ≡ r ∷ []
  unfolding select find_row
  select_found [] r c e = cc
  select_found (x ∷ xs) r c e = elim (Bool-cases (has_job_id job_id x)) [
    | inl t ↦
        rw (t, select_none (has_job_id job_id) xs (others x xs t c.0))
          (ap (λ y. y ∷ []) (some-injective (rw t at e)))
    | inr t ↦ rw t (select_found xs r c.1 (rw t at e))
  ]

  update-put :
      (f : JobRow → JobRow) (xs : List JobRow) (r : JobRow)
      → Chain xs
      → find_row (has_job_id job_id) xs ≡ some r
      → (f r).job_id ≡ job_id
      → update (has_job_id job_id) f xs ≡ put_row (f r) xs
  unfolding update find_row put_row
  update-put f [] r c e k = refl
  update-put f (x ∷ xs) r c e k = elim (Bool-cases (has_job_id job_id x)) [
    | inl t ↦
        let t' : has_job_id (f r).job_id x ≡ true = rw k t in
        rw (t, t', update_none (has_job_id job_id) f xs (others x xs t c.0))
          (ap (λ y. f y ∷ xs) (some-injective (rw t at e)))
    | inr t ↦
        let t' : has_job_id (f r).job_id x ≡ false = rw k t in
        rw (t, t') (ap (λ ys. x ∷ ys) (update-put f xs r c.1 (rw t at e) k))
  ]

unfoldable pub write_row : JobRow → Db → Db
unfolding put_row
write_row r' db = record db { jobs = put_row r' db.jobs }

-- With distinct ids, an `UPDATE` of a loaded job that meets the CHECK constraints replaces its row.
pub update_job-write :
    (job_id : Id128) (f : JobRow → JobRow) (db : Db) (r : JobRow)
    → Chain db.jobs
    → load_job db job_id ≡ some r
    → (f r).job_id ≡ job_id
    → check_row (f r) ≡ true
    → update_job job_id f db ≡ ok (write_row (f r) db)
unfolding update_job load_job write_row all_rows
update_job-write job_id f db r c e k ch =
    rw (select_found job_id db.jobs r c e, update-put job_id f db.jobs r c e k, ch)

-- ===== src/Store/Jobs/Heads.antt =====
-- The oldest nonterminal job of a partition, and the rows that a lease is granted on.
use minisqlite.Base.{
  ◌≤◌, ◌≡◌, refl, sym, subst, ◌∙◌, true, false, ◌==◌, List, [], ◌∷◌, some, All, All-mono, All-zip,
  ==_refl, arith, Bool-cases, inl, inr, some-injective,
}
use minisqlite.Sql.{find_row}
use minisqlite.Sql.Rows.{find_row-All}
use minisqlite.Sql.Order.{Apart}
use minisqlite.Jobs.State.{is_active}
use minisqlite.Store.Schema.{Db, JobRow}
use minisqlite.Store.Jobs.Table.{has_job_id, active_in, load_job}
use minisqlite.Store.Jobs.Rows.{
  Before, Chain, put_row, All-put, exists-put, same_partition, write_row,
}
use minisqlite.Store.Jobs.Invariant.{RowOk, JobsOk}

-- What an update of a row leaves alone.
pub record Stays (r r' : JobRow) : Type 0 where
  pub id : r'.job_id ≡ r.job_id
  pub sequence : r'.enqueue_sequence ≡ r.enqueue_sequence
  pub queue : r'.queue ≡ r.queue
  pub partition_key : r'.partition_key ≡ r.partition_key

-- A nonterminal row `x` of the partition of `r` does not come before `r`.
pub record After (r x : JobRow) : Type 0 where
  pub order :
      is_active x.state ≡ true → same_partition x r ≡ true → r.enqueue_sequence ≤ x.enqueue_sequence

abbrev pub IsHead : List JobRow → JobRow → Type 0
IsHead xs r = All (After r) xs

After-Stays : (r r' x : JobRow) → Stays r r' → After r x → After r' x
After-Stays r r' x s a = record {
  order = λ t p. rw s.sequence (a.order t (rw (s.queue, s.partition_key) at p));
}

pub IsHead-Stays : (xs : List JobRow) (r r' : JobRow) → Stays r r' → IsHead xs r → IsHead xs r'
IsHead-Stays xs r r' s h = All-mono (After r) (After r') xs (λ x. After-Stays r r' x s) h

-- The head of a partition stays its head when a row is updated that was nonterminal before.
pub IsHead-put :
    (xs : List JobRow) (h r r' : JobRow)
    → find_row (has_job_id r'.job_id) xs ≡ some r
    → Stays r r'
    → is_active r.state ≡ true
    → IsHead xs h
    → IsHead (put_row r' xs) h
IsHead-put xs h r r' e s t a =
    let o = find_row-All (After h) (has_job_id r'.job_id) xs a e in
    All-put (After h) r' xs
      (record { order = λ _ p. rw s.sequence (o.order t (rw (s.queue, s.partition_key) at p)) }) a

lease-left : (r r' s : JobRow) → Stays r r' → is_active r.state ≡ true → Before r s → Before r' s
lease-left r r' s m t b = record {
  ids = rw m.id b.ids;
  sequences = rw m.sequence b.sequences;
  waits = λ a p. b.waits t (rw (m.queue, m.partition_key) at p);
}

lease-right : (x r r' : JobRow) → Stays r r' → After r x → Before x r → Before x r'
lease-right x r r' m h b = record {
  ids = rw m.id b.ids;
  sequences = rw m.sequence b.sequences;
  waits =
      λ a p c. absurd (omega (arith, h.order a (rw (m.queue, m.partition_key) at p), b.sequences));
}

-- Work may start on the head of a partition.
pub Chain-lease :
    (xs : List JobRow) (r r' : JobRow)
    → find_row (has_job_id r'.job_id) xs ≡ some r
    → Stays r r'
    → is_active r.state ≡ true
    → IsHead xs r
    → Chain xs
    → Chain (put_row r' xs)
unfolding put_row find_row
Chain-lease [] r r' e m t h c = tt
Chain-lease (x ∷ xs) r r' e m t h c = elim (Bool-cases (has_job_id r'.job_id x)) [
  | inl q ↦
      let here : x ≡ r = some-injective (rw q at e) in
      rw q (
        All-mono (Before x) (Before r') xs
            (λ s b. lease-left r r' s m t (subst (λ y. Before y s) here b)) c.0,
        c.1,
      )
  | inr q ↦
      let there : find_row (has_job_id r'.job_id) xs ≡ some r = rw q at e in
      rw q (
        All-put (Before x) r' xs
            (lease-right x r r' m h.0 (find_row-All (Before x) (has_job_id r'.job_id) xs c.0 there))
            c.0,
        Chain-lease xs r r' there m t h.1 c.1,
      )
]

pub lease-JobsOk :
    (db : Db) (r r' : JobRow)
    → JobsOk db
    → load_job db r'.job_id ≡ some r
    → Stays r r'
    → is_active r.state ≡ true
    → is_active r'.state ≡ true
    → IsHead db.jobs r
    → RowOk r'
    → JobsOk (write_row r' db)
unfolding write_row load_job
lease-JobsOk db r r' h e m t t' head k = record {
  rows = All-put RowOk r' db.jobs k h.rows;
  chain = Chain-lease db.jobs r r' e m t head h.chain;
  partitions = λ q p.
      h.partitions q p
      ∙ sym (exists-put r r' (active_in q p) db.jobs e (rw (m.queue, m.partition_key, t, t') refl));
}

-- Ids are distinct, and each row is the one that its id finds.
abbrev pub Differ : JobRow → JobRow → Type 0
Differ r s = (s.job_id == r.job_id) ≡ false

pub Differ-sym : (r s : JobRow) → Differ r s → Differ s r
Differ-sym r s e = ground (arith, e)

pub Chain-Apart : (xs : List JobRow) → Chain xs → Apart Differ xs
Chain-Apart [] c = tt
Chain-Apart (x ∷ xs) c = (All-mono (Before x) (Differ x) xs (λ s b. b.ids) c.0, Chain-Apart xs c.1)

pub Chain-self :
    (xs : List JobRow) → Chain xs → All (λ r. find_row (has_job_id r.job_id) xs ≡ some r) xs
unfolding find_row
Chain-self [] c = tt
Chain-self (x ∷ xs) c = (
  rw (==_refl x.job_id) refl,
  All-zip _ _ _ xs
      (λ r b e. let n : has_job_id r.job_id x ≡ false = ground (arith, b.ids) in rw n e) c.0
      (Chain-self xs c.1),
)

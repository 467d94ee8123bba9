-- ===== src/Store/Ops/Complete.antt =====
-- The exports of src/store/ops.rs that page through a table by a sequence number.
use minisqlite.Base.{
  ℕ, zero, suc, ◌+◌, ◌<◌, ◌≤◌, ◌≡◌, refl, sym, ap, ◌∙◌, Bytes, List, [], ◌∷◌, ◌++◌, map, take,
  length, length-append, concat, Bool, true, false, ltb, Option, none, some, All, All-append,
  All-mono, append_assoc, arith, Bool-cases, inl, inr,
}
use minisqlite.Sql.{select, order_by, insert_ordered, limit_rows}
use minisqlite.Store.Schema.{Db}
use minisqlite.Store.Ops.Export.{
  export_transactions, transaction_line, export_events, event_line, export_jobs, job_line,
}
use minisqlite.Store.Ops.Paging.{export_pages, export_table, last_row, after_sequence, by_key}

ltb-true : (m n : ℕ) → ltb m n ≡ true → m < n
ltb-true m n e = ground (arith, e)

ltb-false : (m n : ℕ) → ltb m n ≡ false → n ≤ m
ltb-false m n e = ground (arith, e)

module _ {A : Type 0} (key : A → ℕ) where
  -- The sequence numbers of a table grow, from above `n`.
  abbrev pub Increasing : ℕ → List A → Type 0
  Increasing n [] = Unit
  Increasing n (x ∷ xs) = (n < key x) × Increasing (key x) xs

  abbrev key_of : Option A → ℕ
  key_of none = 0
  key_of (some x) = key x

  after-key : (o : Option A) (x : A) → after_sequence key o x ≡ ltb (key_of o) (key x)
  after-key none x = refl
  after-key (some y) x = refl

  pub Increasing-weaken : (m n : ℕ) (xs : List A) → m ≤ n → Increasing n xs → Increasing m xs
  Increasing-weaken m n [] h k = tt
  Increasing-weaken m n (x ∷ xs) h k = (omega (arith, h, k.0), k.1)

  select_new :
      (o : Option A) (xs : List A)
      → Increasing (key_of o) xs
      → select (after_sequence key o) xs ≡ xs
  unfolding select
  select_new o [] h = refl
  select_new o (x ∷ xs) h =
      let t : after_sequence key o x ≡ true = after-key o x ∙ ground (arith, h.0) in
      rw t (
        ap (λ r. x ∷ r)
          (select_new o xs (Increasing-weaken (key_of o) (key x) xs (omega (arith, h.0)) h.1)))

  select_done :
      (o : Option A) (done todo : List A)
      → All (λ x. key x ≤ key_of o) done
      → Increasing (key_of o) todo
      → select (after_sequence key o) (done ++ todo) ≡ todo
  unfolding select
  select_done o [] todo h k = select_new o todo k
  select_done o (x ∷ xs) todo h k =
      let t : after_sequence key o x ≡ false = after-key o x ∙ ground (arith, h.0) in
      rw t (select_done o xs todo h.1 k)

  pub order_by-Increasing : (n : ℕ) (xs : List A) → Increasing n xs → order_by (by_key key) xs ≡ xs
  unfolding order_by insert_ordered
  order_by-Increasing n [] h = refl
  order_by-Increasing n (x ∷ []) h = refl
  order_by-Increasing n (x ∷ y ∷ ys) h =
      let t : by_key key x y ≡ true = ground (arith, h.1.0) in
      ap (insert_ordered (by_key key) x) (order_by-Increasing (key x) (y ∷ ys) h.1) ∙ rw t refl

  -- What is left after a page.
  record Left (n : ℕ) (o : Option A) (todo : List A) : Type 0 where
    rest : List A
    whole : take n todo ++ rest ≡ todo
    page : All (λ x. key x ≤ key_of (last_row o (take n todo))) (take n todo)
    new : Increasing (key_of (last_row o (take n todo))) rest
    grows : key_of o ≤ key_of (last_row o (take n todo))

  left : (n : ℕ) (o : Option A) (todo : List A) → Increasing (key_of o) todo → Left n o todo
  unfolding last_row
  left zero o todo h = record { rest = todo; whole = refl; page = tt; new = h; grows = omega arith }
  left (suc n) o [] h = record { rest = []; whole = refl; page = tt; new = tt; grows = omega arith }
  left (suc n) o (x ∷ xs) h =
      let l = left n (some x) xs h.1 in
      record {
        rest = l.rest;
        whole = ap (λ r. x ∷ r) l.whole;
        page = (l.grows, l.page);
        new = l.new;
        grows = omega (arith, h.0, l.grows);
      }

  take_short : (n : ℕ) (xs : List A) → length (take n xs) < n → take n xs ≡ xs
  take_short zero xs h = elim h [ ]
  take_short (suc n) [] h = refl
  take_short (suc n) (x ∷ xs) h = ap (λ r. x ∷ r) (take_short n xs (omega (arith, h)))

  concat-append :
      (write : A → Bytes) (xs ys : List A)
      → concat (map write xs) ++ concat (map write ys) ≡ concat (map write (xs ++ ys))
  unfolding concat
  concat-append write [] ys = refl
  concat-append write (x ∷ xs) ys =
      append_assoc (write x) (concat (map write xs)) (concat (map write ys))
      ∙ ap (λ r. write x ++ r) (concat-append write xs ys)

  export_pages-concat :
      (write : A → Bytes) (fuel : ℕ) (o : Option A) (done todo : List A)
      → length todo < fuel
      → All (λ x. key x ≤ key_of o) done
      → Increasing (key_of o) todo
      → export_pages fuel (after_sequence key) (by_key key) write (done ++ todo) o
        ≡ concat (map write todo)
  unfolding export_pages limit_rows
  export_pages-concat write zero o done todo h d t = elim h [ ]
  export_pages-concat write (suc fuel) o done todo h d t =
      let rows : order_by (by_key key) (select (after_sequence key o) (done ++ todo)) ≡ todo =
        ap (order_by (by_key key)) (select_done o done todo d t)
        ∙ order_by-Increasing (key_of o) todo t in
      elim (Bool-cases (ltb (length (take 512 todo)) 512)) [
        | inl e ↦
            rw (rows, e) (ap (λ r. concat (map write r)) (take_short 512 todo (ltb-true _ 512 e)))
        | inr e ↦
            let l = left 512 o todo t in
            let split : done ++ todo ≡ (done ++ take 512 todo) ++ l.rest =
              ap (λ r. done ++ r) (sym l.whole) ∙ sym (append_assoc done (take 512 todo) l.rest) in
            let size : length (take 512 todo) + length l.rest ≡ length todo =
              sym (length-append (take 512 todo) l.rest) ∙ ap length l.whole in
            let some_rows : 512 ≤ length (take 512 todo) = ltb-false _ 512 e in
            rw (rows, e)
              (ap
                  (λ xs.
                    concat (map write (take 512 todo))
                    ++ export_pages fuel (after_sequence key) (by_key key) write xs
                        (last_row o (take 512 todo)))
                  split
                ∙ ap (λ r. concat (map write (take 512 todo)) ++ r)
                    (export_pages-concat write fuel (last_row o (take 512 todo))
                      (done ++ take 512 todo) l.rest (omega (arith, size, some_rows, h))
                      (All-append _ done (take 512 todo)
                        (All-mono _ _ done (λ x k. omega (arith, k, l.grows)) d) l.page)
                      l.new)
                ∙ concat-append write (take 512 todo) l.rest
                ∙ ap (λ r. concat (map write r)) l.whole)
      ]

  export_table-concat :
      (write : A → Bytes) (table : List A)
      → Increasing 0 table
      → export_table (after_sequence key) (by_key key) write table ≡ concat (map write table)
  unfolding export_table
  export_table-concat write table h =
      export_pages-concat write (suc (length table)) none [] table (omega arith) tt h

-- When the sequences of transactions, events and jobs grow from above 0, the exports that page
-- through these tables write the line of each row, once and in the order of the table.
pub exports_every_row :
    (db : Db) (include_payloads : Bool)
    → Increasing (λ t. t.transaction_sequence) 0 db.transactions
    → Increasing (λ e. e.global_sequence) 0 db.events
    → Increasing (λ r. r.enqueue_sequence) 0 db.jobs
    → (export_transactions db ≡ concat (map transaction_line db.transactions))
      × (export_events db include_payloads ≡ concat (map (event_line include_payloads) db.events))
      × (export_jobs db include_payloads ≡ concat (map (job_line include_payloads) db.jobs))
unfolding export_transactions export_events export_jobs
exports_every_row db include_payloads t e j = (
  export_table-concat (λ t. t.transaction_sequence) transaction_line db.transactions t,
  export_table-concat (λ e. e.global_sequence) (event_line include_payloads) db.events e,
  export_table-concat (λ r. r.enqueue_sequence) (job_line include_payloads) db.jobs j,
)

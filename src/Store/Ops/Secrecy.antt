-- ===== src/Store/Ops/Secrecy.antt =====
-- The whole diagnostic export of src/store/ops.rs on redacted rows.
use minisqlite.Base.{
  ℕ, ℤ, ◌≡◌, refl, ap, ◌∙◌, List, [], ◌∷◌, map, length, Bool, ◌==◌, Option, Result, Bool-cases, inl,
  inr,
}
use minisqlite.Errors.{StorageError}
use minisqlite.Sql.{select}
use minisqlite.Jobs.State.{JobState, leased, uncertain}
use minisqlite.Store.Schema.{Db, TransactionRow, JobRow}
use minisqlite.Store.Migrations.{File}
use minisqlite.Store.Ops.Stats.{
  stats, min_of, in_state, count_in, group_counts, jobs_by_state, updated_times, all_states,
}
use minisqlite.Store.Ops.Export.{export_streams, export_partitions, export_rows, diagnostic_export}
use minisqlite.Store.Ops.Pages.{select-map, length-map}
use minisqlite.Store.Ops.Redacted.{
  redact, redact_job, redact_event, redact_entry, redact_transaction, export_transactions-redact,
  export_events-redact, export_projections-redact, export_jobs-redact, export_claim_receipts-redact,
}

min_of-map :
    {A : Type 0} (g : A → A) (f : A → Option ℤ) (xs : List A)
    → min_of f (map g xs) ≡ min_of (λ x. f (g x)) xs
unfolding min_of
min_of-map g f [] = refl
min_of-map g f (x ∷ xs) = rw (min_of-map g f xs) refl

select_times :
    (p : TransactionRow → Bool) (ts : List TransactionRow)
    → ((t : TransactionRow) → p (redact_transaction t) ≡ p t)
    → map (λ (t : TransactionRow). t.committed_at_ms) (select p (map redact_transaction ts))
      ≡ map (λ t. t.committed_at_ms) (select p ts)
unfolding select
select_times p [] h = refl
select_times p (t ∷ ts) h = elim (Bool-cases (p t)) [
  | inl e ↦ rw (h t, e) (ap (λ r. t.committed_at_ms ∷ r) (select_times p ts h))
  | inr e ↦ rw (h t, e) (select_times p ts h)
]

module _ (payloads : Bool) where
  select-redact :
      (s : JobState) (jobs : List JobRow)
      → select (in_state s) (map (redact_job payloads) jobs)
        ≡ map (redact_job payloads) (select (in_state s) jobs)
  select-redact s jobs = select-map (redact_job payloads) (in_state s) jobs

  count_in-redact :
      (jobs : List JobRow) (s : JobState)
      → count_in (map (redact_job payloads) jobs) s ≡ count_in jobs s
  unfolding count_in
  count_in-redact jobs s =
      ap length (select-redact s jobs) ∙ length-map (redact_job payloads) (select (in_state s) jobs)

  group_counts-redact :
      (jobs : List JobRow) (ss : List JobState)
      → group_counts (map (redact_job payloads) jobs) ss ≡ group_counts jobs ss
  unfolding group_counts
  group_counts-redact jobs [] = refl
  group_counts-redact jobs (s ∷ ss) = rw (count_in-redact jobs s, group_counts-redact jobs ss) refl

  updated_times-redact :
      (file : File Db) (rs : List JobRow)
      → updated_times (redact payloads file).schema (map (redact_job payloads) rs)
        ≡ updated_times file.schema rs
  unfolding updated_times redact
  updated_times-redact file [] = refl
  updated_times-redact file (r ∷ rs) =
      rw
        (
          select_times (λ t. t.transaction_id == r.updated_transaction_id) file.schema.transactions
              (λ t. refl),
          updated_times-redact file rs,
        )
        refl

  oldest_lease-redact :
      (jobs : List JobRow)
      → min_of
          (λ r. r.lease_expires_at_ms)
          (select (in_state leased) (map (redact_job payloads) jobs))
        ≡ min_of (λ r. r.lease_expires_at_ms) (select (in_state leased) jobs)
  oldest_lease-redact jobs =
      ap (min_of (λ r. r.lease_expires_at_ms)) (select-redact leased jobs)
      ∙ min_of-map (redact_job payloads) (λ r. r.lease_expires_at_ms)
          (select (in_state leased) jobs)

  oldest_uncertain-redact :
      (file : File Db)
      → updated_times
          (redact payloads file).schema
          (select (in_state uncertain) (map (redact_job payloads) file.schema.jobs))
        ≡ updated_times file.schema (select (in_state uncertain) file.schema.jobs)
  oldest_uncertain-redact file =
      ap (updated_times (redact payloads file).schema) (select-redact uncertain file.schema.jobs)
      ∙ updated_times-redact file (select (in_state uncertain) file.schema.jobs)

  stats-redact :
      (file_size : Result ℕ StorageError) (file : File Db)
      → stats file_size (redact payloads file) ≡ stats file_size file
  unfolding stats redact jobs_by_state
  stats-redact file_size file =
      rw
        (
          length-map redact_transaction file.schema.transactions,
          group_counts-redact file.schema.jobs all_states,
          oldest_lease-redact file.schema.jobs,
          oldest_uncertain-redact file,
          length-map (redact_event payloads) file.schema.events,
          length-map (redact_entry payloads) file.schema.projection_entries,
        )
        refl

  export_rows-redact :
      (file : File Db)
      → export_rows (redact payloads file).schema payloads ≡ export_rows file.schema payloads
  unfolding export_rows
  export_rows-redact file =
      rw
        (
          export_transactions-redact payloads file,
          export_events-redact payloads file,
          export_projections-redact payloads file,
          export_jobs-redact payloads file,
          export_claim_receipts-redact payloads file,
        )
        (unfold redact export_streams export_partitions in refl)

  -- The diagnostic export is the same text, or the same error, when lease tokens, idempotency
  -- keys, result digests, request digests, metadata and the correlation ids of transactions are
  -- erased; and an export without payloads also when the bytes of payloads, projection values
  -- and error summaries are set to zero and only their lengths are kept.
  pub diagnostic_export-redact :
      (file_size : Result ℕ StorageError) (file : File Db)
      → diagnostic_export file_size (redact payloads file) payloads
        ≡ diagnostic_export file_size file payloads
  unfolding diagnostic_export
  diagnostic_export-redact file_size file =
      rw (stats-redact file_size file, export_rows-redact file) refl

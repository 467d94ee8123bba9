-- ===== src/Store/Ops/Redacted.antt =====
-- What the diagnostic export of src/store/ops.rs does not depend on.
use minisqlite.Base.{
  ℕ, ◌+◌, ◌≡◌, refl, ap, ◌∙◌, Bytes, bytes_le, List, [], ◌∷◌, ◌++◌, map, length, concat, Bool, true,
  false, Option, none, some,
}
use mathlib.Core.Option
use minisqlite.Event.{PersistedEvent}
use minisqlite.Sql.{order_by}
use minisqlite.Store.Schema.{Db, TransactionRow, JobRow, EntryRow, ReceiptRow}
use minisqlite.Store.Migrations.{File}
use minisqlite.Store.Ops.Text.{payload_fields, value_fields, error_summary_fields}
use minisqlite.Store.Ops.Stats.{}
use minisqlite.Store.Ops.Export.{
  projection_line, transaction_line, event_line, entry_line, job_line, receipt_line, numbered,
  export_transactions, export_events, export_projections, export_jobs, export_claim_receipts,
}
use minisqlite.Store.Ops.Paging.{export_table, after_sequence, by_key}
use minisqlite.Store.Ops.Pages.{length-map, map-concat, export_table-map}

-- Bytes of the same length that tell nothing, unless payloads are asked for.
abbrev pub hide : Bool → Bytes → Bytes
hide true bytes = bytes
hide false bytes = map (λ b. 0) bytes

-- The rows without the secrets: lease tokens, and without payloads also what these carry.
abbrev pub redact_job : Bool → JobRow → JobRow
redact_job payloads r = record r {
  lease_token = none;
  idempotency_key = none;
  result_digest = none;
  payload = hide payloads r.payload;
  error_summary = Option.map (hide payloads) r.error_summary;
}

abbrev pub redact_event : Bool → PersistedEvent → PersistedEvent
redact_event payloads e = record e {
  event = record e.event { payload = hide payloads e.event.payload; metadata = [] };
}

abbrev pub redact_entry : Bool → EntryRow → EntryRow
redact_entry payloads e = record e { value = hide payloads e.value }

abbrev pub redact_transaction : TransactionRow → TransactionRow
redact_transaction t = record t { metadata = []; request_digest = []; correlation_id = none }

abbrev pub redact_receipt : ReceiptRow → ReceiptRow
redact_receipt c = record c { lease_token = 0 }

unfoldable pub redact : Bool → File Db → File Db
redact payloads file = record file {
  schema = record file.schema {
    transactions = map redact_transaction file.schema.transactions;
    events = map (redact_event payloads) file.schema.events;
    projection_entries = map (redact_entry payloads) file.schema.projection_entries;
    jobs = map (redact_job payloads) file.schema.jobs;
    claim_receipts = map redact_receipt file.schema.claim_receipts;
  };
}

length-hide : (b : Bool) (xs : Bytes) → length (hide b xs) ≡ length xs
length-hide true xs = refl
length-hide false xs = length-map (λ b. 0) xs

payload_fields-hide : (b : Bool) (xs : Bytes) → payload_fields (hide b xs) b ≡ payload_fields xs b
unfolding payload_fields
payload_fields-hide true xs = refl
payload_fields-hide false xs = rw (length-hide false xs) refl

value_fields-hide : (b : Bool) (xs : Bytes) → value_fields (hide b xs) b ≡ value_fields xs b
unfolding value_fields
value_fields-hide true xs = refl
value_fields-hide false xs = rw (length-hide false xs) refl

error_summary_fields-hide :
    (b : Bool) (o : Option Bytes)
    → error_summary_fields (Option.map (hide b) o) b ≡ error_summary_fields o b
unfolding error_summary_fields
error_summary_fields-hide true none = refl
error_summary_fields-hide true (some xs) = refl
error_summary_fields-hide false none = refl
error_summary_fields-hide false (some xs) = rw (length-hide false xs) refl

event_line-redact :
    (b : Bool) (e : PersistedEvent) → event_line b (redact_event b e) ≡ event_line b e
unfolding event_line
event_line-redact b e = rw (payload_fields-hide b e.event.payload) refl

job_line-redact : (b : Bool) (r : JobRow) → job_line b (redact_job b r) ≡ job_line b r
unfolding job_line
job_line-redact b r =
    rw (payload_fields-hide b r.payload, error_summary_fields-hide b r.error_summary) refl

entry_line-redact :
    (b : Bool) (r : ℕ × EntryRow) → entry_line b (r.0, redact_entry b r.1) ≡ entry_line b r
unfolding entry_line
entry_line-redact b r = rw (value_fields-hide b r.1.value) refl

concat_ext :
    {A : Type 0} (f g : A → Bytes) (xs : List A)
    → ((x : A) → f x ≡ g x)
    → concat (map f xs) ≡ concat (map g xs)
unfolding concat
concat_ext f g [] h = refl
concat_ext f g (x ∷ xs) h = rw (h x, concat_ext f g xs h) refl

numbered-map :
    {A : Type 0} (f : A → A) (n : ℕ) (xs : List A)
    → numbered n (map f xs) ≡ map (λ (r : ℕ × A). (r.0, f r.1)) (numbered n xs)
unfolding numbered
numbered-map f n [] = refl
numbered-map f n (x ∷ xs) = ap (λ r. (n, f x) ∷ r) (numbered-map f (n + 1) xs)

module _ (payloads : Bool) (file : File Db) where
  pub export_transactions-redact :
      export_transactions (redact payloads file).schema ≡ export_transactions file.schema
  unfolding export_transactions redact transaction_line
  export_transactions-redact =
      export_table-map redact_transaction (λ t. t.transaction_sequence) transaction_line _
        (λ t. refl) (λ t. refl)

  pub export_events-redact :
      export_events (redact payloads file).schema payloads ≡ export_events file.schema payloads
  unfolding export_events redact
  export_events-redact =
      export_table-map (redact_event payloads) (λ e. e.global_sequence) (event_line payloads) _
        (λ e. refl) (event_line-redact payloads)

  pub export_projections-redact :
      export_projections (redact payloads file).schema payloads
      ≡ export_projections file.schema payloads
  unfolding export_projections redact
  export_projections-redact =
      ap
        (λ (r : Bytes).
          concat (
            map projection_line
              (order_by (λ a b. bytes_le a.projection b.projection) file.schema.projection_meta))
          ++ r)
        (ap
            (λ rows.
              export_table (after_sequence (λ r. r.0)) (by_key (λ r. r.0)) (entry_line payloads)
                rows)
            (numbered-map (redact_entry payloads) 1 file.schema.projection_entries)
          ∙ export_table-map (λ (r : ℕ × EntryRow). (r.0, redact_entry payloads r.1)) (λ r. r.0)
              (entry_line payloads) _ (λ r. refl) (entry_line-redact payloads))

  pub export_jobs-redact :
      export_jobs (redact payloads file).schema payloads ≡ export_jobs file.schema payloads
  unfolding export_jobs redact
  export_jobs-redact =
      export_table-map (redact_job payloads) (λ r. r.enqueue_sequence) (job_line payloads) _
        (λ r. refl) (job_line-redact payloads)

  pub export_claim_receipts-redact :
      export_claim_receipts (redact payloads file).schema ≡ export_claim_receipts file.schema
  unfolding export_claim_receipts redact
  export_claim_receipts-redact =
      map-concat redact_receipt receipt_line file.schema.claim_receipts
      ∙ concat_ext _ _ file.schema.claim_receipts (λ c. unfold receipt_line in refl)

-- ===== src/Transaction/Builder.antt =====
-- The builder methods of `CommitBatch` in src/transaction.rs.
use minisqlite.Base.{
  ℕ, ℤ, ◌≡◌, refl, ap, sym, ◌∙◌, Bytes, List, [], ◌∷◌, ◌++◌, append_assoc, append-nil, Option, none,
  some,
}
use minisqlite.Id.{Id128}
use minisqlite.Event.{Event}
use minisqlite.Projection.{ProjectionPatch}
use minisqlite.Jobs.{JobSpec, Resolution}
use minisqlite.Transaction.{Operation, ExpectedStreamVersion, CommitBatch}

unfoldable pub new : Id128 → ℤ → CommitBatch
new transaction_id committed_at_ms = record {
  transaction_id = transaction_id;
  committed_at_ms = committed_at_ms;
  correlation_id = none;
  metadata = [];
  expected_stream_versions = [];
  operations = [];
}

unfoldable pub with_correlation_id : Id128 → CommitBatch → CommitBatch
with_correlation_id correlation_id b = record b { correlation_id = some correlation_id }

unfoldable pub with_metadata : Bytes → CommitBatch → CommitBatch
with_metadata metadata b = record b { metadata = metadata }

unfoldable pub expect_stream_version : Bytes → ℕ → CommitBatch → CommitBatch
expect_stream_version stream_id version b = record b {
  expected_stream_versions =
      b.expected_stream_versions ++ record { stream_id = stream_id; version = version } ∷ [];
}

-- `self.operations.push(..)`.
abbrev pub push : Operation → CommitBatch → CommitBatch
push o b = record b { operations = b.operations ++ o ∷ [] }

unfoldable pub append_event : Event → CommitBatch → CommitBatch
append_event event b = push (Operation.append_event event) b

unfoldable pub apply_projection_patch : ProjectionPatch → CommitBatch → CommitBatch
apply_projection_patch patch b = push (Operation.projection_patch patch) b

unfoldable pub enqueue_job : JobSpec → CommitBatch → CommitBatch
enqueue_job job b = push (Operation.enqueue_job job) b

unfoldable pub acknowledge_job : Id128 → Id128 → Option Bytes → CommitBatch → CommitBatch
acknowledge_job job_id lease_token result_digest b =
    push
      (Operation.ack_job
        (record { job_id = job_id; lease_token = lease_token; result_digest = result_digest }))
      b

unfoldable pub fail_job : Id128 → Id128 → Bytes → Option ℤ → CommitBatch → CommitBatch
fail_job job_id lease_token error_summary retry_after_ms b =
    push
      (Operation.fail_job (record {
        job_id = job_id;
        lease_token = lease_token;
        error_summary = error_summary;
        retry_after_ms = retry_after_ms;
      }))
      b

unfoldable pub cancel_job : Id128 → Option Id128 → CommitBatch → CommitBatch
cancel_job job_id lease_token b =
    push (Operation.cancel_job (record { job_id = job_id; lease_token = lease_token })) b

unfoldable pub resolve_uncertain_job : Id128 → Resolution → CommitBatch → CommitBatch
resolve_uncertain_job job_id resolution b =
    push (Operation.resolve_job (record { job_id = job_id; resolution = resolution })) b

unfoldable pub extend_lease : Id128 → Id128 → ℤ → CommitBatch → CommitBatch
extend_lease job_id lease_token new_expiry_ms b =
    push
      (Operation.extend_lease
        (record { job_id = job_id; lease_token = lease_token; new_expiry_ms = new_expiry_ms }))
      b

-- The call that adds an operation, and the calls that make a batch.
unfoldable pub call_for : Operation → CommitBatch → CommitBatch
call_for (Operation.append_event e) b = append_event e b
call_for (Operation.projection_patch p) b = apply_projection_patch p b
call_for (Operation.enqueue_job j) b = enqueue_job j b
call_for (Operation.ack_job a) b = acknowledge_job a.job_id a.lease_token a.result_digest b
call_for (Operation.fail_job f) b =
    fail_job f.job_id f.lease_token f.error_summary f.retry_after_ms b
call_for (Operation.cancel_job c) b = cancel_job c.job_id c.lease_token b
call_for (Operation.resolve_job r) b = resolve_uncertain_job r.job_id r.resolution b
call_for (Operation.extend_lease x) b = extend_lease x.job_id x.lease_token x.new_expiry_ms b

unfoldable pub call_each : List Operation → CommitBatch → CommitBatch
call_each [] b = b
call_each (o ∷ os) b = call_each os (call_for o b)

unfoldable pub expect_each : List ExpectedStreamVersion → CommitBatch → CommitBatch
expect_each [] b = b
expect_each (v ∷ vs) b = expect_each vs (expect_stream_version v.stream_id v.version b)

abbrev correlate : Option Id128 → CommitBatch → CommitBatch
correlate none b = b
correlate (some i) b = with_correlation_id i b

unfoldable pub built : CommitBatch → CommitBatch
built b = call_each b.operations (
    expect_each b.expected_stream_versions (
      with_metadata b.metadata
        (correlate b.correlation_id (new b.transaction_id b.committed_at_ms))))

call_for-push : (o : Operation) (b : CommitBatch) → call_for o b ≡ push o b
unfolding call_for append_event apply_projection_patch enqueue_job acknowledge_job fail_job
    cancel_job resolve_uncertain_job extend_lease
call_for-push (Operation.append_event e) b = refl
call_for-push (Operation.projection_patch p) b = refl
call_for-push (Operation.enqueue_job j) b = refl
call_for-push (Operation.ack_job a) b = refl
call_for-push (Operation.fail_job f) b = refl
call_for-push (Operation.cancel_job c) b = refl
call_for-push (Operation.resolve_job r) b = refl
call_for-push (Operation.extend_lease x) b = refl

call_each-append :
    (os : List Operation) (b : CommitBatch)
    → call_each os b ≡ record b { operations = b.operations ++ os }
unfolding call_each
call_each-append [] b =
    ap (λ (os : List Operation). record b { operations = os }) (sym (append-nil b.operations))
call_each-append (o ∷ os) b =
    ap (call_each os) (call_for-push o b)
    ∙ call_each-append os (push o b)
    ∙ ap (λ (os : List Operation). record b { operations = os })
        (append_assoc b.operations (o ∷ []) os)

expect_each-append :
    (vs : List ExpectedStreamVersion) (b : CommitBatch)
    → expect_each vs b ≡ record b { expected_stream_versions = b.expected_stream_versions ++ vs }
unfolding expect_each expect_stream_version
expect_each-append [] b =
    ap (λ (vs : List ExpectedStreamVersion). record b { expected_stream_versions = vs })
      (sym (append-nil b.expected_stream_versions))
expect_each-append (v ∷ vs) b =
    expect_each-append vs (expect_stream_version v.stream_id v.version b)
    ∙ ap (λ (vs : List ExpectedStreamVersion). record b { expected_stream_versions = vs })
        (append_assoc b.expected_stream_versions (v ∷ []) vs)

correlate-new :
    (o : Option Id128) (i : Id128) (t : ℤ)
    → correlate o (new i t) ≡ record (new i t) { correlation_id = o }
unfolding new with_correlation_id
correlate-new none i t = refl
correlate-new (some c) i t = refl

-- Every batch is what the builder methods make when its correlation id and metadata are set,
-- its expected versions are added in order and each operation is added, in order, by the method
-- for it.
pub built_lem : (b : CommitBatch) → built b ≡ b
unfolding built new with_metadata
built_lem b =
    ap
      (λ c.
        call_each b.operations
          (expect_each b.expected_stream_versions (with_metadata b.metadata c)))
      (correlate-new b.correlation_id b.transaction_id b.committed_at_ms)
    ∙ ap (call_each b.operations) (expect_each-append b.expected_stream_versions _)
    ∙ call_each-append b.operations _

-- ===== src/Reconcile/Enqueue/Examples.antt =====
-- A configuration left to its defaults, and a pass over one request.
use node_vault.Base.{ℕ, ◌+◌, ◌/◌, ◌≤◌, ◌≡◌, refl, ◌⊎◌, ℤ, pos, negsuc, [], ◌∷◌, arith}
use node_vault.Index.Schema.{IndexFile, ValidationStatus}
use node_vault.Index.Samples.{request, requests_of}
use node_vault.Reconcile.Enqueue.{
  EnqueueRetryConfig, Pass, Reply, with_defaults, grow, delay, backoff, retry_due,
}
use node_vault.Reconcile.Enqueue.Backoff.{exponential, backoff-bounds}
use node_vault.Reconcile.Enqueue.Budget.{InBudget, retry_due-InBudget}

abbrev unset : EnqueueRetryConfig
unset = record {
  max_attempts = pos 0;
  base_backoff = pos 0;
  max_backoff = pos 0;
  enqueue_timeout = pos 0;
  pending_stale_after = pos 0;
}

-- A jitter of at most a fifth, as the default fraction has it.
abbrev fifth : ℕ → ℤ
fifth d = pos (d / 5)

backoff-bounds_example :
    (backoff fifth (with_defaults unset) 3 ≤ delay (with_defaults unset) 3 + 180000000000)
    × (delay (with_defaults unset) 3 ≤ backoff fifth (with_defaults unset) 3 + 180000000000)
    × (delay (with_defaults unset) 3 ≤ 900000000000)
    × (((delay (with_defaults unset) 3 ≡ 900000000000)
          × (900000000000 ≤ exponential 2 30000000000 + 1))
        ⊎ (delay (with_defaults unset) 3 ≡ exponential 2 30000000000))
unfolding with_defaults
backoff-bounds_example =
    backoff-bounds fifth unset 3 180000000000 (λ d h. omega arith) (omega arith)

-- The third delay is two minutes, and a fifth of it more with this jitter.
third_delay : backoff fifth (with_defaults unset) 3 ≡ 144000000000
unfolding backoff grow with_defaults
third_delay = refl

abbrev pass : Pass
pass = record {
  now = 1000;
  jitter = fifth;
  enqueue = λ r. Reply.failure "refused";
  abandoned_after = λ n. "enqueue abandoned";
  recovered_after = λ now at. "recovered";
}

abbrev waiting : IndexFile
waiting = requests_of (record request { validation_status = ValidationStatus.unavailable } ∷ [])

retry_due-InBudget_example : InBudget 5 (retry_due pass (with_defaults unset) waiting)
unfolding with_defaults
retry_due-InBudget_example = retry_due-InBudget pass (with_defaults unset) waiting (omega arith, tt)

-- Under a limit near the largest int64 the sum with the jitter wraps, and nothing is waited for.
abbrev patient : EnqueueRetryConfig
patient = record unset { base_backoff = pos 9000000000000000000 }

no_wait : backoff fifth (with_defaults patient) 1 ≡ 0
unfolding backoff grow with_defaults
no_wait = refl

-- A timeout near the largest int64 makes the threshold of a stranded request negative.
abbrev negative_threshold : EnqueueRetryConfig
negative_threshold = record unset { enqueue_timeout = pos 9223372036854775807 }

always_stranded :
    (with_defaults negative_threshold).pending_stale_after ≡ negsuc 9223372006854775808
unfolding with_defaults
always_stranded = refl

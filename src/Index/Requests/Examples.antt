-- ===== src/Index/Requests/Examples.antt =====
-- The theorems on the validation requests, at concrete records.
use node_vault.Base.{◌≡◌, refl, ◌⊎◌, true, false, some, [], ◌∷◌, find_first}
use node_vault.Index.Schema.{ValidationRequestRecord, ValidationStatus}
use node_vault.Index.Requests.{Outcome, correlate}
use node_vault.Index.Requests.Graph.{
  transitions, correlates, run_requests, request_at, correlate_lem, run_requests-settled,
}
use node_vault.Index.Samples.{request, requests_of}

-- A verdict that comes before the enqueue was acknowledged.
abbrev verdict : Outcome
verdict = record {
  request_id = "req-1";
  job_id = "job-1";
  terminal = true;
  succeeded = true;
  reason = "";
}

abbrev done : ValidationRequestRecord
done = record request { validation_status = ValidationStatus.succeeded }

correlate_lem_example :
    ((correlate 9 verdict request).validation_status ≡ ValidationStatus.succeeded)
    × ((correlate 9 verdict request).completed_at ≡ 9)
    × ((request.validation_status ≡ ValidationStatus.running)
        ⊎ ((correlate 9 verdict request).sentinel_job_id ≡ "job-1"))
correlate_lem_example = correlate_lem 9 verdict request refl

run_requests-settled_example :
    request_at "req-1" (
      run_requests
        (transitions "req-1" ValidationStatus.running (λ r. r)
          ∷ correlates 9 (record verdict { succeeded = false })
          ∷ [])
        (requests_of (done ∷ [])))
    ≡ some done
unfolding find_first
run_requests-settled_example =
    run_requests-settled
      (transitions "req-1" ValidationStatus.running (λ r. r)
        ∷ correlates 9 (record verdict { succeeded = false })
        ∷ [])
      "req-1" (requests_of (done ∷ [])) done ((λ r. refl), (tt, tt)) refl refl

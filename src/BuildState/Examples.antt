-- ===== src/BuildState/Examples.antt =====
-- The theorems on the build table, at concrete tables.
use node_vault.Base.{◌≡◌, refl, true, false, some, [], ◌∷◌, ◌==◌, find_first, if◌then◌else◌, All}
use node_vault.BuildState.{
  Status, Build, answers, fails, Table, terminal, get, new_build, create, create_or_get,
  recover_interrupted, other_tool_spec,
}
use node_vault.BuildState.Lifecycle.{
  transitions, recovers, run_builds, verdict, run_builds-terminal,
}
use node_vault.BuildState.Recovery.{recover_interrupted_lem}
use node_vault.BuildState.Retry.{create_or_get-again}

abbrev cancelled : Build
cancelled = record (new_build "build-1" "spec-1" 0) {
  status = Status.interrupted;
  failure_reason = "cancelled";
}

abbrev table : Table
table = cancelled ∷ new_build "build-2" "spec-1" 0 ∷ []

run_builds-terminal_example :
    (b' : Build) × (get "build-1" (
        run_builds
          (transitions false "build-1" Status.succeeded "" 5 ∷ recovers false 6 ∷ [])
          table)
      ≡ some b')
    × (verdict b' ≡ verdict cancelled)
unfolding get find_first
run_builds-terminal_example =
    run_builds-terminal (transitions false "build-1" Status.succeeded "" 5 ∷ recovers false 6 ∷ [])
      "build-1" cancelled table refl refl

recover_interrupted_lem_example :
    All (λ b. terminal b.status ≡ true) (recover_interrupted false 5 table).1
    × (recover_interrupted false 6 (recover_interrupted false 5 table).1
        ≡ (answers 0, (recover_interrupted false 5 table).1))
recover_interrupted_lem_example = recover_interrupted_lem 5 6 table

create_or_get-again_example :
    (row : Build) × (get "build-3" (create_or_get false false "build-3" "spec-1" 5 table).1
      ≡ some row)
    × (row.tool_spec_digest ≡ "spec-1")
    × (create_or_get false false "build-3" "spec-2" 9
          (create_or_get false false "build-3" "spec-1" 5 table).1
        ≡ (
          if row.tool_spec_digest == "spec-2" then answers (row, false) else fails other_tool_spec,
          (create_or_get false false "build-3" "spec-1" 5 table).1,
        ))
unfolding create_or_get create get find_first
create_or_get-again_example =
    create_or_get-again false false "build-3" "spec-1" 5 table (new_build "build-3" "spec-1" 5) true
      false "spec-2" 9 refl

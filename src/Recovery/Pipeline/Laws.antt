-- ===== src/Recovery/Pipeline/Laws.antt =====
-- recovery/task/pipeline.go: how pipelines compose, and where they stop.
use cf_redis_broker.Base.{
  ◌≡◌, refl, ◌∙◌, String, List, [], ◌∷◌, ◌++◌, arith, Error, Result-cases, ok, err, inl, inr,
}
use cf_redis_broker.Base.Act.{◌>>=◌}
use cf_redis_broker.Os.{World}
use cf_redis_broker.Recovery.Pipeline.{Task, Artifact, run_task, run_tasks}

module _ (pipeline : String) where
  -- To run a pipeline of two lists of tasks is to run the first list, and then, unless it failed,
  -- the second on what the first returned.
  pub run_tasks-append :
      (before after : List Task) (artifact : Artifact) (w : World)
      → run_tasks pipeline (before ++ after) artifact w
        ≡ (run_tasks pipeline before artifact >>= run_tasks pipeline after) w
  unfolding run_tasks
  run_tasks-append [] after artifact w = refl
  run_tasks-append (t ∷ ts) after artifact w =
      elim (Result-cases (run_task pipeline t artifact w).0) [
        | inl (e, bad) ↦ rw bad refl
        | inr (next, good) ↦
            rw good (run_tasks-append ts after next (run_task pipeline t artifact w).1)
      ]

  first_failed :
      (after : List Task) (task : Task) (artifact : Artifact) (w w' : World) (e : Error)
      → run_task pipeline task artifact w ≡ (err e, w')
      → run_tasks pipeline (task ∷ after) artifact w ≡ (err e, w')
  unfolding run_tasks
  first_failed after task artifact w w' e failed = ground arith

  -- Where the tasks in front succeed and the next task fails, the pipeline returns the error of
  -- that task, in the state that it left: whatever tasks follow, none is run.
  pub run_tasks_failed :
      (before after : List Task) (task : Task) (artifact next : Artifact) (w w₁ w₂ : World)
      (e : Error)
      → run_tasks pipeline before artifact w ≡ (ok next, w₁)
      → run_task pipeline task next w₁ ≡ (err e, w₂)
      → run_tasks pipeline (before ++ task ∷ after) artifact w ≡ (err e, w₂)
  run_tasks_failed before after task artifact next w w₁ w₂ e ran failed =
      run_tasks-append before (task ∷ after) artifact w
      ∙ rw ran (first_failed after task next w₁ w₂ e failed)

-- ===== src/Recovery/Pipeline.antt =====
-- recovery/task/pipeline.go, recovery/task/rename.go and recovery/task/task.go: tasks that hand an
-- artifact on. An artifact is its path.
pub mod Laws
use cf_redis_broker.Base.{String, some, List, [], ◌∷◌}
use cf_redis_broker.Base.Act.{Act, on_error, pure, ◌>>=◌, ◌>>◌}
use cf_redis_broker.Os.{World, log_info, log_error, always}

abbrev pub Artifact : Type 0
Artifact = String

pub record Task : Type 0 where
  pub name : String
  pub run : Artifact → Act World Artifact

abbrev pub step_data : String → String → Task → List (String × String)
step_data event pipeline task = ("event", event) ∷ ("pipeline", pipeline) ∷ ("task", task.name) ∷ []

-- The action is spelled as in the program.
abbrev pub step_action : String
step_action = "pipleline-step"

-- One round of the loop.
unfoldable pub run_task : String → Task → Artifact → Act World Artifact
run_task pipeline task artifact = do
  always (log_info step_action (step_data "starting" pipeline task))
  next ←
      on_error (task.run artifact)
        (λ e. log_error step_action (some e) (step_data "failed" pipeline task))
  always (log_info step_action (step_data "done" pipeline task))
  pure next

unfoldable pub run_tasks : String → List Task → Artifact → Act World Artifact
run_tasks pipeline [] artifact = pure artifact
run_tasks pipeline (task ∷ tasks) artifact = do
  next ← run_task pipeline task artifact
  run_tasks pipeline tasks next

-- A pipeline is a task.
abbrev pub new_pipeline : String → List Task → Task
new_pipeline name tasks = record { name = name; run = run_tasks name tasks }

abbrev pub rename_data : String → String → String → List (String × String)
rename_data event source target =
    ("event", event) ∷ ("source", source) ∷ ("target", target) ∷ ("task", "rename") ∷ []

-- `os_rename` is `os.Rename`.
module _ (os_rename : String → String → Act World (Unit {0})) where
  unfoldable pub run_rename : String → Artifact → Act World Artifact
  run_rename target source = do
    always (log_info "rename" (rename_data "starting" source target))
    on_error (os_rename source target)
        (λ e. log_error "rename" (some e) (rename_data "failed" source target))
    always (log_info "rename" (rename_data "done" source target))
    pure target

  abbrev pub new_rename : String → Task
  new_rename target = record { name = "rename"; run = run_rename target }

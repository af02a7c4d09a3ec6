-- ===== src/Worker/Finish.antt =====
-- app/queue/worker.py: the errors of the object storage, and the completed row.
use local_image_generator_se.Common.{String, List, some}
use local_image_generator_se.Common.Text.{Text}
use local_image_generator_se.Schema.{Job}
use local_image_generator_se.Jobs.Transitions.{set_completed}
use local_image_generator_se.Validation.Request.{ModelConfig}
use local_image_generator_se.Worker.Backend.{
  Raised, storage_error, returned, JobResult, World, Work, give, throw, on_store, fail, ◌>>◌,
}

-- except StorageError
abbrev pub on_storage_error : {A : Type 0} → World → Job → Raised → Work A
on_storage_error world job (storage_error m) = fail world job "storage_error" m (storage_error m)
on_storage_error world job e = throw e

abbrev pub remember : Text → Work (Unit {0})
remember name w = (returned tt, record w { last_model_name = some name })

unfoldable pub finish : World → Job → ModelConfig → JobResult → List String → Work JobResult
unfolding set_completed
finish world job model result output_keys =
    on_store world (set_completed (world.clock 1) job.id output_keys (world.dumps result))
    >> remember model.name
    >> give result

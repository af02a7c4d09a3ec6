-- ===== src/Worker/Quiet.antt =====
-- app/queue/worker.py: the steps that submit no graph.
use local_image_generator_se.Common.{
  String, ◌≡◌, Option, none, some, List, [], ◌∷◌, ◌++◌, arith, In, In-append_cases, inl, inr,
}
use local_image_generator_se.Common.Text.{Text}
use local_image_generator_se.Schema.{Job}
use local_image_generator_se.Store
use local_image_generator_se.Store.{JobStore, Exec, ok, err}
use local_image_generator_se.Jobs.Transitions.{set_failed}
use local_image_generator_se.Validation.Request.{ValidatedJob}
use local_image_generator_se.Workflows.Graph.{Graph, Attempt, done, raised as fault}
use local_image_generator_se.Workflows.Sources.{inject_init_image}
use local_image_generator_se.Worker.Backend.{
  Bytes, Raised, comfy_unreachable, comfy_node, comfy_timeout, storage_error, other, Answer,
  returned, raised, Call, submit, upload_image, Worker, World, fail, call, on_store, of_exec,
  on_graph,
}
use local_image_generator_se.Worker.Row.{Ends, bind-Ends, handled-Ends}
use local_image_generator_se.Worker.Steps.{
  read_workflow, prepare, upload_as, upload_bytes, on_unreachable,
}

module _ (world : World) (job : Job) (start : Worker) where
  -- No graph was submitted since the start, and the last model is that of the start.
  abbrev pub Quiet : Worker → Type 0
  Quiet w =
      (w.last_model_name ≡ start.last_model_name)
      × ((g : Graph) → In (submit g) w.calls → In (submit g) start.calls)

  abbrev pub Calm : {A : Type 0} → A → Worker → Type 0
  Calm _ w = Quiet w

  abbrev pub Stays : {A : Type 0} → Answer A × Worker → Type 0
  Stays = Ends Calm Calm

  pub on_store-Quiet : {A : Type 0} (x : Exec A) (w : Worker) → Quiet w → Stays (on_store world x w)
  on_store-Quiet {A} x w q = go (x w.store)
    where
      go : (r : Store.Result A × JobStore) → Stays (of_exec world w r)
      go (ok a, s) = q
      go (err e, s) = q

  pub fail-Quiet :
      {A : Type 0} (P : A → Worker → Type 0) (code message : String) (e : Raised) (w : Worker)
      → Quiet w
      → Ends P Calm (fail world job code message e w)
  unfolding fail
  fail-Quiet P code message e w q =
      bind-Ends Calm P Calm (on_store world (set_failed (world.clock 1) job.id code message)) _ w
        (on_store-Quiet (set_failed (world.clock 1) job.id code message) w q) (λ _ w' q'. q')

  on_unreachable-Quiet :
      (A : Type 0) (e : Raised) (w : Worker)
      → Quiet w
      → Stays {A = A} (on_unreachable world job e w)
  on_unreachable-Quiet A (comfy_unreachable m) w q = fail-Quiet Calm _ _ _ w q
  on_unreachable-Quiet A (comfy_node m) w q = q
  on_unreachable-Quiet A (comfy_timeout m) w q = q
  on_unreachable-Quiet A (storage_error m) w q = q
  on_unreachable-Quiet A (other m) w q = q

  pub read-Quiet : (o : Option Graph) (w : Worker) → Quiet w → Stays (read_workflow o w)
  read-Quiet none w q = q
  read-Quiet (some g) w q = q

  pub graph-Quiet : (g : Attempt Graph) (w : Worker) → Quiet w → Stays (on_graph world g w)
  graph-Quiet (done g) w q = q
  graph-Quiet (fault e) w q = q

  pub prepare-Quiet : (v : ValidatedJob) (w : Worker) → Quiet w → Stays (prepare world v w)
  unfolding prepare
  prepare-Quiet v w q =
      bind-Ends Calm Calm Calm (read_workflow (world.load_workflow v.model.workflow_path)) _ w
        (read-Quiet (world.load_workflow v.model.workflow_path) w q)
        (λ g w' q'. graph-Quiet _ w' q')

  pub earlier :
      (c : Call) (g : Graph) (cs : List Call)
      → ¬ (submit g ≡ c)
      → In (submit g) (cs ++ c ∷ [])
      → In (submit g) cs
  earlier c g cs n i = elim (In-append_cases (submit g) cs (c ∷ []) i) [
    | inl j ↦ j
    | inr (inl e) ↦ absurd (n e)
    | inr (inr j) ↦ absurd j
  ]

  -- A call that is no submission.
  called-Quiet :
      {A : Type 0} (c : Call) (answer : Answer A) (w : Worker)
      → ((g : Graph) → ¬ (submit g ≡ c))
      → Quiet w
      → Stays (call c answer w)
  called-Quiet c (returned a) w n (l, k) = (l, λ g i. k g (earlier c g w.calls (n g) i))
  called-Quiet c (raised e) w n (l, k) = (l, λ g i. k g (earlier c g w.calls (n g) i))

  pub upload_bytes-Quiet :
      (filename : Text) (o : Option Bytes) (g : Graph) (w : Worker)
      → Quiet w
      → Stays (upload_bytes world job filename o g w)
  upload_bytes-Quiet filename none g w q = q
  upload_bytes-Quiet filename (some []) g w q = q
  upload_bytes-Quiet filename (some (b ∷ bs)) g w q =
      bind-Ends Calm Calm Calm (upload_as world job (b ∷ bs) filename)
        (λ _. on_graph world (inject_init_image filename g)) w
        (handled-Ends Calm Calm Calm (on_unreachable world job) _
          (called-Quiet (upload_image filename) (world.on_upload_image (b ∷ bs) filename) w
            (λ g e. other_call g filename e) q)
          (on_unreachable-Quiet (Unit {0})))
        (λ _ w' q'. graph-Quiet (inject_init_image filename g) w' q')
    where
      other_call : (g : Graph) (f : Text) → ¬ (submit g ≡ upload_image f)
      other_call g f e = absurd (ground (arith, e))

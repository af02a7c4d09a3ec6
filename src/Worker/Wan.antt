-- ===== src/Worker/Wan.antt =====
-- app/queue/worker.py: the graph of a WAN video, from the template of its model, for the nodes of
-- ComfyUI and for those of WanVideoWrapper.
use local_image_generator_se.Common.{
  ℕ, ◌/◌, Bool, true, false, ◌||◌, Option, none, some, List, [], ◌∷◌, ◌++◌, ltb, if◌then◌else◌,
}
use local_image_generator_se.Common.Text.{Text, codes, text_eq}
use local_image_generator_se.Validation.Request.{
  ValidatedVideoJob, WanVideoAdvancedOptions, Task, plus, get_or,
}
use local_image_generator_se.Workflows.Graph.{
  Value, text, int, float, flag, Node, Graph, bad_inputs, Attempt, done, find_anchor, ◌>>=◌,
}
use local_image_generator_se.Workflows.Sources.{edit_node, edit_inputs, class_is}
use local_image_generator_se.Workflows.Weights.{inject_video_weights, inject_mmaudio_weights}
use local_image_generator_se.Workflows.Wan.{inject_wan_lora_multi, inject_wan_core_loras}
use local_image_generator_se.Workflows.Advanced.{apply_wan_advanced_patches}
use local_image_generator_se.Worker.Prompt.{set_inputs}
use local_image_generator_se.Worker.Ltxv.{put_all, set_if_anchored}

-- Whether the template has a core loader.
unfoldable pub is_core : Graph → Bool
is_core [] = false
is_core ((i, node) ∷ graph) = class_is (codes "UNETLoader") node || is_core graph

abbrev merge_loras_of : Option WanVideoAdvancedOptions → Option Bool
merge_loras_of none = none
merge_loras_of (some adv) = adv.merge_loras

abbrev low_mem_load_of : Option WanVideoAdvancedOptions → Option Bool
low_mem_load_of none = none
low_mem_load_of (some adv) = adv.low_mem_load

abbrev wan_loras : Bool → ValidatedVideoJob → Graph → Attempt Graph
wan_loras true v = inject_wan_core_loras v.loras
wan_loras false v =
    inject_wan_lora_multi v.loras (merge_loras_of v.wan_advanced) (low_mem_load_of v.wan_advanced)

-- The injections whose WorkflowValidationError is caught.
unfoldable pub wan_injected : Bool → Task → ValidatedVideoJob → Graph → Attempt Graph
unfolding inject_video_weights inject_mmaudio_weights inject_wan_lora_multi inject_wan_core_loras
    apply_wan_advanced_patches
wan_injected core task v graph =
    inject_video_weights v.model graph
    >>= inject_mmaudio_weights v.model
    >>= wan_loras core v
    >>= apply_wan_advanced_patches v.wan_advanced task

abbrev wan_prompts : Bool → ValidatedVideoJob → Graph → Attempt Graph
wan_prompts true v graph = do
  pos_id ← find_anchor graph (codes "%WAN_POSITIVE%")
  neg_id ← find_anchor graph (codes "%WAN_NEGATIVE%")
  g ← set_inputs pos_id ((codes "text", text v.prompt) ∷ []) graph
  set_inputs neg_id ((codes "text", text v.negative_prompt) ∷ []) g
wan_prompts false v graph = do
  prompts_id ← find_anchor graph (codes "%WAN_PROMPTS%")
  set_inputs prompts_id
      ((codes "positive_prompt", text v.prompt)
        ∷ (codes "negative_prompt", text v.negative_prompt)
        ∷ [])
      graph

abbrev dims_inputs : ValidatedVideoJob → Node → List (Text × Value)
dims_inputs v node =
    (codes "width", int v.width)
    ∷ (codes "height", int v.height)
    ∷ (if class_is (codes "WanImageToVideo") node
        then (codes "length", int v.frames)
        else (codes "num_frames", int v.frames))
    ∷ []

abbrev wan_dims : ValidatedVideoJob → Graph → Attempt Graph
wan_dims v graph = do
  dims_id ← find_anchor graph (codes "%WAN_DIMS%")
  edit_node dims_id
      (λ node. edit_inputs bad_inputs (λ fs. done (put_all (dims_inputs v node) fs)) node) graph

-- _CORE_WAN_SCHEDULER_MAP.get(scheduler, scheduler)
unfoldable pub core_scheduler : Text → Text
unfolding text_eq
core_scheduler scheduler =
    if text_eq scheduler (codes "unipc")
    then codes "simple"
    else if text_eq scheduler (codes "dpm++")
    then codes "dpm_fast"
    else if text_eq scheduler (codes "flow_dpm")
    then codes "simple"
    else scheduler

-- max(1, steps // 2)
unfoldable pub half_steps : ℕ → ℕ
half_steps steps = if ltb 1 (steps / 2) then steps / 2 else 1

abbrev core_inputs : ℕ → ValidatedVideoJob → List (Text × Value)
core_inputs seed v =
    (codes "noise_seed", int seed)
    ∷ (codes "steps", int v.steps)
    ∷ (codes "cfg", float (plus v.cfg))
    ∷ (codes "scheduler", text (core_scheduler v.scheduler))
    ∷ []

abbrev legacy_inputs : ℕ → ValidatedVideoJob → List (Text × Value)
legacy_inputs seed v =
    (codes "seed", int seed)
    ∷ (codes "steps", int v.steps)
    ∷ (codes "cfg", float (plus v.cfg))
    ∷ (codes "shift", float (plus v.shift))
    ∷ (codes "scheduler", text v.scheduler)
    ∷ (codes "riflex_freq_index", int v.riflex_freq_index)
    ∷ (codes "force_offload", flag v.force_offload)
    ∷ []

abbrev first_pass : ℕ → ValidatedVideoJob → List (Text × Value)
first_pass seed v =
    core_inputs seed v
    ++ (codes "end_at_step", int (half_steps v.steps))
      ∷ (codes "return_with_leftover_noise", text (codes "enable"))
      ∷ []

abbrev second_pass : ℕ → ValidatedVideoJob → List (Text × Value)
second_pass seed v = core_inputs seed v ++ (codes "start_at_step", int (half_steps v.steps)) ∷ []

-- Whether the node that stands first under an id has a class.
unfoldable pub class_at : Text → Text → Graph → Bool
unfolding text_eq
class_at name node_id [] = false
class_at name node_id ((i, node) ∷ graph) =
    let later = class_at name node_id graph in
    if text_eq i node_id then class_is name node else later

abbrev sampled : ℕ → ValidatedVideoJob → Text → Bool → Graph → Attempt Graph
sampled seed v sampler_id true graph =
    set_inputs sampler_id (first_pass seed v) graph
    >>= set_if_anchored (codes "%WAN_SHIFT%") ((codes "shift", float (plus v.shift)) ∷ [])
    >>= set_if_anchored (codes "%WAN_NAG_SAMPLER%") (second_pass seed v)
sampled seed v sampler_id false graph = set_inputs sampler_id (legacy_inputs seed v) graph

abbrev wan_sampler : ℕ → ValidatedVideoJob → Graph → Attempt Graph
wan_sampler seed v graph = do
  sampler_id ← find_anchor graph (codes "%WAN_SAMPLER%")
  sampled seed v sampler_id (class_at (codes "KSamplerAdvanced") sampler_id graph) graph

abbrev duration_of : (ℕ → ℕ → Value) → ValidatedVideoJob → Value
duration_of quotient v = if ltb 0 v.fps then quotient v.frames v.fps else float (plus 8000)

abbrev mmaudio_inputs : (ℕ → ℕ → Value) → ℕ → ValidatedVideoJob → List (Text × Value)
mmaudio_inputs quotient seed v =
    (codes "duration", duration_of quotient v)
    ∷ (codes "prompt", text v.prompt)
    ∷ (codes "negative_prompt", text v.negative_prompt)
    ∷ (codes "seed", int seed)
    ∷ (codes "force_offload", flag v.force_offload)
    ∷ (codes "steps", int (get_or v.model.defaults.mmaudio_steps 25))
    ∷ (codes "cfg", float (plus (get_or v.model.defaults.mmaudio_cfg 4500)))
    ∷ []

-- The settings of the request, of which no error is caught. `quotient` is the division of floats.
unfoldable pub wan_settings : (ℕ → ℕ → Value) → Bool → ℕ → ValidatedVideoJob → Graph → Attempt Graph
unfolding edit_node set_if_anchored core_scheduler half_steps class_at
wan_settings quotient core seed v graph =
    wan_prompts core v graph
    >>= wan_dims v
    >>= wan_sampler seed v
    >>= set_if_anchored (codes "%VIDEO_OUTPUT%") ((codes "frame_rate", int v.fps) ∷ [])
    >>= set_if_anchored (codes "%MMAUDIO_SAMPLER%") (mmaudio_inputs quotient seed v)

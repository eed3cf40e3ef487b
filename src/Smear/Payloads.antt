-- ===== src/Smear/Payloads.antt =====
-- The types and functions of smear-cursor that its reducer passes on or calls without looking
-- inside: texts and floats, positions of the host, the plans of the background probe, the simulation
-- of motion and the planner of scenes.
use dotfiles_nix.Base.{ℕ, Bool, Option}

pub record Payloads : Type 1 where
  -- `f64` with its addition and `as_delay_ms`; texts with the test for "none" and for insert modes.
  pub Float : Type 0
  pub float_add : Float → Float → Float
  pub as_delay_ms : Float → ℕ
  pub Text : Type 0
  pub is_none_text : Text → Bool
  pub is_insert_like_mode : Text → Bool
  pub normal_mode : Text
  pub insert_mode : Text
  pub Cell : Type 0
  pub Shape : Type 0
  pub Viewport : Type 0
  pub Buffer : Type 0
  pub Window : Type 0
  pub window_buffer : Window → Buffer
  pub Context : Type 0
  pub Boundary : Type 0
  pub context_boundary : Context → Option Boundary
  pub Generations : Type 0
  pub Witness : Type 0
  pub ObservationMotion : Type 0
  pub Surface : Type 0
  -- The background probe.
  pub ProbePlan : Type 0
  pub plan_is_empty : ProbePlan → Bool
  pub Progress : Type 0
  pub new_progress : ProbePlan → Progress
  pub Chunk : Type 0
  pub progress_chunk : Progress → Option Chunk
  pub Mask : Type 0
  pub Batch : Type 0
  pub empty_batch : Batch
  pub is_valid_for_viewport : Batch → Viewport → Bool
  -- `BackgroundProbeProgress::apply_chunk`: the new progress, and the batch if it is complete.
  pub progress_apply : Progress → Chunk → Mask → Option (Progress × Option Batch)
  -- Scenes and their realization.
  pub Frame : Type 0
  pub frame_plan : Frame → Viewport → ProbePlan
  pub Decision : Type 0
  pub Handle : Type 0
  pub ApplyMetrics : Type 0
  pub Patch : Type 0
  pub patch_acknowledged : Patch → Option Handle
  pub patch_target : Patch → Option Handle
  pub Draw : Type 0
  pub Clear : Type 0
  pub RealizationFailure : Type 0
  pub Semantics : Type 0
  pub Projection : Type 0
  pub SceneUpdate : Type 0
  pub apply_update : SceneUpdate → Semantics → Projection → Semantics × Projection
  -- The simulation of motion.
  pub Runtime : Type 0
  pub Motion : Type 0
  pub reclaim : Motion → Runtime → Runtime
  pub apply_motion : Motion → Runtime → Runtime
  pub Corners : Type 0
  pub Position : Type 0

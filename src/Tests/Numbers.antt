-- ===== src/Tests/Numbers.antt =====
-- Payloads for the runs of the models of smear-cursor.
use dotfiles_nix.Base.{ℕ, ◌+◌, true, none, some, ◌==◌}
use dotfiles_nix.Smear.Payloads.{Payloads}

-- Every opaque payload is a number.
abbrev pub numbers : Payloads
numbers = record {
  Float = ℕ;
  float_add = λ a b. a + b;
  as_delay_ms = λ a. a;
  Text = ℕ;
  is_none_text = λ t. t == 0;
  is_insert_like_mode = λ t. t == 1;
  normal_mode = 2;
  insert_mode = 1;
  Cell = ℕ;
  Shape = ℕ;
  Viewport = ℕ;
  Buffer = ℕ;
  Window = ℕ;
  window_buffer = λ v. v;
  Context = ℕ;
  Boundary = ℕ;
  context_boundary = λ x. none;
  Generations = ℕ;
  Witness = ℕ;
  ObservationMotion = ℕ;
  Surface = ℕ;
  ProbePlan = ℕ;
  plan_is_empty = λ p. p == 0;
  Progress = ℕ;
  new_progress = λ p. p;
  Chunk = ℕ;
  progress_chunk = λ p. some p;
  Mask = ℕ;
  Batch = ℕ;
  empty_batch = 0;
  is_valid_for_viewport = λ b v. true;
  progress_apply = λ p k m. none;
  Frame = ℕ;
  frame_plan = λ f v. f;
  Decision = ℕ;
  Handle = ℕ;
  ApplyMetrics = ℕ;
  Patch = ℕ;
  patch_acknowledged = λ p. none;
  patch_target = λ p. some p;
  Draw = ℕ;
  Clear = ℕ;
  RealizationFailure = ℕ;
  Semantics = ℕ;
  Projection = ℕ;
  SceneUpdate = ℕ;
  apply_update = λ u s p. (s + u, p + u);
  Runtime = ℕ;
  Motion = ℕ;
  reclaim = λ m r. r + m;
  apply_motion = λ m r. m;
  Corners = ℕ;
  Position = ℕ;
}

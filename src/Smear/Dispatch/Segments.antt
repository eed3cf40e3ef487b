-- ===== src/Smear/Dispatch/Segments.antt =====
-- The segments of a batch of effects: `split_effect_batch_by_semantic_power` of
-- smear-cursor/src/events/runtime/dispatch_queue.rs.
use dotfiles_nix.Base.{
  ◌≡◌, ◌≢◌, refl, sym, ◌∙◌, ◌⊎◌, inl, inr, List, [], ◌∷◌, ◌++◌, map, back-snoc, set_back-snoc,
  snoc_cases, snoc-ne-nil, All, All-snoc, All-split,
}
use mathlib.Core.List.{append-nil, append_assoc, map-append, map-map}
use dotfiles_nix.Smear.Payloads.{Payloads}
use dotfiles_nix.Smear.Reducer.Effects.{Effect}
use dotfiles_nix.Smear.Agenda.{OrderedEffect, ShellOnlyEffect, into_ordered_or_shell_only}
use dotfiles_nix.Smear.Dispatch.{
  EffectBatchSegment, ordered, shell_only, append_segment, append_ordered_effect,
  append_shell_only_effect, split_from,
}
use dotfiles_nix.Smear.Dispatch.Marks.{Mark, effect, class_mark, shell_mark}

module _ {w : Payloads} where
  abbrev pub segment_effects : EffectBatchSegment w → List (OrderedEffect w ⊎ ShellOnlyEffect)
  segment_effects (ordered es) = map inl es
  segment_effects (shell_only es) = map inr es

  abbrev pub all_segment_effects :
      List (EffectBatchSegment w) → List (OrderedEffect w ⊎ ShellOnlyEffect)
  all_segment_effects [] = []
  all_segment_effects (s ∷ ss) = segment_effects s ++ all_segment_effects ss

  all_segment_effects-append :
      (xs ys : List (EffectBatchSegment w))
      → all_segment_effects (xs ++ ys) ≡ all_segment_effects xs ++ all_segment_effects ys
  all_segment_effects-append [] ys = refl
  all_segment_effects-append (x ∷ xs) ys = simp (all_segment_effects-append xs ys, append_assoc)

  abbrev pub segment_marks : EffectBatchSegment w → List (Mark w)
  segment_marks (ordered es) = map effect es
  segment_marks (shell_only es) = map shell_mark es

  abbrev pub all_segment_marks : List (EffectBatchSegment w) → List (Mark w)
  all_segment_marks [] = []
  all_segment_marks (s ∷ ss) = segment_marks s ++ all_segment_marks ss

  -- No segment is empty.
  abbrev pub IsFull : EffectBatchSegment w → Type 0
  IsFull (ordered es) = es ≢ []
  IsFull (shell_only es) = es ≢ []

  same_segment :
      (ss : List (EffectBatchSegment w)) (es : List (OrderedEffect w)) (e : OrderedEffect w)
      → append_ordered_effect (ss ++ ordered es ∷ []) e ≡ ss ++ ordered (es ++ e ∷ []) ∷ []
  unfolding append_ordered_effect
  same_segment ss es e =
      rw (back-snoc ss (ordered es), append_ordered_effect) (set_back-snoc ss (ordered es) _)

  next_segment :
      (ss : List (EffectBatchSegment w)) (es : List ShellOnlyEffect) (e : OrderedEffect w)
      → append_ordered_effect (ss ++ shell_only es ∷ []) e
        ≡ (ss ++ shell_only es ∷ []) ++ ordered (e ∷ []) ∷ []
  unfolding append_ordered_effect
  next_segment ss es e =
      rw (back-snoc {A = EffectBatchSegment w} ss (shell_only es), append_ordered_effect) refl

  ruleset segment_laws = (all_segment_effects-append, map-append, append_assoc, append-nil)

  append_ordered_effect_lem :
      (ss : List (EffectBatchSegment w)) (e : OrderedEffect w)
      → (all_segment_effects (append_ordered_effect ss e) ≡ all_segment_effects ss ++ inl e ∷ [])
        × (All IsFull ss → All IsFull (append_ordered_effect ss e))
  unfolding append_ordered_effect
  append_ordered_effect_lem ss e = elim (snoc_cases ss) [
    | inl n ↦ rw n (refl, λ h. (snoc-ne-nil [] e, tt))
    | inr (rest, ordered es, n) ↦
        rw (n, same_segment)
          (
            simp segment_laws,
            λ h. All-snoc IsFull rest _ (All-split IsFull rest _ h).0 (snoc-ne-nil es e),
          )
    | inr (rest, shell_only es, n) ↦
        rw (n, next_segment) (simp segment_laws, λ h. All-snoc IsFull _ _ h (snoc-ne-nil [] e))
  ]

  same_shell_segment :
      (ss : List (EffectBatchSegment w)) (es : List ShellOnlyEffect) (e : ShellOnlyEffect)
      → append_shell_only_effect (ss ++ shell_only es ∷ []) e ≡ ss ++ shell_only (es ++ e ∷ []) ∷ []
  unfolding append_shell_only_effect
  same_shell_segment ss es e =
      rw (back-snoc {A = EffectBatchSegment w} ss (shell_only es), append_shell_only_effect)
        (set_back-snoc ss (shell_only es) _)

  next_shell_segment :
      (ss : List (EffectBatchSegment w)) (es : List (OrderedEffect w)) (e : ShellOnlyEffect)
      → append_shell_only_effect (ss ++ ordered es ∷ []) e
        ≡ (ss ++ ordered es ∷ []) ++ shell_only (e ∷ []) ∷ []
  unfolding append_shell_only_effect
  next_shell_segment ss es e = rw (back-snoc ss (ordered es), append_shell_only_effect) refl

  append_shell_only_effect_lem :
      (ss : List (EffectBatchSegment w)) (e : ShellOnlyEffect)
      → (all_segment_effects (append_shell_only_effect ss e) ≡ all_segment_effects ss ++ inr e ∷ [])
        × (All IsFull ss → All IsFull (append_shell_only_effect ss e))
  unfolding append_shell_only_effect
  append_shell_only_effect_lem ss e = elim (snoc_cases ss) [
    | inl n ↦ rw n (refl, λ h. (snoc-ne-nil [] e, tt))
    | inr (rest, shell_only es, n) ↦
        rw (n, same_shell_segment)
          (
            simp segment_laws,
            λ h. All-snoc IsFull rest _ (All-split IsFull rest _ h).0 (snoc-ne-nil es e),
          )
    | inr (rest, ordered es, n) ↦
        rw (n, next_shell_segment)
          (simp segment_laws, λ h. All-snoc IsFull _ _ h (snoc-ne-nil [] e))
  ]

  append_segment_lem :
      (ss : List (EffectBatchSegment w)) (r : OrderedEffect w ⊎ ShellOnlyEffect)
      → (all_segment_effects (append_segment ss r) ≡ all_segment_effects ss ++ r ∷ [])
        × (All IsFull ss → All IsFull (append_segment ss r))
  unfolding append_segment
  append_segment_lem ss (inl e) = append_ordered_effect_lem ss e
  append_segment_lem ss (inr e) = append_shell_only_effect_lem ss e

  -- The segments of a batch hold its effects in order, and none is empty.
  pub split_from_lem :
      (ss : List (EffectBatchSegment w)) (es : List (Effect w))
      → (all_segment_effects (split_from ss es)
          ≡ all_segment_effects ss ++ map into_ordered_or_shell_only es)
        × (All IsFull ss → All IsFull (split_from ss es))
  unfolding split_from
  split_from_lem ss [] = (sym (append-nil (all_segment_effects ss)), λ h. h)
  split_from_lem ss (e ∷ es) =
      let r = into_ordered_or_shell_only e in
      let a = append_segment_lem ss r in
      let b = split_from_lem (append_segment ss r) es in
      (
        b.0
            ∙ rw a.0 (
                append_assoc (all_segment_effects ss) (r ∷ []) (map into_ordered_or_shell_only es)),
        λ h. b.1 (a.1 h),
      )

  pub segment_marks-effects :
      (ss : List (EffectBatchSegment w))
      → all_segment_marks ss ≡ map class_mark (all_segment_effects ss)
  segment_marks-effects [] = refl
  segment_marks-effects (ordered es ∷ ss) = simp (segment_marks-effects ss, map-append, map-map)
  segment_marks-effects (shell_only es ∷ ss) = simp (segment_marks-effects ss, map-append, map-map)

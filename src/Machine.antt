-- ===== src/Machine.antt =====
-- What a reducer returns: nvim/rust/utils/nvim-oxi-utils/src/lib.rs, module `state_machine`. The
-- markers `NoEffect` and `NoCommand` are the type with one element.
use dotfiles_nix.Base.{List, [], ◌∷◌, Option, none, some}

pub record Transition (E C : Type 0) : Type 0 where
  pub effects : List E
  pub command : Option C

abbrev pub NoEffect : Type 0
NoEffect = Unit

abbrev pub NoCommand : Type 0
NoCommand = Unit

module _ {E C : Type 0} where
  unfoldable pub default_transition : Transition E C
  default_transition = record { effects = []; command = none }

  unfoldable pub with_effect : E → Transition E C
  with_effect e = record { effects = e ∷ []; command = none }

  unfoldable pub with_effects : List E → Transition E C
  with_effects es = record { effects = es; command = none }

  unfoldable pub with_command : C → Transition E C
  with_command c = record { effects = []; command = some c }

  unfoldable pub set_command : Transition E C → C → Transition E C
  set_command t c = record t { command = some c }

-- ===== src/Tests/Autocmds.antt =====
-- The machines of the autocmds plugin at concrete events, with numbers for titles and directories.
use dotfiles_nix.Base.{ℕ, ◌≡◌, ◌↔◌, none, some, true, false, List, [], ◌∷◌, arith, ℕ_discrete, take}
use dotfiles_nix.Autocmds.BufferMru as BufferMru
use dotfiles_nix.Autocmds.BufferMru.{max_recent_buffers}
use dotfiles_nix.Autocmds.BufferMru.Recency.{enter_all, history, enter_all-history}
use dotfiles_nix.Autocmds.OilLastBuf.{
  OilLastBufEvent, oil_buf_entered, win_closed, buf_wiped, mapped_buf_for_win,
}
use dotfiles_nix.Autocmds.OilLastBuf.Refinement.{run, empty, run_model, run-run_model}
use dotfiles_nix.Autocmds.Wezterm.{
  UpdateSlot, new_slot, request, WeztermState, request_title, title_completed, unavailable,
  set_tab_title, set_working_dir, reduce, title_channel, cwd_channel,
}
use dotfiles_nix.Autocmds.Wezterm.Slots.{
  IsOrdered, SlotOp, requests, succeeds, clears, run_slot, run_slot-IsOrdered, newest, IsSuperseded,
  request-newest,
}
use dotfiles_nix.Autocmds.Wezterm.Channels.{
  reduce-command, reduce-Contained, Contained, GateOp, succeeded, warns_failed, warns_unavailable,
}

enter_all-history_example :
    (enter_all BufferMru.empty (3 ∷ 5 ∷ 3 ∷ [])).recent
    ≡ take max_recent_buffers (history [] (3 ∷ 5 ∷ 3 ∷ []))
enter_all-history_example = enter_all-history (3 ∷ 5 ∷ 3 ∷ [])

abbrev oil_events : List OilLastBufEvent
oil_events = oil_buf_entered 1 10 ∷ oil_buf_entered 2 11 ∷ buf_wiped 10 ∷ win_closed 3 ∷ []

run-run_model_example :
    mapped_buf_for_win (run empty oil_events) 2 ≡ run_model (λ _. none) oil_events 2
run-run_model_example = run-run_model oil_events 2

abbrev slot_ops : List (SlotOp ℕ_discrete)
slot_ops = requests 1 ∷ requests 2 ∷ succeeds 1 ∷ clears ∷ []

run_slot-IsOrdered_example : IsOrdered ℕ_discrete (run_slot ℕ_discrete new_slot slot_ops)
run_slot-IsOrdered_example = run_slot-IsOrdered ℕ_discrete slot_ops

-- Title 1 is applied and title 2 on its way.
abbrev busy : UpdateSlot ℕ
busy = record { applied = some 1; in_flight = some 2; queued = none }

busy-IsOrdered : IsOrdered ℕ_discrete busy
busy-IsOrdered = λ e. ground arith

-- A request for title 1 is dropped, so title 2 stays the newest.
busy-dropped : request ℕ_discrete busy 1 ≡ (busy, none)
unfolding request
busy-dropped = ground arith

request-newest_example :
    newest ℕ_discrete (request ℕ_discrete busy 1).0 ≡ some 1 ↔ ¬ IsSuperseded ℕ_discrete busy 1
request-newest_example = request-newest ℕ_discrete busy 1 busy-IsOrdered

abbrev terminal : WeztermState ℕ ℕ
terminal = record {
  title = busy;
  cwd = record { applied = none; in_flight = none; queued = none };
  warning_gate = record {
    unavailable_reported = true;
    title_failed_reported = false;
    cwd_failed_reported = false;
  };
}

reduce-command_example :
    ((reduce ℕ_discrete ℕ_discrete terminal (request_title 3)).1.command ≡ some (set_tab_title 3)
      ↔ ((reduce ℕ_discrete ℕ_discrete terminal (request_title 3)).0.title.in_flight ≡ some 3
          × ¬ (terminal.title.in_flight ≡ some 3)))
    × ((reduce ℕ_discrete ℕ_discrete terminal (request_title 3)).1.command
          ≡ some (set_working_dir 4)
        ↔ ((reduce ℕ_discrete ℕ_discrete terminal (request_title 3)).0.cwd.in_flight ≡ some 4
            × ¬ (terminal.cwd.in_flight ≡ some 4)))
reduce-command_example =
    reduce-command ℕ_discrete ℕ_discrete terminal (request_title 3) 3 4 (busy-IsOrdered, tt)

reduce-Contained_example :
    Contained ℕ_discrete ℕ_discrete true true terminal
      (reduce ℕ_discrete ℕ_discrete terminal (title_completed 2 unavailable))
reduce-Contained_example =
    reduce-Contained ℕ_discrete ℕ_discrete terminal (title_completed 2 unavailable)

abbrev gate_history : List GateOp
gate_history = warns_failed title_channel ∷ warns_unavailable ∷ succeeded cwd_channel ∷ []

-- ===== src/Lib.antt =====
-- Verification of the Neovim plugins in Rust: the workspace nvim/rust of this repository.
--
-- Every plugin keeps its decisions in pure reducers: a state, events, and a transition that names
-- effects and a command, which an integration layer carries out in the editor. This library models
-- the reducers and proves what the integration layers rely on. Paths below are under nvim/rust.
--
-- Smear: the core of plugins/smear-cursor/src/core, which draws a trail behind the cursor.
--   Smear.Types      core/types.rs: lifecycles, timer identities, saturating u64 counters
--   Smear.Timers     core/state/policy.rs: `TimerState`, tokens that go stale when a timer is re-armed
--   Smear.Policy     core/state/policy.rs: `IngressPolicyState`, `RecoveryPolicyState`
--   Smear.Demand     core/state/ingress.rs: `DemandQueue` with one slot for each kind of demand, and
--                    `EntropyState`, which numbers demands and proposals
--   Smear.Cleanup    core/state/render_cleanup.rs: the schedule hot, cooling, cold by which retained
--                    windows are released, with exponential backoff
--   Smear.Probe      core/state/observation/probe.rs: requests for probes and their bounded retries;
--                    Slots has the probe slots of an observation and its batched background probe,
--                    Mask the packed mask of core/state/observation/background_probe.rs
--   Smear.Protocol   core/state/protocol.rs: `CoreState`. Phase has the phases and their accessors,
--                    Core the root state and `commit_protocol`, Moves one function for each change of
--                    phase, Setters those that replace one field, Steps a type of all of these with
--                    their runs. The state holds the models above as its shared part.
--   The protocol passes observations, proposals, motion and scenes on and reads little of them, so
--   they are the fields of the interface `Parts`, with the few functions that it calls.
--   Smear.Payloads   the types that the reducer only carries (cells, surfaces, frames, witnesses,
--                    scenes) and the functions it calls on them, as one record
--   Smear.Reducer    core/reducer, core/effect.rs and core/event.rs: `reduce_owned` takes the state
--                    and an event to the next state and the effects, over the models above
--     Config         what config.rs and core/runtime_reducer/cleanup.rs give the reducer
--     Snapshot       observations, proposals and the ledger of what is drawn; `parts` fills the
--                    interface of the protocol with them; `Calls` is the runtime of motion
--     ProbePolicy, Effects    the policies, effects and events as data
--     Delays, Requests, Cleaning    machine/support.rs: recovery and timers, requests, cleanup
--     Planning       machine/planning: from a ready observation to the request of a render plan
--     Observing, ProbeReports, Probes    machine/observation.rs: demands, collected observations and
--                    the reports of probes
--     Clocks         machine/timers.rs: timers that fire or are lost
--     Applying, Reports    machine/apply.rs: plans, cleanup, applied proposals and failures
--     Machine        machine/mod.rs, with the proofs about whole events in its child modules; Inner
--                    has their shared lemmas, Endings and Waiting those on the cleanup, and Runs the
--                    runs of events
--   An `unreachable!` of the source is `none`.
--   The next three are about plugins/smear-cursor/src/events, which carries out the effects.
--   Smear.Agenda     core/effect.rs and events/runtime/dispatch_queue.rs: the two classes of effects
--                    and the agenda that joins metrics and redraws
--   Smear.Dispatch   events/runtime/dispatch_queue.rs: `stage_batch` puts the effects of a reducer step
--                    in a queue and `pop_work_unit` takes one unit of work at a time. Marks is the flat
--                    list it stands for; Segments, Items and Counters have the shared lemmas
--   Smear.LruCache   events/lru_cache.rs: a doubly linked list in a vector of slots with a free list
--                    and an index. Links, Relinking, Detaching and Moving are about the links, Rep says
--                    which cells a cache holds, Slots and Allocating fill slots, Collecting and Sweeping
--                    are about `remove_where`, Runs compares sequences of calls with a list of entries
--
-- Autocmds: the machines of plugins/autocmds/src/machines.
--   Autocmds.BufferMru    buffer_mru/state.rs: the 64 buffers entered most recently
--   Autocmds.OilLastBuf   oil_last_buf: the last file-browser buffer of each window
--   Autocmds.Wezterm      wezterm: one slot for each of the terminal's title and directory, with what
--                         is applied, in flight and queued, and the gate of the warnings
--
-- Theme: plugins/theme-switcher/src/core.
--   Theme.Catalog    reducer.rs and selection.rs: the themes, finding and cycling
--   Theme.Picker     reducer.rs: `ThemeSwitcherMachine`, one session of the picker
--
-- Registry: utils/nvim-oxi-utils/src/indexed_registry.rs, a map with two unique indexes.
-- Preview: plugins/snacks-preview/src/reducer.rs, whose reducer keeps its previews in a Registry, by
-- buffer, window and token.
-- Text: plugins/text/src/core: the range of lines of a command, and the commands that drop repeated
-- lines and shuffle lines. Lines are a type parameter with a decision of equality.
--
-- Machine: the module `state_machine` of utils/nvim-oxi-utils/src/lib.rs, which all reducers return.
-- Base has the shared notation, maps as association lists, machine words; Tests runs the models at
-- concrete inputs.
--
-- A method that takes `&mut self` returns the new state with its result, and one that consumes the
-- state and fails returns `none`. Numbers are natural; a u8 or u64 that saturates or wraps does so in
-- the model. A `HashMap` or `BTreeMap` is an association list of which only lookups, lengths and
-- removals are read. All loops are recursion on a list; the one that dequeues a whole queue takes
-- fuel, and as many steps as demands are pending empty it, and the one that looks for a free token
-- takes one attempt more than there are tokens. Strings, titles and directories are type parameters,
-- with a decision of equality where the code compares them.
--
-- Not modelled: debug assertions (those of the registry are theorems of Registry), names for
-- diagnostics, `Drop` and logging; the calls of Neovim and of other processes in the integration
-- layers; the rest of smear-cursor (the simulation of motion, the plans and batches of background
-- probes, the projection to cells, the render planner and the host bridge), and the plugins
-- project-root and readline, and the sorting and cutting of lines of the plugin text; and that a new
-- cache allocates its capacity at once, which panics where no machine can hold it. Nix, Lua and shell
-- files configure the system and are not code of these plugins.
pub mod Autocmds
pub mod Base
pub mod Machine
pub mod Preview
pub mod Registry
pub mod Smear
pub mod Tests
pub mod Text
pub mod Theme

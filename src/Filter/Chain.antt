-- ===== src/Filter/Chain.antt =====
-- src/mitm/flow/filter_runtime.rs, how the filters that match a flow are run one after the other, what is
-- recorded of each run, and how a slow filter is put in quarantine. A run of one filter is a parameter:
-- from the state store it gives the answer (none for an error), the time it took in nanoseconds, the
-- statistics and the store that it leaves. So are the instants of the sweeps, by the number of
-- filters matched so far, and whether a file can be moved to quarantine.
mod Laws
mod Quarantine
mod Runs
mod Tests
use inspect.Common.{
  ℕ, zero, suc, ◌+◌, ◌*◌, ◌/◌, Bool, true, false, ◌&&◌, ◌||◌, Option, none, some, List, [], ◌∷◌,
  ◌++◌, Str, codes, str_eq, ltb, is_some, any, if◌then◌else◌,
}
use inspect.StateStore.{FilterStateLimits, StateOpStats, StateIndex, sweep_expired}
use inspect.Filter.Types.{
  ConnectAction, RequestAction, ResponseAction, CompletedAction, FilterConnect, connect_pass,
  request_pass, response_pass, completed_pass,
}
use inspect.Filter.Trigger.{
  FilterPhase, PathBuf, FilterConnectView, FilterRequestView, FilterResponseView, request, response,
  completed,
}
use inspect.Filter.Program.{CompiledFilter, filter_name, run_connect_action}
use inspect.Filter.FilterSet.{
  matching_connect, matching_request, matching_response, matching_completed,
}
use inspect.Filter.Merge.{merge_request_action, merge_response_action, merge_connect_action}

pub record FilterResourceStats : Type 0 where
  pub state_read_bytes : ℕ
  pub state_write_bytes : ℕ
  pub state_items : ℕ
  pub evicted_items : ℕ
  pub limit_hit : Bool

abbrev pub default_stats : FilterResourceStats
default_stats = record {
  state_read_bytes = 0;
  state_write_bytes = 0;
  state_items = 0;
  evicted_items = 0;
  limit_hit = false;
}

unfoldable pub merge_stats : FilterResourceStats → FilterResourceStats → FilterResourceStats
merge_stats self rhs = record {
  state_read_bytes = self.state_read_bytes + rhs.state_read_bytes;
  state_write_bytes = self.state_write_bytes + rhs.state_write_bytes;
  state_items = rhs.state_items;
  evicted_items = self.evicted_items + rhs.evicted_items;
  limit_hit = self.limit_hit || rhs.limit_hit;
}

-- What is recorded of one run of a filter.
pub record ExecStat : Type 0 where
  pub phase : FilterPhase
  pub filter_id : Str
  pub filter_name : Str
  pub elapsed_us : ℕ
  pub result_code : ℕ
  pub stats : FilterResourceStats

pub record Execution (A : Type 0) : Type 0 where
  pub result : Option A
  pub elapsed : ℕ
  pub stats : FilterResourceStats
  pub store : Option StateIndex

pub record FlowFilterRuntime : Type 0 where
  pub state_store : Option StateIndex
  pub quarantined_once : List PathBuf
  pub exec_stats : List ExecStat
  -- The files moved to quarantine, the latest first.
  pub moved : List PathBuf

-- What the environment of the program decides.
pub record Env : Type 0 where
  pub limits : FilterStateLimits
  pub now : ℕ → ℕ
  -- The value of INSPECT_ROTO_JIT_QUARANTINE_MS, if it is set to a number.
  pub quarantine_ms : Option ℕ
  pub generated_filters_dir : PathBuf
  pub filters_dir : PathBuf
  pub quarantine_generated_filter : PathBuf → Bool
  pub quarantine_filter_file : PathBuf → Bool

unfoldable pub jit_quarantine_threshold : Env → ℕ
jit_quarantine_threshold env = elim env.quarantine_ms [
  | none ↦ 1000
  | some ms ↦ if ltb 0 ms then ms else 1000
]

unfoldable pub path_eq : PathBuf → PathBuf → Bool
path_eq [] [] = true
path_eq (s ∷ p) (t ∷ q) = str_eq s t && path_eq p q
path_eq _ _ = false

unfoldable pub path_starts_with : PathBuf → PathBuf → Bool
path_starts_with p [] = true
path_starts_with [] (t ∷ q) = false
path_starts_with (s ∷ p) (t ∷ q) = str_eq s t && path_starts_with p q

abbrev pub move_if : Bool → PathBuf → FlowFilterRuntime → Bool × FlowFilterRuntime
move_if true path s = (true, record s { moved = path ∷ s.moved })
move_if false path s = (false, s)

unfoldable pub quarantine_slow_filter : Env → PathBuf → FlowFilterRuntime → Bool × FlowFilterRuntime
quarantine_slow_filter env path s =
    let seen = record s { quarantined_once = path ∷ s.quarantined_once } in
    if any (path_eq path) s.quarantined_once
    then (false, s)
    else if path_starts_with path env.generated_filters_dir
    then move_if (env.quarantine_generated_filter path) path seen
    else if path_starts_with path (env.filters_dir ++ (codes "generated" ∷ []))
    then move_if (env.quarantine_filter_file path) path seen
    else (false, seen)

unfoldable pub sweep_state_stats :
    Env → ℕ → Option StateIndex → FilterResourceStats × Option StateIndex
sweep_state_stats env matched none = (default_stats, none)
sweep_state_stats env matched (some index) =
    let (swept, left) = sweep_expired env.limits index (env.now matched) in
    (
      record {
        state_read_bytes = swept.read_bytes;
        state_write_bytes = swept.write_bytes;
        state_items = swept.state_items;
        evicted_items = swept.evicted_items;
        limit_hit = swept.limit_hit;
      },
      some left,
    )

-- The first two codes of a run: 3 at a limit of the store, else 0 for an answer and 1 for an error.
abbrev pub code_of : Bool → Bool → ℕ
code_of limit_hit answered = if limit_hit then 3 else if answered then 0 else 1

-- The quarantine of a run, and whether it moved the file.
unfoldable pub after_run : Env → ℕ → PathBuf → FlowFilterRuntime → Bool × FlowFilterRuntime
after_run env elapsed path s =
    if ltb (jit_quarantine_threshold env * 1000000) elapsed
    then quarantine_slow_filter env path s
    else (false, s)

module _ {A : Type 0} (env : Env) (phase : FilterPhase)
    (execute : CompiledFilter → Option StateIndex → Execution A) where
  -- One round of the loop, up to the match on the result: the answer, and whether a reload is needed.
  unfoldable pub run_filter :
      ℕ → CompiledFilter → FlowFilterRuntime → Option A × Bool × FlowFilterRuntime
  run_filter matched filter s =
      let (swept, store) = sweep_state_stats env matched s.state_store in
      let run = execute filter store in
      let stats = merge_stats swept run.stats in
      let (quarantined, s') =
        after_run env run.elapsed filter.definition.path (record s { state_store = run.store }) in
      let code = if quarantined then 2 else code_of stats.limit_hit (is_some run.result) in
      (
        run.result,
        quarantined,
        record s' {
          exec_stats =
              s'.exec_stats
              ++ (record {
                phase = phase;
                filter_id = filter.definition.id;
                filter_name = filter_name filter;
                elapsed_us = run.elapsed / 1000;
                result_code = code;
                stats = stats;
              }
                  ∷ []);
        },
      )

  module _ (merge : A → A → A) (continues : A → Bool) where
    -- The loop over the matching filters: the combined action, and whether a reload is needed.
    unfoldable pub run_chain :
        ℕ → List CompiledFilter → A → Bool → FlowFilterRuntime → A × Bool × FlowFilterRuntime
    run_chain matched [] combined needs_reload s = (combined, needs_reload, s)
    run_chain matched (filter ∷ filters) combined needs_reload s =
        let (result, quarantined, s') = run_filter (suc matched) filter s in
        let reload = needs_reload || quarantined in
        elim result [
          | none ↦ run_chain (suc matched) filters combined reload s'
          | some action ↦
              let next = merge combined action in
              let rest = run_chain (suc matched) filters next reload s' in
              if continues next then rest else (next, reload, s')
        ]

module _ (env : Env) where
  unfoldable pub run_request_filters :
      (CompiledFilter → Option StateIndex → Execution RequestAction)
      → List CompiledFilter
      → FilterRequestView
      → FlowFilterRuntime
      → RequestAction × Bool × FlowFilterRuntime
  run_request_filters execute filters req_view s =
      run_chain env request execute merge_request_action (λ a. a.continue_filters) 0
        (matching_request filters req_view) request_pass false s

  unfoldable pub run_response_filters :
      (CompiledFilter → Option StateIndex → Execution ResponseAction)
      → List CompiledFilter
      → FilterResponseView
      → FlowFilterRuntime
      → ResponseAction × Bool × FlowFilterRuntime
  run_response_filters execute filters res_view s =
      run_chain env response execute merge_response_action (λ a. a.continue_filters) 0
        (matching_response filters res_view) response_pass false s

  -- The actions of this phase are not combined: the loop only reads whether to continue.
  unfoldable pub run_completed_filters :
      (CompiledFilter → Option StateIndex → Execution CompletedAction)
      → List CompiledFilter
      → FilterRequestView
      → FlowFilterRuntime
      → CompletedAction × Bool × FlowFilterRuntime
  run_completed_filters execute filters req_view s =
      run_chain env completed execute (λ dst src. src) (λ a. a.continue_filters) 0
        (matching_completed filters req_view) completed_pass false s

-- The loop of the connect phase, which records nothing.
unfoldable pub run_connect_chain :
    List CompiledFilter → FilterConnect → ConnectAction → ConnectAction
run_connect_chain [] conn combined = combined
run_connect_chain (filter ∷ filters) conn combined = elim (run_connect_action filter conn) [
  | none ↦ run_connect_chain filters conn combined
  | some action ↦
      let next = merge_connect_action combined action in
      let rest = run_connect_chain filters conn next in if next.continue_filters then rest else next
]

unfoldable pub run_connect_filters :
    List CompiledFilter → FilterConnectView → FilterConnect → ConnectAction
run_connect_filters filters view conn =
    run_connect_chain (matching_connect filters view) conn connect_pass

-- ===== src/Filter/Chain/Tests.antt =====
-- Chains of concrete filters, for the modules of Filter.Chain.
use inspect.Common.{
  ◌≡◌, refl, true, false, not, ◌&&◌, Option, none, some, List, [], ◌∷◌, codes, Str, str_eq, is_some,
  foldl, if◌then◌else◌,
}
use inspect.Glob.{glob_match, matches_any_glob}
use inspect.StateStore.{StateIndex, default_limits}
use inspect.Filter.Types.{RequestAction, ResponseAction, FilterConnect, request_pass, response_pass}
use inspect.Filter.Trigger.{
  FilterRequestView, FilterResponseView, FilterConnectView, default_metadata, persistent,
  FilterPhase, matches_request, matches_phase, matches_host, matches_path, matches_method,
}
use inspect.Filter.Program.{CompiledFilter, metadata_only}
use inspect.Filter.FilterSet.{matching_request, filter_by}
use inspect.Filter.Merge.{merge_request_action}
use inspect.Filter.Chain.{
  Execution, FlowFilterRuntime, Env, default_stats, run_filter, run_chain, run_request_filters,
  sweep_state_stats, after_run, quarantine_slow_filter, jit_quarantine_threshold, path_starts_with,
  path_eq,
}
use inspect.Filter.Chain.Runs.{answers, until_stop, run_request_filters-answers}
use inspect.Filter.Chain.Laws.{Recorded, run_chain-Recorded}
use inspect.Filter.Chain.Quarantine.{Quarantined, run_chain-Quarantined}

abbrev env : Env
env = record {
  limits = default_limits;
  now = λ matched. 0;
  quarantine_ms = none;
  generated_filters_dir = codes "tmp" ∷ [];
  filters_dir = codes "filters" ∷ [];
  quarantine_generated_filter = λ path. true;
  quarantine_filter_file = λ path. true;
}

abbrev filter_at : Str → Str → CompiledFilter
filter_at dir id = record {
  definition = record {
    id = id;
    source_kind = persistent;
    file_name = id;
    script_hash = [];
    path = dir ∷ id ∷ [];
    source = [];
    metadata = default_metadata;
    script = [];
  };
  priority = 100;
  program = metadata_only;
}

abbrev blocking : CompiledFilter
blocking = filter_at (codes "tmp") (codes "block")

abbrev marking : CompiledFilter
marking = filter_at (codes "filters") (codes "mark")

abbrev both : List CompiledFilter
both = blocking ∷ marking ∷ []

abbrev blocked : RequestAction
blocked = record request_pass {
  synthetic_response = some (record { status = 403; headers = []; body = [] });
}

abbrev answer : CompiledFilter → Option RequestAction
answer f = if str_eq f.definition.id (codes "block") then some blocked else some request_pass

-- Every run takes two seconds.
abbrev execute : CompiledFilter → Option StateIndex → Execution RequestAction
execute f store = record {
  result = answer f;
  elapsed = 2000000000;
  stats = default_stats;
  store = store;
}

abbrev on_response : CompiledFilter → Option StateIndex → Execution ResponseAction
on_response f store = record {
  result = some response_pass;
  elapsed = 5;
  stats = default_stats;
  store = store;
}

abbrev idle : FlowFilterRuntime
idle = record { state_store = none; quarantined_once = []; exec_stats = []; moved = [] }

abbrev view : FilterRequestView
view = record { host = codes "example.com"; path = codes "/"; method = codes "GET" }

abbrev response_view : FilterResponseView
response_view = record { request = view; status = 200; content_type = none }

runs :
    ((run_request_filters env execute both view idle).2.moved
      ≡ (codes "tmp" ∷ codes "block" ∷ []) ∷ [])
    × ((run_request_filters env execute both view idle).1 ≡ true)
    × ((run_request_filters env execute both view idle).0.continue_filters ≡ false)
unfolding run_request_filters run_chain run_filter sweep_state_stats after_run
    quarantine_slow_filter jit_quarantine_threshold path_starts_with path_eq str_eq matching_request
    filter_by matches_request matches_phase matches_host matches_path matches_method
    matches_any_glob glob_match merge_request_action
runs = (refl, refl, refl)

run_request_filters-answers_example :
    (run_request_filters env execute both view idle).0
    ≡ foldl merge_request_action request_pass (
        until_stop
          (λ a. not (is_some a.synthetic_response) && a.continue_filters)
          (answers answer (matching_request both view)))
run_request_filters-answers_example =
    run_request_filters-answers env execute answer (λ f store. refl) both view idle

abbrev connect_view : FilterConnectView
connect_view = record { host = codes "example.com"; port = 443 }

abbrev conn : FilterConnect
conn = record { id = codes "1"; host = codes "example.com"; port = 443 }

run_chain-Recorded_example :
    Recorded env FilterPhase.request execute merge_request_action
      (λ a. a.continue_filters)
      both
      idle
      (run_chain env FilterPhase.request execute merge_request_action
        (λ a. a.continue_filters)
        0
        both
        request_pass
        false
        idle)
run_chain-Recorded_example =
    run_chain-Recorded env FilterPhase.request execute merge_request_action
      (λ a. a.continue_filters) 0 both request_pass false idle

run_chain-Quarantined_example :
    Quarantined env
      (run_chain env FilterPhase.request execute merge_request_action
        (λ a. a.continue_filters)
        0
        both
        request_pass
        false
        idle).2
run_chain-Quarantined_example =
    run_chain-Quarantined env FilterPhase.request execute merge_request_action
      (λ a. a.continue_filters) 0 both request_pass false idle
      (record { once = tt; under = tt; seen = tt })

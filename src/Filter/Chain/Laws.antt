-- ===== src/Filter/Chain/Laws.antt =====
-- The loops of src/mitm/flow/filter_runtime.rs: what is recorded, and the end of a chain.
use inspect.Common.{
  ℕ, suc, arith, ◌≡◌, ◌⊎◌, refl, ap, sym, ◌∙◌, Bool, true, false, ◌||◌, Option, none, some, List,
  [], ◌∷◌, ◌++◌, map, is_some, Str, append_assoc, append-nil, if◌then◌else◌, Bool-cases,
  Option-cases, inl, inr,
}
use inspect.StateStore.{StateIndex}
use inspect.Filter.Types.{RequestAction, request_pass}
use inspect.Filter.Trigger.{FilterPhase, FilterRequestView}
use inspect.Filter.Program.{CompiledFilter}
use inspect.Filter.FilterSet.{matching_request}
use inspect.Filter.Merge.{merge_request_action}
use inspect.Filter.Chain.{
  Execution, FlowFilterRuntime, Env, run_filter, run_chain, run_request_filters,
  quarantine_slow_filter, after_run, move_if, sweep_state_stats,
}
use mathlib.Core.List.{map-append}

module _ {A : Type 0} (env : Env) (phase : FilterPhase)
    (execute : CompiledFilter → Option StateIndex → Execution A) (merge : A → A → A)
    (continues : A → Bool) where
  -- What holds of the combined action when a round begins holds at the end, if every answer keeps it.
  run_chain-invariant :
      (P : A → Type 0)
      → ((c a : A) → P c → continues c ≡ true → P (merge c a))
      → (matched : ℕ) (filters : List CompiledFilter) (combined : A) (reload : Bool)
        (s : FlowFilterRuntime)
      → P combined
      → continues combined ≡ true
      → P (run_chain env phase execute merge continues matched filters combined reload s).0
  unfolding run_chain
  run_chain-invariant P keeps matched [] combined reload s p go = p
  run_chain-invariant P keeps matched (f ∷ fs) combined reload s p go =
      let turn = run_filter env phase execute (suc matched) f s in
      elim turn.0
        as (λ o.
          P
            (elim o as (λ _. A × Bool × FlowFilterRuntime) [
              | none ↦
                  run_chain env phase execute merge continues (suc matched) fs combined
                    (reload || turn.1) turn.2
              | some action ↦
                  if continues (merge combined action)
                  then run_chain env phase execute merge continues (suc matched) fs
                      (merge combined action) (reload || turn.1) turn.2
                  else (merge combined action, reload || turn.1, turn.2)
            ]).0) [
              | none ↦
                  run_chain-invariant P keeps (suc matched) fs combined (reload || turn.1) turn.2 p
                    go
              | some a ↦ elim (Bool-cases (continues (merge combined a))) [
                | inl more ↦ rw more (
                    run_chain-invariant P keeps (suc matched) fs (merge combined a)
                      (reload || turn.1) turn.2 (keeps combined a p go) more)
                | inr stop ↦ rw stop (keeps combined a p go)
              ]
            ]

-- A request action with a synthetic response that stops the chain.
Ended : RequestAction → Type 0
Ended a = is_some a.synthetic_response ≡ true → a.continue_filters ≡ false

merge-Ended :
    (c a : RequestAction) → Ended c → c.continue_filters ≡ true → Ended (merge_request_action c a)
unfolding merge_request_action Ended
merge-Ended c a ended go = elim (Option-cases a.synthetic_response) [
  | inl e ↦ λ h. absurd (true_ne_false (sym go ∙ ended (rw e at h)))
  | inr (r, e) ↦ λ h. rw e refl
]
  where
    true_ne_false : true ≡ false → ⊥
    true_ne_false h = cc

-- However the filters answer, a combined request action with a synthetic response does not continue:
-- no filter ran behind the one that gave it.
run_request_filters-synthetic :
    (env : Env) (execute : CompiledFilter → Option StateIndex → Execution RequestAction)
    (filters : List CompiledFilter) (view : FilterRequestView) (s : FlowFilterRuntime)
    → is_some (run_request_filters env execute filters view s).0.synthetic_response ≡ true
    → (run_request_filters env execute filters view s).0.continue_filters ≡ false
unfolding run_request_filters Ended
run_request_filters-synthetic env execute filters view s =
    run_chain-invariant env FilterPhase.request execute merge_request_action
      (λ a. a.continue_filters) Ended merge-Ended 0 (matching_request filters view) request_pass
      false s (λ h. cc) refl

move_if-exec_stats :
    (b : Bool) (path : List Str) (s : FlowFilterRuntime)
    → (move_if b path s).1.exec_stats ≡ s.exec_stats
move_if-exec_stats true path s = refl
move_if-exec_stats false path s = refl

after_run-exec_stats :
    (env : Env) (elapsed : ℕ) (path : List Str) (s : FlowFilterRuntime)
    → (after_run env elapsed path s).1.exec_stats ≡ s.exec_stats
unfolding after_run quarantine_slow_filter
after_run-exec_stats env elapsed path s =
    let seen = record s { quarantined_once = path ∷ s.quarantined_once } in
    ground (
      arith,
      move_if-exec_stats (env.quarantine_generated_filter path) path seen,
      move_if-exec_stats (env.quarantine_filter_file path) path seen,
    )

abbrev pub ids : FlowFilterRuntime → List Str
ids s = map (λ stat. stat.filter_id) s.exec_stats

module _ {A : Type 0} (env : Env) (phase : FilterPhase)
    (execute : CompiledFilter → Option StateIndex → Execution A) where
  run_filter-ids :
      (matched : ℕ) (f : CompiledFilter) (s : FlowFilterRuntime)
      → ids (run_filter env phase execute matched f s).2 ≡ ids s ++ (f.definition.id ∷ [])
  unfolding run_filter
  run_filter-ids matched f s =
      let left = sweep_state_stats env matched s.state_store in
      let run = execute f left.1 in
      rw
        (after_run-exec_stats env run.elapsed f.definition.path
          (record s { state_store = run.store }))
        (map-append (λ stat. stat.filter_id) s.exec_stats (_ ∷ []))

  module _ (merge : A → A → A) (continues : A → Bool) where
    -- How a chain ends: the filters that ran, those that did not, and what is recorded.
    abbrev pub Recorded :
        List CompiledFilter → FlowFilterRuntime → A × Bool × FlowFilterRuntime → Type 0
    Recorded filters s end =
        (ran : List CompiledFilter) × (left : List CompiledFilter) × (filters ≡ ran ++ left)
        × (ids end.2 ≡ ids s ++ map (λ f. f.definition.id) ran)
        × ((left ≡ []) ⊎ (continues end.0 ≡ false))

    Recorded-later :
        (matched : ℕ) (f : CompiledFilter) (fs : List CompiledFilter) (s : FlowFilterRuntime)
        (end : A × Bool × FlowFilterRuntime)
        → Recorded fs (run_filter env phase execute matched f s).2 end
        → Recorded (f ∷ fs) s end
    Recorded-later matched f fs s end (ran, left, cut, seen, why) = (
      f ∷ ran,
      left,
      ap (◌∷◌ f) cut,
      seen
          ∙ ap (λ xs. xs ++ map (λ g. g.definition.id) ran) (run_filter-ids matched f s)
          ∙ append_assoc (ids s) (f.definition.id ∷ []) (map (λ g. g.definition.id) ran),
      why,
    )

    -- A chain runs the filters in their order and records each run once, in that order; it leaves filters
    -- out only behind an answer after which the combined action does not continue.
    pub run_chain-Recorded :
        (matched : ℕ) (filters : List CompiledFilter) (combined : A) (reload : Bool)
        (s : FlowFilterRuntime)
        → Recorded filters s
            (run_chain env phase execute merge continues matched filters combined reload s)
    unfolding run_chain
    run_chain-Recorded matched [] combined reload s =
        ([], [], refl, sym (append-nil (ids s)), inl refl)
    run_chain-Recorded matched (f ∷ fs) combined reload s =
        let turn = run_filter env phase execute (suc matched) f s in
        elim turn.0
          as (λ o. Recorded (f ∷ fs) s (elim o as (λ _. A × Bool × FlowFilterRuntime) [
            | none ↦
                run_chain env phase execute merge continues (suc matched) fs combined
                  (reload || turn.1) turn.2
            | some action ↦
                if continues (merge combined action)
                then run_chain env phase execute merge continues (suc matched) fs
                    (merge combined action) (reload || turn.1) turn.2
                else (merge combined action, reload || turn.1, turn.2)
          ])) [
            | none ↦
                Recorded-later (suc matched) f fs s
                  (run_chain env phase execute merge continues (suc matched) fs combined
                    (reload || turn.1) turn.2)
                  (run_chain-Recorded (suc matched) fs combined (reload || turn.1) turn.2)
            | some a ↦ elim (Bool-cases (continues (merge combined a))) [
              | inl more ↦ rw more (
                  Recorded-later (suc matched) f fs s
                    (run_chain env phase execute merge continues (suc matched) fs (merge combined a)
                      (reload || turn.1) turn.2)
                    (run_chain-Recorded (suc matched) fs (merge combined a) (reload || turn.1)
                      turn.2))
              | inr stop ↦ rw stop (
                  Recorded-later (suc matched) f fs s (merge combined a, reload || turn.1, turn.2)
                    ([], fs, refl, sym (append-nil (ids turn.2)), inr stop))
            ]
          ]

-- ===== src/Filter/Chain/Runs.antt =====
-- The runs of src/mitm/flow/filter_runtime.rs: the action of a chain against the answers of its
-- filters.
use inspect.Common.{
  ℕ, suc, ◌≡◌, refl, ap, ◌∙◌, Bool, true, false, not, ◌&&◌, ◌||◌, Option, none, some, List, [], ◌∷◌,
  is_some, foldl, if◌then◌else◌, Bool-cases, Option-cases, inl, inr,
}
use inspect.StateStore.{StateIndex}
use inspect.Filter.Types.{
  RequestAction, ResponseAction, ConnectAction, FilterConnect, request_pass, response_pass,
  connect_pass,
}
use inspect.Filter.Trigger.{FilterPhase, FilterRequestView, FilterResponseView, FilterConnectView}
use inspect.Filter.Program.{CompiledFilter, run_connect_action}
use inspect.Filter.FilterSet.{matching_connect, matching_request, matching_response}
use inspect.Filter.Merge.{merge_request_action, merge_response_action, merge_connect_action}
use inspect.Filter.Chain.{
  Execution, FlowFilterRuntime, Env, run_filter, run_chain, run_request_filters,
  run_response_filters, run_connect_chain, run_connect_filters, sweep_state_stats,
}

module _ {A : Type 0} where
  -- The answers up to the first that ends the chain, that one included.
  abbrev pub until_stop : (A → Bool) → List A → List A
  until_stop goes_on [] = []
  until_stop goes_on (a ∷ as_) =
      let rest = until_stop goes_on as_ in if goes_on a then a ∷ rest else a ∷ []

  abbrev pub prepend_answer : Option A → List A → List A
  prepend_answer none as_ = as_
  prepend_answer (some a) as_ = a ∷ as_

  -- The answers of the filters that do not fail.
  abbrev pub answers : (CompiledFilter → Option A) → List CompiledFilter → List A
  answers answer [] = []
  answers answer (f ∷ fs) = prepend_answer (answer f) (answers answer fs)

module _ {A : Type 0} (env : Env) (phase : FilterPhase)
    (execute : CompiledFilter → Option StateIndex → Execution A) (merge : A → A → A)
    (continues : A → Bool) (goes_on : A → Bool) (answer : CompiledFilter → Option A)
    (same_answer : (f : CompiledFilter) (store : Option StateIndex)
      → (execute f store).result ≡ answer f)
    (by_last : (c a : A) → continues (merge c a) ≡ goes_on a) where
  run_filter-answer :
      (matched : ℕ) (f : CompiledFilter) (s : FlowFilterRuntime)
      → (run_filter env phase execute matched f s).0 ≡ answer f
  unfolding run_filter
  run_filter-answer matched f s = same_answer f (sweep_state_stats env matched s.state_store).1

  run_chain-answers :
      (matched : ℕ) (filters : List CompiledFilter) (combined : A) (reload : Bool)
      (s : FlowFilterRuntime)
      → (run_chain env phase execute merge continues matched filters combined reload s).0
        ≡ foldl merge combined (until_stop goes_on (answers answer filters))
  unfolding run_chain run_filter
  run_chain-answers matched [] combined reload s = refl
  run_chain-answers matched (f ∷ fs) combined reload s =
      let turn = run_filter env phase execute (suc matched) f s in
      let same = run_filter-answer (suc matched) f s in
      elim (Option-cases (answer f)) [
        | inl e ↦
            rw (same ∙ e, e) (run_chain-answers (suc matched) fs combined (reload || turn.1) turn.2)
        | inr (a, e) ↦ elim (Bool-cases (goes_on a)) [
          | inl go ↦
              rw (same ∙ e, e, by_last combined a, go)
                (run_chain-answers (suc matched) fs (merge combined a) (reload || turn.1) turn.2)
          | inr stop ↦ rw (same ∙ e, e, by_last combined a, stop) refl
        ]
      ]

-- For filters whose answer to the request does not depend on the state store, running the request
-- filters gives the answers of the filters that match and do not fail, in the order of the filters and up to
-- the first that stops the chain or has a synthetic response, merged one after the other.
pub run_request_filters-answers :
    (env : Env) (execute : CompiledFilter → Option StateIndex → Execution RequestAction)
    (answer : CompiledFilter → Option RequestAction)
    → ((f : CompiledFilter) (store : Option StateIndex) → (execute f store).result ≡ answer f)
    → (filters : List CompiledFilter) (view : FilterRequestView) (s : FlowFilterRuntime)
    → (run_request_filters env execute filters view s).0
      ≡ foldl merge_request_action request_pass (
          until_stop
            (λ a. not (is_some a.synthetic_response) && a.continue_filters)
            (answers answer (matching_request filters view)))
unfolding run_request_filters
run_request_filters-answers env execute answer same filters view s =
    run_chain-answers env FilterPhase.request execute merge_request_action (λ a. a.continue_filters)
      (λ a. not (is_some a.synthetic_response) && a.continue_filters) answer same by_last 0
      (matching_request filters view) request_pass false s
  where
    by_last :
        (c a : RequestAction)
        → (merge_request_action c a).continue_filters
          ≡ (not (is_some a.synthetic_response) && a.continue_filters)
    by_last c a =
        unfold merge_request_action in
        elim (Bool-cases (is_some a.synthetic_response)) [ inl e ↦ rw e refl | inr e ↦ rw e refl ]

-- For filters whose answer to the response does not depend on the state store, running the response
-- filters gives the answers of the filters that match and do not fail, in the order of the filters and up to
-- the first that stops the chain, merged one after the other.
run_response_filters-answers :
    (env : Env) (execute : CompiledFilter → Option StateIndex → Execution ResponseAction)
    (answer : CompiledFilter → Option ResponseAction)
    → ((f : CompiledFilter) (store : Option StateIndex) → (execute f store).result ≡ answer f)
    → (filters : List CompiledFilter) (view : FilterResponseView) (s : FlowFilterRuntime)
    → (run_response_filters env execute filters view s).0
      ≡ foldl merge_response_action response_pass
          (until_stop (λ a. a.continue_filters) (answers answer (matching_response filters view)))
unfolding run_response_filters merge_response_action
run_response_filters-answers env execute answer same filters view s =
    run_chain-answers env FilterPhase.response execute merge_response_action
      (λ a. a.continue_filters) (λ a. a.continue_filters) answer same (λ c a. refl) 0
      (matching_response filters view) response_pass false s

foldl-if :
    {A : Type 0} (b : Bool) (merge : A → A → A) (c a : A) (rest : List A)
    → (if b then foldl merge (merge c a) rest else merge c a)
      ≡ foldl merge c (if b then a ∷ rest else a ∷ [])
foldl-if true merge c a rest = refl
foldl-if false merge c a rest = refl

run_connect_chain-answers :
    (filters : List CompiledFilter) (conn : FilterConnect) (combined : ConnectAction)
    → run_connect_chain filters conn combined
      ≡ foldl merge_connect_action combined
          (until_stop (λ a. a.continue_filters) (answers (λ f. run_connect_action f conn) filters))
unfolding run_connect_chain merge_connect_action
run_connect_chain-answers [] conn combined = refl
run_connect_chain-answers (f ∷ fs) conn combined = elim (Option-cases (run_connect_action f conn)) [
  | inl e ↦ rw (e, run_connect_chain) (run_connect_chain-answers fs conn combined)
  | inr (a, e) ↦
      let next = merge_connect_action combined a in
      rw (e, run_connect_chain)
        (ap (λ t. if a.continue_filters then t else next) (run_connect_chain-answers fs conn next)
          ∙ foldl-if a.continue_filters merge_connect_action combined a
              (until_stop (λ a. a.continue_filters) (answers (λ f. run_connect_action f conn) fs)))
]

-- Running the connect filters gives the actions of the filters that match and have one, in the order of
-- the filters and up to the first that stops the chain, merged one after the other.
run_connect_filters-answers :
    (filters : List CompiledFilter) (view : FilterConnectView) (conn : FilterConnect)
    → run_connect_filters filters view conn
      ≡ foldl merge_connect_action connect_pass (
          until_stop
            (λ a. a.continue_filters)
            (answers (λ f. run_connect_action f conn) (matching_connect filters view)))
unfolding run_connect_filters
run_connect_filters-answers filters view conn =
    run_connect_chain-answers (matching_connect filters view) conn connect_pass

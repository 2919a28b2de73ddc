-- ===== src/Filter/Chain/Quarantine.antt =====
-- quarantine_slow_filter of src/mitm/flow/filter_runtime.rs, along a chain of filters.
use inspect.Common.{
  ℕ, suc, ◌*◌, arith, ◌≡◌, ◌↔◌, refl, ap, sym, ◌∙◌, Bool, true, false, ◌||◌, Option, none, some,
  List, [], ◌∷◌, ◌++◌, codes, str_eq_iff, any, All, ltb, if◌then◌else◌, Bool-cases, inl, inr,
}
use inspect.StateStore.{StateIndex}
use inspect.Filter.Trigger.{FilterPhase, PathBuf}
use inspect.Filter.Program.{CompiledFilter}
use inspect.Filter.Chain.{
  Execution, FlowFilterRuntime, Env, run_filter, run_chain, quarantine_slow_filter, after_run,
  move_if, sweep_state_stats, path_eq, path_starts_with, jit_quarantine_threshold,
}

path_eq_iff : (p q : PathBuf) → (path_eq p q ≡ true) ↔ (p ≡ q)
unfolding path_eq
path_eq_iff (s ∷ p) (t ∷ q) = ground (arith, path_eq_iff p q, str_eq_iff s t)
path_eq_iff _ _ = ground arith

abbrev pub NoRepeat : List PathBuf → Type 0
NoRepeat [] = Unit
NoRepeat (p ∷ ps) = (any (path_eq p) ps ≡ false) × NoRepeat ps

-- In one of the two directories of generated filters.
abbrev pub generated : Env → PathBuf → Bool
generated env p =
    path_starts_with p env.generated_filters_dir
    || path_starts_with p (env.filters_dir ++ (codes "generated" ∷ []))

-- The files moved are generated filters, each moved once, and each of them has been seen.
pub record Quarantined (env : Env) (s : FlowFilterRuntime) : Type 0 where
  pub once : NoRepeat s.moved
  pub under : All (λ p. generated env p ≡ true) s.moved
  pub seen : All (λ p. any (path_eq p) s.quarantined_once ≡ true) s.moved

not_moved :
    (path : PathBuf) (seen moved : List PathBuf)
    → any (path_eq path) seen ≡ false
    → All (λ p. any (path_eq p) seen ≡ true) moved
    → any (path_eq path) moved ≡ false
not_moved path seen [] new all_seen = refl
not_moved path seen (p ∷ ps) new (p_seen, all_seen) =
    let later = not_moved path seen ps new all_seen in
    elim (Bool-cases (path_eq path p)) [
      | inl same ↦
          let e : path ≡ p = (path_eq_iff path p).0 same in
          absurd (false_ne_true (sym new ∙ ap (λ q. any (path_eq q) seen) e ∙ p_seen))
      | inr other ↦ rw other later
    ]
  where
    false_ne_true : false ≡ true → ⊥
    false_ne_true h = cc

or_true : {b : Bool} (a : Bool) → b ≡ true → (a || b) ≡ true
or_true true h = refl
or_true false h = h

still_seen :
    (path : PathBuf) (seen moved : List PathBuf)
    → All (λ p. any (path_eq p) seen ≡ true) moved
    → All (λ p. any (path_eq p) (path ∷ seen) ≡ true) moved
still_seen path seen [] all_seen = tt
still_seen path seen (p ∷ ps) (p_seen, all_seen) =
    (or_true (path_eq p path) p_seen, still_seen path seen ps all_seen)

path_eq_self : (p : PathBuf) (ps : List PathBuf) → any (path_eq p) (p ∷ ps) ≡ true
path_eq_self p ps = rw ((path_eq_iff p p).1 refl) refl

module _ (env : Env) where
  seen-Quarantined :
      (path : PathBuf) (s : FlowFilterRuntime)
      → Quarantined env s
      → Quarantined env (record s { quarantined_once = path ∷ s.quarantined_once })
  seen-Quarantined path s q = record {
    once = q.once;
    under = q.under;
    seen = still_seen path s.quarantined_once s.moved q.seen;
  }

  move_if-Quarantined :
      (b : Bool) (path : PathBuf) (s : FlowFilterRuntime)
      → any (path_eq path) s.quarantined_once ≡ false
      → generated env path ≡ true
      → Quarantined env s
      → Quarantined env
          (move_if b path (record s { quarantined_once = path ∷ s.quarantined_once })).1
  move_if-Quarantined false path s new place q = seen-Quarantined path s q
  move_if-Quarantined true path s new place q = record {
    once = (not_moved path s.quarantined_once s.moved new q.seen, q.once);
    under = (place, q.under);
    seen =
        (path_eq_self path s.quarantined_once, still_seen path s.quarantined_once s.moved q.seen);
  }

  quarantine_slow_filter-Quarantined :
      (path : PathBuf) (s : FlowFilterRuntime)
      → Quarantined env s
      → Quarantined env (quarantine_slow_filter env path s).1
  unfolding quarantine_slow_filter
  quarantine_slow_filter-Quarantined path s q =
      elim (Bool-cases (any (path_eq path) s.quarantined_once)) [
        | inl old ↦ rw old q
        | inr new ↦ elim (Bool-cases (path_starts_with path env.generated_filters_dir)) [
          | inl here ↦
              rw (new, here)
                (move_if-Quarantined (env.quarantine_generated_filter path) path s new
                  (rw here refl) q)
          | inr elsewhere ↦
              elim (Bool-cases
                (path_starts_with path (env.filters_dir ++ (codes "generated" ∷ [])))) [
                  | inl here ↦
                      rw (new, elsewhere, here)
                        (move_if-Quarantined (env.quarantine_filter_file path) path s new
                          (rw (elsewhere, here) refl) q)
                  | inr no_place ↦ rw (new, elsewhere, no_place) (seen-Quarantined path s q)
                ]
        ]
      ]

  after_run-Quarantined :
      (elapsed : ℕ) (path : PathBuf) (s : FlowFilterRuntime)
      → Quarantined env s
      → Quarantined env (after_run env elapsed path s).1
  unfolding after_run
  after_run-Quarantined elapsed path s q =
      elim (Bool-cases (ltb (jit_quarantine_threshold env * 1000000) elapsed)) [
        | inl slow ↦ rw slow (quarantine_slow_filter-Quarantined path s q)
        | inr fast ↦ rw fast q
      ]

  module _ {A : Type 0} (phase : FilterPhase)
      (execute : CompiledFilter → Option StateIndex → Execution A) where
    run_filter-Quarantined :
        (matched : ℕ) (f : CompiledFilter) (s : FlowFilterRuntime)
        → Quarantined env s
        → Quarantined env (run_filter env phase execute matched f s).2
    unfolding run_filter
    run_filter-Quarantined matched f s q =
        let run = execute f (sweep_state_stats env matched s.state_store).1 in
        let entered = record s { state_store = run.store } in
        let q' : Quarantined env entered = record {
          once = q.once;
          under = q.under;
          seen = q.seen;
        } in
        let done = after_run-Quarantined run.elapsed f.definition.path entered q' in
        record { once = done.once; under = done.under; seen = done.seen }

    -- Through any chain of filters, whatever they answer and however long they take, the files moved to
    -- quarantine stay such that each was moved once and lies in a directory of generated filters.
    pub run_chain-Quarantined :
        (merge : A → A → A) (continues : A → Bool) (matched : ℕ) (filters : List CompiledFilter)
        (combined : A) (reload : Bool) (s : FlowFilterRuntime)
        → Quarantined env s
        → Quarantined env
            (run_chain env phase execute merge continues matched filters combined reload s).2
    unfolding run_chain
    run_chain-Quarantined merge continues matched [] combined reload s q = q
    run_chain-Quarantined merge continues matched (f ∷ fs) combined reload s q =
        let turn = run_filter env phase execute (suc matched) f s in
        let q' = run_filter-Quarantined (suc matched) f s q in
        elim turn.0
          as (λ o.
            Quarantined env
              (elim o as (λ _. A × Bool × FlowFilterRuntime) [
                | none ↦
                    run_chain env phase execute merge continues (suc matched) fs combined
                      (reload || turn.1) turn.2
                | some action ↦
                    if continues (merge combined action)
                    then run_chain env phase execute merge continues (suc matched) fs
                        (merge combined action) (reload || turn.1) turn.2
                    else (merge combined action, reload || turn.1, turn.2)
              ]).2) [
                | none ↦
                    run_chain-Quarantined merge continues (suc matched) fs combined
                      (reload || turn.1) turn.2 q'
                | some a ↦ elim (Bool-cases (continues (merge combined a))) [
                  | inl more ↦ rw more (
                      run_chain-Quarantined merge continues (suc matched) fs (merge combined a)
                        (reload || turn.1) turn.2 q')
                  | inr stop ↦ rw stop q'
                ]
              ]

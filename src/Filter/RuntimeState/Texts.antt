-- ===== src/Filter/RuntimeState/Texts.antt =====
-- state_put_text and state_get_text of src/filters/runtime_state.rs, one after the other.
use inspect.Common.{
  ℕ, ◌-◌, ◌≤◌, ◌≡◌, ◌⊎◌, refl, ap, sym, ◌∙◌, true, false, none, some, Str, Bytes, to_utf8, inl, inr,
  if◌then◌else◌,
}
use inspect.StateStore.{FilterStateLimits, StatePutOutcome, stored, replaced, get, put}
use inspect.StateStore.Lookup.{get-put}
use inspect.Filter.RuntimeState.{
  RuntimeStateContext, ThreadState, accumulate, current_context, key_in, count_in, get_in, put_in,
  get_at, put_at, state_get_text, state_put_text, was_put, map_text,
}
use inspect.Filter.RuntimeState.Isolation.{accumulate_context, accumulate-index}

was_put-cases :
    (outcome : StatePutOutcome) → was_put outcome ≡ true → (outcome ≡ stored) ⊎ (outcome ≡ replaced)
was_put-cases stored h = inl refl
was_put-cases replaced h = inr refl
was_put-cases StatePutOutcome.rejected_entry_too_large h = cc
was_put-cases StatePutOutcome.rejected_connection_limit h = cc
was_put-cases StatePutOutcome.rejected_filter_limit h = cc
was_put-cases StatePutOutcome.rejected_total_limit h = cc

module _ (limits : FilterStateLimits) (from_utf8_lossy : Bytes → Str)
    (context : RuntimeStateContext) (key value : Str) (now later : ℕ) (t : ThreadState)
    (decodes : from_utf8_lossy (to_utf8 value) ≡ value) (at : current_context t ≡ some context)
    (handle : context.store ≡ true)
    (accepted : (state_put_text limits from_utf8_lossy key value now t).0 ≡ true)
    (fresh : later - now ≤ limits.ttl) where
  put_is :
      state_put_text limits from_utf8_lossy key value now t
      ≡ put_in limits from_utf8_lossy context key value now t
  unfolding state_put_text put_at
  put_is =
      ap (λ o. put_at limits from_utf8_lossy o key value now t) at
      ∙ ap (λ b. if b then put_in limits from_utf8_lossy context key value now t else (false, t))
          handle

  was_accepted :
      ((put limits t.index (key_in context key) (to_utf8 value) now).0 ≡ stored)
      ⊎ ((put limits t.index (key_in context key) (to_utf8 value) now).0 ≡ replaced)
  unfolding put_in
  was_accepted = was_put-cases _ (sym (ap (λ r. r.0) put_is) ∙ accepted)

  -- A text that a script's put accepted is what its get of the same key gives in the same context, up to the
  -- time to live later, if the bytes of the text are read back as that text.
  state_get_text-state_put_text :
      (state_get_text limits from_utf8_lossy key later
        (state_put_text limits from_utf8_lossy key value now t).1).0
      ≡ some value
  unfolding state_get_text put_in get_at get_in accumulate current_context
  state_get_text-state_put_text =
      let k = key_in context key in
      let done = put limits t.index k (to_utf8 value) now in
      let inner : ThreadState = record t { index = done.2 } in
      let end = accumulate done.1 inner in
      let counted = count_in done.1 context in
      let found : current_context end ≡ some counted =
        accumulate_context t.current done.1 inner context refl at in
      ap (λ r. (state_get_text limits from_utf8_lossy key later r.1).0) put_is
      ∙ ap (λ o. (get_at limits from_utf8_lossy o key later end).0) found
      ∙ ap (λ b. (if b then get_in limits from_utf8_lossy counted key later end else (none, end)).0)
          handle
      ∙ ap (λ index. map_text from_utf8_lossy (get limits index k later).0)
          (accumulate-index done.1 inner)
      ∙ ap (map_text from_utf8_lossy)
          (get-put limits t.index k (to_utf8 value) now was_accepted later fresh)
      ∙ ap some decodes

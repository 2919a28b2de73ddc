-- ===== src/StateStore/Limits.antt =====
-- The store of src/mitm/flow/state_store.rs under sequences of operations, and its limits.
use inspect.Common.{
  ℕ, ◌+◌, ◌-◌, ◌≤◌, List, [], ◌∷◌, Str, Bytes, arith, length, ltb, lookup, total, str-Eq,
  Option-cases, Bool-cases, inl, inr,
}
use inspect.StateStore.{
  FilterStateLimits, StateKey, StateIndex, StateOpStats, key-Eq, used_by, drop_entry, drop_all,
  expired_keys, sweep_expired_locked, get_found, get, old_len, put_entry, put, sweep_expired,
  delete, empty_index, no_stats,
}
use inspect.StateStore.Accounting.{
  bytes_if, bytes_of, used_by-release, used_by-insert, put_swept-cases, put-cases, IsAccounted,
  get-IsAccounted, put-IsAccounted, delete-IsAccounted, sweep_expired-IsAccounted,
}

module _ (limits : FilterStateLimits) where
  pub record IsWithin (inner : StateIndex) : Type 0 where
    pub connections :
        (name : Str) → used_by name inner.connection_bytes ≤ limits.max_connection_bytes
    pub filters : (name : Str) → used_by name inner.filter_bytes ≤ limits.max_filter_bytes
    pub all : inner.total_bytes ≤ limits.max_total_bytes

  drop_entry-IsWithin :
      (inner : StateIndex) (key : StateKey) → IsWithin inner → IsWithin (drop_entry inner key).1
  unfolding drop_entry
  drop_entry-IsWithin inner key h = elim (Option-cases (lookup key inner.entries)) [
    | inl e ↦ rw (e, drop_entry) h
    | inr (entry, e) ↦
        rw (e, drop_entry)
          (record {
            connections = λ name. ground (
              arith,
              used_by-release key.connection_id name (length entry.value) inner.connection_bytes,
              h.connections name,
              h.connections key.connection_id,
            );
            filters = λ name. ground (
              arith,
              used_by-release key.filter_name name (length entry.value) inner.filter_bytes,
              h.filters name,
              h.filters key.filter_name,
            );
            all = ground (arith, h.all);
          })
  ]

  drop_all-IsWithin :
      (keys : List StateKey) (inner : StateIndex) (stats : StateOpStats)
      → IsWithin inner
      → IsWithin (drop_all keys inner stats).0
  unfolding drop_all
  drop_all-IsWithin [] inner stats h = h
  drop_all-IsWithin (key ∷ keys) inner stats h =
      drop_all-IsWithin keys (drop_entry inner key).1 _ (drop_entry-IsWithin inner key h)

  sweep-IsWithin :
      (inner : StateIndex) (now : ℕ) (stats : StateOpStats)
      → IsWithin inner
      → IsWithin (sweep_expired_locked inner limits.ttl now stats).0
  unfolding sweep_expired_locked
  sweep-IsWithin inner now stats h =
      drop_all-IsWithin (expired_keys limits.ttl now inner.entries) inner stats h

  put_entry-IsWithin :
      (inner : StateIndex) (key : StateKey) (value : Bytes) (now delta : ℕ)
      → used_by key.connection_id inner.connection_bytes + delta ≤ limits.max_connection_bytes
      → used_by key.filter_name inner.filter_bytes + delta ≤ limits.max_filter_bytes
      → inner.total_bytes + delta ≤ limits.max_total_bytes
      → IsWithin inner
      → IsWithin (put_entry inner key value now delta)
  unfolding put_entry
  put_entry-IsWithin inner key value now delta p q r h =
      let conn = used_by key.connection_id inner.connection_bytes + delta in
      let filt = used_by key.filter_name inner.filter_bytes + delta in
      record {
        connections = λ name. ground (
          arith,
          used_by-insert key.connection_id name conn inner.connection_bytes,
          h.connections name,
        );
        filters = λ name.
            ground
              (arith, used_by-insert key.filter_name name filt inner.filter_bytes, h.filters name);
        all = r;
      }

  module _ (inner : StateIndex) (key : StateKey) (now : ℕ) (h : IsWithin inner) where
    get-IsWithin : IsWithin (get limits inner key now).2
    unfolding get
    get-IsWithin = elim (Option-cases (lookup key inner.entries)) [
      | inl e ↦ rw (e, get_found) h
      | inr (entry, e) ↦ elim (Bool-cases (ltb limits.ttl (now - entry.last_access_at))) [
        | inl old ↦ rw (e, get_found, old) (drop_entry-IsWithin inner key h)
        | inr fresh ↦
            rw (e, get_found, fresh)
              (record { connections = h.connections; filters = h.filters; all = h.all })
      ]
    ]

    put-IsWithin : (value : Bytes) → IsWithin (put limits inner key value now).2
    put-IsWithin value =
        let swept = sweep_expired_locked inner limits.ttl now no_stats in
        let kept = sweep-IsWithin inner now no_stats h in
        let delta = length value - old_len (lookup key swept.0.entries) in
        elim (put-cases limits inner key value now) [
          | inl e ↦ rw e h
          | inr e ↦ elim (put_swept-cases limits swept.0 key value now delta swept.1) [
            | inl e' ↦ rw (e, e') kept
            | inr (e', p, q, r) ↦
                rw (e, e') (put_entry-IsWithin swept.0 key value now delta p q r kept)
          ]
        ]

    delete-IsWithin : IsWithin (delete inner key).1
    unfolding delete
    delete-IsWithin = drop_entry-IsWithin inner key h

    sweep_expired-IsWithin : IsWithin (sweep_expired limits inner now).1
    unfolding sweep_expired
    sweep_expired-IsWithin = sweep-IsWithin inner now _ h

-- The states of a store under the operations, at whatever instants they are called.
pub data Reachable (limits : FilterStateLimits) : StateIndex → Type 0 where
  created : Reachable limits empty_index
  after_get :
      {inner : StateIndex} (key : StateKey) (now : ℕ)
      → Reachable limits inner
      → Reachable limits (get limits inner key now).2
  after_put :
      {inner : StateIndex} (key : StateKey) (value : Bytes) (now : ℕ)
      → Reachable limits inner
      → Reachable limits (put limits inner key value now).2
  after_delete :
      {inner : StateIndex} (key : StateKey)
      → Reachable limits inner
      → Reachable limits (delete inner key).1
  after_sweep :
      {inner : StateIndex} (now : ℕ)
      → Reachable limits inner
      → Reachable limits (sweep_expired limits inner now).1

Reachable-IsWithin :
    {limits : FilterStateLimits} {inner : StateIndex}
    → Reachable limits inner
    → IsWithin limits inner
unfolding lookup
Reachable-IsWithin created = record {
  connections = λ name. omega arith;
  filters = λ name. omega arith;
  all = omega arith;
}
Reachable-IsWithin {limits} (after_get {inner} key now r) =
    get-IsWithin limits inner key now (Reachable-IsWithin r)
Reachable-IsWithin {limits} (after_put {inner} key value now r) =
    put-IsWithin limits inner key now (Reachable-IsWithin r) value
Reachable-IsWithin {limits} (after_delete {inner} key r) =
    delete-IsWithin limits inner key 0 (Reachable-IsWithin r)
Reachable-IsWithin {limits} (after_sweep {inner} now r) =
    sweep_expired-IsWithin limits inner
      (record { connection_id = []; filter_name = []; user_key = [] }) now (Reachable-IsWithin r)

Reachable-IsAccounted :
    {limits : FilterStateLimits} {inner : StateIndex} → Reachable limits inner → IsAccounted inner
unfolding total
Reachable-IsAccounted created = record {
  connections = λ name. omega arith;
  filters = λ name. omega arith;
  all = omega arith;
}
Reachable-IsAccounted {limits} (after_get {inner} key now r) =
    get-IsAccounted limits inner key now (Reachable-IsAccounted r)
Reachable-IsAccounted {limits} (after_put {inner} key value now r) =
    put-IsAccounted limits inner key value now (Reachable-IsAccounted r)
Reachable-IsAccounted {limits} (after_delete {inner} key r) =
    delete-IsAccounted limits inner key (Reachable-IsAccounted r)
Reachable-IsAccounted {limits} (after_sweep {inner} now r) =
    sweep_expired-IsAccounted limits inner
      (record { connection_id = []; filter_name = []; user_key = [] }) now (Reachable-IsAccounted r)

-- After any operations, the bytes held for each connection, for each filter and in all are within
-- the configured limits.
pub bytes-le-limits :
    (limits : FilterStateLimits) (inner : StateIndex) (name : Str)
    → Reachable limits inner
    → (total (bytes_if (λ key. key.connection_id) name) inner.entries ≤ limits.max_connection_bytes)
      × (total (bytes_if (λ key. key.filter_name) name) inner.entries ≤ limits.max_filter_bytes)
      × (total bytes_of inner.entries ≤ limits.max_total_bytes)
bytes-le-limits limits inner name r =
    let within = Reachable-IsWithin r in
    let counted = Reachable-IsAccounted r in
    (
      omega (arith, within.connections name, counted.connections name),
      omega (arith, within.filters name, counted.filters name),
      omega (arith, within.all, counted.all),
    )

-- ===== src/StateStore/Accounting.antt =====
-- The byte counters of src/mitm/flow/state_store.rs, and the bytes that the store holds.
use inspect.Common.{
  ℕ, ◌+◌, ◌-◌, ◌≤◌, ◌≡◌, refl, Option, none, some, List, [], ◌∷◌, ◌⊎◌, Str, Bytes, str_eq,
  str_eq_iff, arith, length, ltb, if◌then◌else◌, lookup, insert, remove, total, total-insert,
  total-remove, lookup-insert, lookup-remove, str-Eq, Option-cases, Bool-cases, inl, inr,
}
use inspect.StateStore.{
  FilterStateLimits, StateKey, StateEntry, StateIndex, StateOpStats, key-Eq, used_by, release,
  drop_entry, drop_all, expired_keys, sweep_expired_locked, get_found, get, old_len, put_entry,
  put_swept, put, sweep_expired, delete, no_stats,
}

-- The bytes of the entries whose key has `name` as its connection, or as its filter.
abbrev pub bytes_if : (StateKey → Str) → Str → StateKey → StateEntry → ℕ
bytes_if name_of name key entry = if str_eq (name_of key) name then length entry.value else 0

abbrev pub bytes_of : StateKey → StateEntry → ℕ
bytes_of key entry = length entry.value

pub used_by-release :
    (k j : Str) (len : ℕ) (m : List (Str × ℕ))
    → used_by j (release k len m) ≡ (if str_eq k j then used_by k m - len else used_by j m)
unfolding release
used_by-release k j len m =
    ground (arith, str_eq_iff k j, lookup-remove k j m, lookup-insert k j (used_by k m - len) m)

pub used_by-insert :
    (k j : Str) (n : ℕ) (m : List (Str × ℕ))
    → used_by j (insert k n m) ≡ (if str_eq k j then n else used_by j m)
used_by-insert k j n m = ground (arith, lookup-insert k j n m)

-- One counter map, by connection or by filter, over the entries of the index.
module _ (name_of : StateKey → Str) (m : List (Str × ℕ)) (entries : List (StateKey × StateEntry))
    (key : StateKey) (name : Str)
    (counted : total (bytes_if name_of name) entries ≤ used_by name m) where
  release-counted :
      {entry : StateEntry}
      → lookup key entries ≡ some entry
      → total (bytes_if name_of name) (remove key entries)
        ≤ used_by name (release (name_of key) (length entry.value) m)
  release-counted {entry} e = ground (
    arith,
    used_by-release (name_of key) name (length entry.value) m,
    str_eq_iff (name_of key) name,
    total-remove (bytes_if name_of name) key entries,
  )

  insert-counted :
      (entry : StateEntry)
      → total (bytes_if name_of name) (insert key entry entries)
        ≤ used_by name (
            insert
              (name_of key)
              (used_by (name_of key) m + (length entry.value - old_len (lookup key entries)))
              m)
  insert-counted entry = ground (
    arith,
    used_by-insert (name_of key) name
        (used_by (name_of key) m + (length entry.value - old_len (lookup key entries))) m,
    str_eq_iff (name_of key) name,
    total-insert (bytes_if name_of name) key entry entries,
  )

  touch-counted :
      (entry touched : StateEntry)
      → lookup key entries ≡ some entry
      → touched.value ≡ entry.value
      → total (bytes_if name_of name) (insert key touched entries) ≤ used_by name m
  touch-counted entry touched e same =
      ground (arith, total-insert (bytes_if name_of name) key touched entries)

-- Every counter is at least the bytes of the entries that it counts.
pub record IsAccounted (inner : StateIndex) : Type 0 where
  pub connections :
      (name : Str)
      → total (bytes_if (λ key. key.connection_id) name) inner.entries
        ≤ used_by name inner.connection_bytes
  pub filters :
      (name : Str)
      → total (bytes_if (λ key. key.filter_name) name) inner.entries
        ≤ used_by name inner.filter_bytes
  pub all : total bytes_of inner.entries ≤ inner.total_bytes

drop_entry-IsAccounted :
    (inner : StateIndex) (key : StateKey) → IsAccounted inner → IsAccounted (drop_entry inner key).1
unfolding drop_entry
drop_entry-IsAccounted inner key h = elim (Option-cases (lookup key inner.entries)) [
  | inl e ↦ rw (e, drop_entry) h
  | inr (entry, e) ↦
      rw (e, drop_entry)
        (record {
          connections = λ name.
              release-counted (λ k. k.connection_id) inner.connection_bytes inner.entries key name
                (h.connections name) e;
          filters = λ name.
              release-counted (λ k. k.filter_name) inner.filter_bytes inner.entries key name
                (h.filters name) e;
          all = ground (arith, total-remove bytes_of key inner.entries, h.all);
        })
]

drop_all-IsAccounted :
    (keys : List StateKey) (inner : StateIndex) (stats : StateOpStats)
    → IsAccounted inner
    → IsAccounted (drop_all keys inner stats).0
unfolding drop_all
drop_all-IsAccounted [] inner stats h = h
drop_all-IsAccounted (key ∷ keys) inner stats h =
    drop_all-IsAccounted keys (drop_entry inner key).1 _ (drop_entry-IsAccounted inner key h)

sweep-IsAccounted :
    (inner : StateIndex) (ttl now : ℕ) (stats : StateOpStats)
    → IsAccounted inner
    → IsAccounted (sweep_expired_locked inner ttl now stats).0
unfolding sweep_expired_locked
sweep-IsAccounted inner ttl now stats h =
    drop_all-IsAccounted (expired_keys ttl now inner.entries) inner stats h

put_entry-IsAccounted :
    (inner : StateIndex) (key : StateKey) (value : Bytes) (now : ℕ)
    → IsAccounted inner
    → IsAccounted
        (put_entry inner key value now (length value - old_len (lookup key inner.entries)))
unfolding put_entry
put_entry-IsAccounted inner key value now h =
    let entry : StateEntry = record { value = value; created_at = now; last_access_at = now } in
    record {
      connections = λ name.
          insert-counted (λ k. k.connection_id) inner.connection_bytes inner.entries key name
            (h.connections name) entry;
      filters = λ name.
          insert-counted (λ k. k.filter_name) inner.filter_bytes inner.entries key name
            (h.filters name) entry;
      all = ground (arith, total-insert bytes_of key entry inner.entries, h.all);
    }

-- A `put` behind the sweep leaves the index alone, or stores the entry within every limit.
pub put_swept-cases :
    (limits : FilterStateLimits) (inner : StateIndex) (key : StateKey) (value : Bytes)
    (now delta : ℕ) (stats : StateOpStats)
    → ((put_swept limits inner key value now delta stats).2 ≡ inner)
      ⊎ (((put_swept limits inner key value now delta stats).2
            ≡ put_entry inner key value now delta)
          × (used_by key.connection_id inner.connection_bytes + delta ≤ limits.max_connection_bytes)
          × (used_by key.filter_name inner.filter_bytes + delta ≤ limits.max_filter_bytes)
          × (inner.total_bytes + delta ≤ limits.max_total_bytes))
unfolding put_swept
put_swept-cases limits inner key value now delta stats = ground arith

-- What a `put` leaves: its index, when the value is too large, or what is left behind the sweep.
pub put-cases :
    (limits : FilterStateLimits) (inner : StateIndex) (key : StateKey) (value : Bytes) (now : ℕ)
    → let swept = sweep_expired_locked inner limits.ttl now no_stats in
      ((put limits inner key value now).2 ≡ inner)
      ⊎ ((put limits inner key value now).2
          ≡ (put_swept limits swept.0 key value now
              (length value - old_len (lookup key swept.0.entries))
              swept.1).2)
unfolding put
put-cases limits inner key value now =
    elim (Bool-cases (ltb limits.max_entry_bytes (length value))) [
      | inl large ↦ inl (rw large refl)
      | inr fits ↦ inr (rw fits refl)
    ]

module _ (limits : FilterStateLimits) (inner : StateIndex) (key : StateKey) where
  get_found-IsAccounted :
      (now : ℕ) (found : Option StateEntry)
      → lookup key inner.entries ≡ found
      → IsAccounted inner
      → IsAccounted (get_found limits inner key now found).2
  unfolding get_found
  get_found-IsAccounted now none e h = h
  get_found-IsAccounted now (some entry) e h =
      elim (Bool-cases (ltb limits.ttl (now - entry.last_access_at))) [
        | inl old ↦ rw old (drop_entry-IsAccounted inner key h)
        | inr fresh ↦
            let touched = record entry { last_access_at = now } in
            rw fresh (record {
              connections = λ name.
                  touch-counted (λ k. k.connection_id) inner.connection_bytes inner.entries key name
                    (h.connections name) entry touched e refl;
              filters = λ name.
                  touch-counted (λ k. k.filter_name) inner.filter_bytes inner.entries key name
                    (h.filters name) entry touched e refl;
              all = ground (arith, total-insert bytes_of key touched inner.entries, h.all);
            })
      ]

  pub get-IsAccounted : (now : ℕ) → IsAccounted inner → IsAccounted (get limits inner key now).2
  unfolding get
  get-IsAccounted now h = get_found-IsAccounted now (lookup key inner.entries) refl h

  pub put-IsAccounted :
      (value : Bytes) (now : ℕ) → IsAccounted inner → IsAccounted (put limits inner key value now).2
  put-IsAccounted value now h =
      let swept = sweep_expired_locked inner limits.ttl now no_stats in
      let kept = sweep-IsAccounted inner limits.ttl now no_stats h in
      let delta = length value - old_len (lookup key swept.0.entries) in
      elim (put-cases limits inner key value now) [
        | inl e ↦ rw e h
        | inr e ↦ elim (put_swept-cases limits swept.0 key value now delta swept.1) [
          | inl e' ↦ rw (e, e') kept
          | inr (e', _, _, _) ↦ rw (e, e') (put_entry-IsAccounted swept.0 key value now kept)
        ]
      ]

  pub delete-IsAccounted : IsAccounted inner → IsAccounted (delete inner key).1
  unfolding delete
  delete-IsAccounted h = drop_entry-IsAccounted inner key h

  pub sweep_expired-IsAccounted :
      (now : ℕ) → IsAccounted inner → IsAccounted (sweep_expired limits inner now).1
  unfolding sweep_expired
  sweep_expired-IsAccounted now h = sweep-IsAccounted inner limits.ttl now _ h

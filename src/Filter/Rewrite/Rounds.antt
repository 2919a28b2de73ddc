-- ===== src/Filter/Rewrite/Rounds.antt =====
-- apply_body_rewrite_ops of src/filters/runtime.rs on operations that replace texts everywhere.
use inspect.Common.{
  ◌≡◌, ◌≢◌, ◌⊎◌, refl, subst, sym, true, false, Option, some, none, List, [], ◌∷◌, Str, contains,
  map, Bool-cases, inl, inr,
}
use inspect.Filter.Rewrite.{
  RotoBodyRewriteOp, replace_text_all, Rewriting, present, replace_all, apply_op, apply_ops,
  apply_body_rewrite_ops,
}
use inspect.Filter.Rewrite.Laws.{
  Replaced, replace_all-Replaced, text_after, apply_body_rewrite_ops_lem,
}

-- What becomes of a text when pairs of an old and a new text are replaced in it, one pair after the other.
pub data Rounds : List (Str × Str) → Str → Str → Type 0 where
  no_more : {text : Str} → Rounds [] text text
  passed_over :
      {old new text end : Str} {pairs : List (Str × Str)}
      → (old ≡ []) ⊎ (contains old text ≡ false)
      → Rounds pairs text end
      → Rounds ((old, new) ∷ pairs) text end
  replaced_in :
      {old new text next end : Str} {pairs : List (Str × Str)}
      → old ≢ []
      → contains old text ≡ true
      → Replaced old new text next
      → Rounds pairs next end
      → Rounds ((old, new) ∷ pairs) text end

present-false :
    (text old : Str) → present text old ≡ false → (old ≡ []) ⊎ (contains old text ≡ false)
unfolding present
present-false text [] h = inl refl
present-false text (c ∷ old) h = inr h

present-true : (text old : Str) → present text old ≡ true → (old ≢ []) × (contains old text ≡ true)
unfolding present
present-true text [] h = cc
present-true text (c ∷ old) h = (λ e. cc, h)

abbrev pub all_op : Str × Str → RotoBodyRewriteOp
all_op pair = replace_text_all pair.0 pair.1

module _ (regex_replace_all : Str → Option (Str → Str → Str))
    (apply_json_patch : Str → Str → Option Str) where
  apply_op-here :
      (old new : Str) (s : Rewriting)
      → present s.body old ≡ true
      → apply_op regex_replace_all apply_json_patch (replace_text_all old new) s
        ≡ record s { body = replace_all old new s.body; changed = true }
  unfolding apply_op
  apply_op-here old new s here = rw here refl

  apply_op-gone :
      (old new : Str) (s : Rewriting)
      → present s.body old ≡ false
      → apply_op regex_replace_all apply_json_patch (replace_text_all old new) s ≡ s
  unfolding apply_op
  apply_op-gone old new s gone = rw gone refl

  apply_ops-Rounds :
      (pairs : List (Str × Str)) (s : Rewriting)
      → Rounds pairs s.body (apply_ops regex_replace_all apply_json_patch (map all_op pairs) s).body
  unfolding apply_ops
  apply_ops-Rounds [] s = no_more
  apply_ops-Rounds ((old, new) ∷ pairs) s =
      let after : Rewriting → Str =
        λ u. (apply_ops regex_replace_all apply_json_patch (map all_op pairs) u).body in
      elim (Bool-cases (present s.body old)) [
        | inl here ↦
            let (full, found) = present-true s.body old here in
            let next : Rewriting = record s { body = replace_all old new s.body; changed = true } in
            subst (λ u. Rounds ((old, new) ∷ pairs) s.body (after u))
              (sym (apply_op-here old new s here))
              (replaced_in full found (replace_all-Replaced old new s.body full)
                (apply_ops-Rounds pairs next))
        | inr gone ↦
            subst (λ u. Rounds ((old, new) ∷ pairs) s.body (after u))
              (sym (apply_op-gone old new s gone))
              (passed_over (present-false s.body old gone) (apply_ops-Rounds pairs s))
      ]

  -- A filter that replaces pairs of texts everywhere in a body treats them in their order, each in the
  -- text that the pairs before it left: all occurrences of the old text are replaced from the left, none
  -- overlapping another, and every other character is kept; an old text that is empty or is not there is
  -- passed over. The body that is reported is the outcome, and without a report it is the original.
  pub apply_body_rewrite_ops-Rounds :
      (pairs : List (Str × Str)) (text : Str)
      → Rounds pairs text (
          text_after
            (apply_body_rewrite_ops regex_replace_all apply_json_patch
              (some text)
              (map all_op pairs))
            text)
  apply_body_rewrite_ops-Rounds pairs text =
      rw (apply_body_rewrite_ops_lem regex_replace_all apply_json_patch text (map all_op pairs))
        (apply_ops-Rounds pairs (record { body = text; content_type = none; changed = false }))

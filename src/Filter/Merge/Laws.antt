-- ===== src/Filter/Merge/Laws.antt =====
-- The merges of src/mitm/flow/filter_bridge.rs, for a list of actions merged one after the
-- other.
use inspect.Common.{
  ◌≡◌, refl, ap, sym, ◌∙◌, Bool, true, false, ◌||◌, Option, List, [], ◌∷◌, ◌++◌, or_else,
  append_assoc, append-nil, any, foldl, collect,
}
use inspect.Filter.Types.{RequestAction, ResponseAction}
use inspect.Filter.Merge.{merge_request_action, merge_response_action}

module _ {ℓ κ} {A : Type ℓ} {B : Type κ} where
  -- The value of the last action that has one.
  abbrev pub latest : (A → Option B) → Option B → List A → Option B
  latest f dst [] = dst
  latest f dst (a ∷ as_) = latest f (or_else (f a) dst) as_

-- A field that a merge extends holds, in the end, everything that was added, in order.
collected :
    {A B : Type 0} (merge : A → A → A) (f : A → List B)
    → ((dst src : A) → f (merge dst src) ≡ f dst ++ f src)
    → (dst : A) (actions : List A) → f (foldl merge dst actions) ≡ f dst ++ collect f actions
collected merge f extends dst [] = sym (append-nil (f dst))
collected merge f extends dst (a ∷ as_) =
    collected merge f extends (merge dst a) as_
    ∙ ap (λ xs. xs ++ collect f as_) (extends dst a)
    ∙ append_assoc (f dst) (f a) (collect f as_)

replaced_by_latest :
    {A B : Type 0} (merge : A → A → A) (f : A → Option B)
    → ((dst src : A) → f (merge dst src) ≡ or_else (f src) (f dst))
    → (dst : A) (actions : List A) → f (foldl merge dst actions) ≡ latest f (f dst) actions
replaced_by_latest merge f replaces dst [] = refl
replaced_by_latest merge f replaces dst (a ∷ as_) =
    replaced_by_latest merge f replaces (merge dst a) as_
    ∙ ap (λ o. latest f o as_) (replaces dst a)

or_assoc : (a b c : Bool) → ((a || b) || c) ≡ (a || (b || c))
or_assoc true b c = refl
or_assoc false b c = refl

or_false : (a : Bool) → a ≡ (a || false)
or_false true = refl
or_false false = refl

set_by_any :
    {A : Type 0} (merge : A → A → A) (f : A → Bool)
    → ((dst src : A) → f (merge dst src) ≡ (f dst || f src))
    → (dst : A) (actions : List A) → f (foldl merge dst actions) ≡ (f dst || any f actions)
set_by_any merge f sets dst [] = or_false (f dst)
set_by_any merge f sets dst (a ∷ as_) =
    set_by_any merge f sets (merge dst a) as_
    ∙ ap (λ b. b || any f as_) (sets dst a)
    ∙ or_assoc (f dst) (f a) (any f as_)

-- Request actions merged into `dst` one after the other: the patch and the synthetic response are those
-- of the last action that has one, the marks, tags, notes and jobs are all those there are, in order,
-- and the response to the client is dropped if `dst` or any of the actions says so.
merge_request_action_all :
    (dst : RequestAction) (actions : List RequestAction)
    → ((foldl merge_request_action dst actions).request
        ≡ latest (λ a. a.request) dst.request actions)
      × ((foldl merge_request_action dst actions).synthetic_response
          ≡ latest (λ a. a.synthetic_response) dst.synthetic_response actions)
      × ((foldl merge_request_action dst actions).marks
          ≡ dst.marks ++ collect (λ a. a.marks) actions)
      × ((foldl merge_request_action dst actions).tags ≡ dst.tags ++ collect (λ a. a.tags) actions)
      × ((foldl merge_request_action dst actions).notes
          ≡ dst.notes ++ collect (λ a. a.notes) actions)
      × ((foldl merge_request_action dst actions).outbound_http
          ≡ dst.outbound_http ++ collect (λ a. a.outbound_http) actions)
      × ((foldl merge_request_action dst actions).drop_client_response
          ≡ (dst.drop_client_response || any (λ a. a.drop_client_response) actions))
unfolding merge_request_action
merge_request_action_all dst actions = (
  replaced_by_latest merge_request_action (λ a. a.request) (λ d s. refl) dst actions,
  replaced_by_latest merge_request_action (λ a. a.synthetic_response) (λ d s. refl) dst actions,
  collected merge_request_action (λ a. a.marks) (λ d s. refl) dst actions,
  collected merge_request_action (λ a. a.tags) (λ d s. refl) dst actions,
  collected merge_request_action (λ a. a.notes) (λ d s. refl) dst actions,
  collected merge_request_action (λ a. a.outbound_http) (λ d s. refl) dst actions,
  set_by_any merge_request_action (λ a. a.drop_client_response) (λ d s. refl) dst actions,
)

-- Response actions merged into `dst` one after the other: the patch is that of the last action that has
-- one, the marks, tags, notes and jobs are all those there are, in order, and the response to the client
-- is dropped if `dst` or any of the actions says so.
merge_response_action_all :
    (dst : ResponseAction) (actions : List ResponseAction)
    → ((foldl merge_response_action dst actions).response
        ≡ latest (λ a. a.response) dst.response actions)
      × ((foldl merge_response_action dst actions).marks
          ≡ dst.marks ++ collect (λ a. a.marks) actions)
      × ((foldl merge_response_action dst actions).tags ≡ dst.tags ++ collect (λ a. a.tags) actions)
      × ((foldl merge_response_action dst actions).notes
          ≡ dst.notes ++ collect (λ a. a.notes) actions)
      × ((foldl merge_response_action dst actions).outbound_http
          ≡ dst.outbound_http ++ collect (λ a. a.outbound_http) actions)
      × ((foldl merge_response_action dst actions).drop_client_response
          ≡ (dst.drop_client_response || any (λ a. a.drop_client_response) actions))
unfolding merge_response_action
merge_response_action_all dst actions = (
  replaced_by_latest merge_response_action (λ a. a.response) (λ d s. refl) dst actions,
  collected merge_response_action (λ a. a.marks) (λ d s. refl) dst actions,
  collected merge_response_action (λ a. a.tags) (λ d s. refl) dst actions,
  collected merge_response_action (λ a. a.notes) (λ d s. refl) dst actions,
  collected merge_response_action (λ a. a.outbound_http) (λ d s. refl) dst actions,
  set_by_any merge_response_action (λ a. a.drop_client_response) (λ d s. refl) dst actions,
)

-- Whatever the actions say of it, and however many are merged, the merged request action bypasses the
-- upstream proxy exactly if `dst` does.
pub merge_request_action_bypass :
    (dst : RequestAction) (actions : List RequestAction)
    → (foldl merge_request_action dst actions).bypass_upstream_proxy ≡ dst.bypass_upstream_proxy
unfolding merge_request_action
merge_request_action_bypass dst [] = refl
merge_request_action_bypass dst (a ∷ as_) =
    merge_request_action_bypass (merge_request_action dst a) as_

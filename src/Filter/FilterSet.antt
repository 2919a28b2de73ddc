-- ===== src/Filter/FilterSet.antt =====
-- src/filters/runtime.rs, `CompiledFilterSet`: the filters in the order in which they run.
mod Order
mod Tests
use inspect.Common.{
  ℕ, Bool, true, false, ◌&&◌, ◌||◌, List, [], ◌∷◌, Str, ltb, ◌==◌, str_leb, str_ltb, if◌then◌else◌,
  is_empty, length,
}
use inspect.Filter.Trigger.{
  FilterRequestView, FilterConnectView, FilterResponseView, PathBuf, matches_connect,
  matches_request, matches_response, matches_completed,
}
use inspect.Filter.Program.{CompiledFilter}

-- Paths in the lexicographic order of their components.
unfoldable pub path_leb : PathBuf → PathBuf → Bool
unfolding str_leb str_ltb
path_leb [] q = true
path_leb (s ∷ p) [] = false
path_leb (s ∷ p) (t ∷ q) = str_ltb s t || (str_leb s t && path_leb p q)

-- The comparison by priority, then by path.
unfoldable pub filter_leb : CompiledFilter → CompiledFilter → Bool
filter_leb a b =
    ltb a.priority b.priority
    || (a.priority == b.priority && path_leb a.definition.path b.definition.path)

-- `sort_by`, which is stable.
unfoldable pub insert_filter : CompiledFilter → List CompiledFilter → List CompiledFilter
insert_filter f [] = f ∷ []
insert_filter f (g ∷ gs) =
    let rest = insert_filter f gs in if filter_leb f g then f ∷ g ∷ gs else g ∷ rest

-- `CompiledFilterSet::new`; a set is its sorted list of filters.
unfoldable pub new_set : List CompiledFilter → List CompiledFilter
new_set [] = []
new_set (f ∷ fs) = insert_filter f (new_set fs)

unfoldable pub filter_by : (CompiledFilter → Bool) → List CompiledFilter → List CompiledFilter
filter_by p [] = []
filter_by p (f ∷ fs) = let rest = filter_by p fs in if p f then f ∷ rest else rest

unfoldable pub matching_connect : List CompiledFilter → FilterConnectView → List CompiledFilter
matching_connect filters conn =
    filter_by (λ f. matches_connect f.definition.metadata.trigger conn) filters

unfoldable pub matching_request : List CompiledFilter → FilterRequestView → List CompiledFilter
matching_request filters req =
    filter_by (λ f. matches_request f.definition.metadata.trigger req) filters

unfoldable pub matching_response : List CompiledFilter → FilterResponseView → List CompiledFilter
matching_response filters res =
    filter_by (λ f. matches_response f.definition.metadata.trigger res) filters

unfoldable pub matching_completed : List CompiledFilter → FilterRequestView → List CompiledFilter
matching_completed filters req =
    filter_by (λ f. matches_completed f.definition.metadata.trigger req) filters

-- ===== src/Filter/FilterSet/Tests.antt =====
-- Sets of concrete filters, for the modules of Filter.FilterSet.
use inspect.Common.{str_leb, str_ltb, ℕ, ◌≡◌, refl, Bool, List, [], ◌∷◌, Str, codes, map}
use inspect.Filter.Trigger.{default_metadata, persistent}
use inspect.Filter.Program.{CompiledFilter, metadata_only}
use inspect.Filter.FilterSet.{new_set, insert_filter, filter_leb, path_leb}
use inspect.Filter.FilterSet.Order.{Ordered, count, new_set-sorted}

abbrev filter_of : Str → ℕ → CompiledFilter
filter_of id priority = record {
  definition = record {
    id = id;
    source_kind = persistent;
    file_name = id;
    script_hash = [];
    path = codes "filters" ∷ id ∷ [];
    source = [];
    metadata = default_metadata;
    script = [];
  };
  priority = priority;
  program = metadata_only;
}

abbrev three : List CompiledFilter
three = filter_of (codes "c") 2 ∷ filter_of (codes "b") 1 ∷ filter_of (codes "a") 2 ∷ []

runs : map (λ f. f.definition.id) (new_set three) ≡ codes "b" ∷ codes "a" ∷ codes "c" ∷ []
unfolding new_set insert_filter filter_leb path_leb str_leb str_ltb
runs = refl

new_set-sorted_example :
    Ordered (new_set three)
    × ((p : CompiledFilter → Bool) → count p (new_set three) ≡ count p three)
new_set-sorted_example = new_set-sorted three

-- ===== src/Planner/Overrides.antt =====
-- crates/renamewright-core/src/planner.rs: `validate_overrides`. A `BTreeMap` by source id is the
-- list of its entries, which the code only inserts into and looks up.
use renamewright.Common.{
  ℕ, Bool, not, ◌||◌, Option, none, some, List, [], ◌∷◌, ◌==◌, ltb, if◌then◌else◌, length, map,
}
use renamewright.Text.{Str, str_len}
use renamewright.Model.Source.{SourceId, SourceSnapshot, contains_id}

abbrev pub max_overrides : ℕ
max_overrides = 100000

abbrev pub max_override_text_bytes : ℕ
max_override_text_bytes = 4096

pub record NameOverride : Type 0 where
  pub source_id : SourceId
  pub proposed_name : Str

abbrev pub OverrideMap : Type 0
OverrideMap = List (SourceId × Str)

unfoldable pub find_override : OverrideMap → SourceId → Option Str
find_override [] id = none
find_override ((j, name) ∷ entries) id = if j == id then some name else find_override entries id

abbrev pub is_some : Option Str → Bool
is_some none = Bool.false
is_some (some name) = Bool.true

-- The loop over the overrides; the last entry inserted stands first.
unfoldable pub validate_loop : List SourceId → OverrideMap → List NameOverride → Option OverrideMap
validate_loop ids validated [] = some validated
validate_loop ids validated (o ∷ overrides) =
    let rest = validate_loop ids ((o.source_id, o.proposed_name) ∷ validated) overrides in
    if o.source_id == 0
      || not (contains_id ids o.source_id)
      || ltb max_override_text_bytes (str_len o.proposed_name)
      || is_some (find_override validated o.source_id)
    then none
    else rest

unfoldable pub validate_overrides : List SourceSnapshot → List NameOverride → Option OverrideMap
unfolding validate_loop
validate_overrides sources overrides =
    if ltb max_overrides (length overrides)
    then none
    else validate_loop (map (λ s. s.id) sources) [] overrides

-- ===== src/Ingest/Parse/Identity.antt =====
-- The `y` tag: the platform, and the instance's own name (src/ingest/parse/identity.rs).
use bestiario.Prelude.{
  String, Bool, false, Option, none, some, List, [], ◌∷◌, str_eq, if◌then◌else◌,
}
use bestiario.Prelude.{map_or}
use bestiario.Prelude.Result.{ok, err}
use bestiario.Prelude.Text.{is_empty, trim}
use bestiario.Ingest.Event.{Event}
use bestiario.Ingest.Parse.Tags.{Parse, tag_values}

abbrev pub mostro : String
mostro = "mostro"

-- `.ok().flatten()`
abbrev pub ok_flatten : {A : Type 0} → Parse (Option A) → Option A
ok_flatten (ok found) = found
ok_flatten (err e) = none

unfoldable pub y : Event → Option (List String)
unfolding tag_values
y event = ok_flatten (tag_values event "y")

-- `values.first().cloned()` and `values.get(1)`
abbrev pub first_of : Option (List String) → Option String
first_of none = none
first_of (some []) = none
first_of (some (value ∷ rest)) = some value

abbrev second_of : Option (List String) → Option String
second_of none = none
second_of (some []) = none
second_of (some (value ∷ [])) = none
second_of (some (value ∷ second ∷ rest)) = some second

unfoldable pub platform : Event → Option String
unfolding y
platform event = first_of (y event)

unfoldable pub is_mostro : Event → Bool
unfolding platform
is_mostro event = map_or (platform event) false (λ name. str_eq name mostro)

abbrev named : String → Option String
named name = if is_empty name then none else some name

unfoldable pub instance_name : Event → Option String
unfolding y
instance_name event = map_or (second_of (y event)) none (λ name. named (trim name))

-- ===== src/Commands/Range.antt =====
-- The window and the instance that a command is about (src/commands/range.rs).
pub mod Bounds
pub mod Instance
use bestiario.Prelude.{
  Bool, true, false, ◌&&◌, ◌||◌, not, Option, none, some, String, List, [], ◌∷◌, map, if◌then◌else◌,
  map_or,
}
use bestiario.Prelude.Int.{ℤ, pos, ◌-ℤ◌, ltb_ℤ, leb_ℤ, i64_max, wrap_i64, saturating_sub}
use bestiario.Prelude.Lists.{select}
use bestiario.Prelude.Result.{Result, ok, err}
use bestiario.Prelude.Text.{trim, eq_ignore_ascii_case}
use bestiario.Ingest.Event.{Sdk}
use text.Mathlib.Text.{starts_with}

abbrev pub default_window_days : ℤ
default_window_days = pos 30

-- 30 * 86_400, and 100 * 31_557_600.
abbrev pub default_window_secs : ℤ
default_window_secs = pos 2592000

abbrev pub max_window_secs : ℤ
max_window_secs = pos 3155760000

pub record Range : Type 0 where
  pub from : ℤ
  pub until : ℤ

-- Each error with the bounds it names.
pub data RangeError : Type 0 where
  empty : ℤ → ℤ → RangeError
  too_wide : ℤ → ℤ → RangeError

abbrev pub value_or : Option ℤ → ℤ → ℤ
value_or bound default = map_or bound default (λ at. at)

-- The tests, once both bounds are known.
unfoldable pub checked : ℤ → ℤ → Result RangeError Range
checked from until =
    if leb_ℤ until from
    then err (empty from until)
    else if ltb_ℤ max_window_secs (saturating_sub until from)
    then err (too_wide from until)
    else ok (record { from = from; until = until })

unfoldable pub resolve : Option ℤ → Option ℤ → ℤ → Result RangeError Range
unfolding checked
resolve from until now =
    let end = value_or until now in
    checked (value_or from (wrap_i64 (end -ℤ default_window_secs))) end

unfoldable pub onwards : ℤ → Range
onwards from = record { from = from; until = i64_max }

unfoldable pub unbounded : Range
unbounded = record { from = pos 0; until = i64_max }

unfoldable pub contains : Range → ℤ → Bool
contains range timestamp = leb_ℤ range.from timestamp && ltb_ℤ timestamp range.until

unfoldable pub previous : Range → Range
previous range = record {
  from = wrap_i64 (range.from -ℤ wrap_i64 (range.until -ℤ range.from));
  until = range.from;
}

pub data InstanceFilter : Type 0 where
  all : InstanceFilter
  one : String → InstanceFilter

pub data InstanceError : Type 0 where
  not_found : String → InstanceError
  ambiguous : String → List String → InstanceError

-- A pubkey, and its name where one is known.
abbrev pub KnownInstance : Type 0
KnownInstance = String × Option String

-- A whole pubkey or a name, in any case.
unfoldable pub matches_exactly : String → KnownInstance → Bool
matches_exactly needle (pubkey, name) =
    eq_ignore_ascii_case pubkey needle || map_or name false (λ n. eq_ignore_ascii_case n needle)

-- The test of the filter: a prefix of the pubkey will also do.
unfoldable pub matches : Sdk → String → KnownInstance → Bool
matches sdk needle (pubkey, name) =
    eq_ignore_ascii_case pubkey needle
    || starts_with (sdk.to_lowercase pubkey) (sdk.to_lowercase needle)
    || map_or name false (λ n. eq_ignore_ascii_case n needle)

-- `Iterator::find`
unfoldable pub find : (KnownInstance → Bool) → List KnownInstance → Option KnownInstance
find p [] = none
find p (x ∷ xs) = let rest = find p xs in if p x then some x else rest

-- Several match: one that does so exactly is taken.
abbrev pub settled :
    String → List String → Option KnownInstance → Result InstanceError InstanceFilter
settled needle pubkeys (some (pubkey, name)) = ok (one pubkey)
settled needle pubkeys none = err (ambiguous needle pubkeys)

-- The `match` on the pubkeys that matched.
abbrev pub decide : String → List KnownInstance → List String → Result InstanceError InstanceFilter
decide needle known [] = err (not_found needle)
decide needle known (pubkey ∷ []) = ok (one pubkey)
decide needle known (first ∷ second ∷ pubkeys) =
    settled needle (first ∷ second ∷ pubkeys) (find (matches_exactly needle) known)

unfoldable pub matching : Sdk → String → List KnownInstance → List String
unfolding select matches
matching sdk needle known = map (λ instance. instance.0) (select (matches sdk needle) known)

unfoldable pub resolve_instance :
    Sdk → Option String → List KnownInstance → Result InstanceError InstanceFilter
unfolding matching find matches_exactly
resolve_instance sdk none known = ok all
resolve_instance sdk (some text) known =
    let needle = trim text in decide needle known (matching sdk needle known)

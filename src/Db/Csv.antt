-- ===== src/Db/Csv.antt =====
-- Lists in one column (src/db/repo/csv.rs): values between commas, quoted where they must be.
pub mod RoundTrip
use bestiario.Prelude.{
  ◌≡◌, Bool, true, false, not, ◌&&◌, ◌||◌, String, List, [], ◌∷◌, map, if◌then◌else◌, str_eq, refl,
  ℕ,
}
use bestiario.Prelude.{◌==◌}
use bestiario.Prelude.Text.{trim, is_empty}
use bestiario.Prelude.Join.{has, ◌+++◌, push_char, join_with}
use Prim.Native.Char.{Char, code}

-- A character by its number: a comma, a double quote.
abbrev pub comma : ℕ
comma = 44

abbrev pub double_quote : ℕ
double_quote = 34

unfoldable pub needs_quoting : String → Bool
unfolding has
needs_quoting value = has comma value || has double_quote value || not (str_eq (trim value) value)

-- `value.replace('"', "\"\"")`
unfoldable pub double_quotes : String → String
double_quotes String.[] = String.[]
double_quotes (String.◌∷◌ c s) =
    let rest = double_quotes s in
    if code c == double_quote then String.◌∷◌ c (String.◌∷◌ c rest) else String.◌∷◌ c rest

-- One value, as it stands in the column.
unfoldable pub encode : String → String
unfolding needs_quoting double_quotes
encode value = if needs_quoting value then "\"" +++ double_quotes value +++ "\"" else value

unfoldable pub join : List String → String
unfolding encode
join values = join_with "," (map encode values)

-- A field that ends: what is kept of it, before the values that follow.
unfoldable pub push : String → Bool → List String → List String
push field quoted values =
    let value = if quoted then field else trim field in
    if is_empty value then values else value ∷ values

-- What the loop does at a character.
pub data Turn : Type 0 where
  doubled : Turn
  closes : Turn
  opens : Turn
  separates : Turn
  keeps : Turn

-- `characters.peek() == Some(&'"')`
abbrev pub peeks_quote : String → Bool
peeks_quote String.[] = false
peeks_quote (String.◌∷◌ c rest) = code c == double_quote

-- The arms of the match, in their order; `rest` is what the iterator has left.
unfoldable pub turn : String → Bool → Bool → Char → String → Turn
turn field quoted inside_quotes c rest =
    if code c == double_quote && inside_quotes
    then (if peeks_quote rest then doubled else closes)
    else if code c == double_quote && (is_empty field && not quoted)
    then opens
    else if code c == comma && not inside_quotes
    then separates
    else keeps

-- The loop: the field so far, `quoted`, `inside_quotes`, and whether the character in front was
-- already taken from the iterator, as the second one of a doubled quote.
unfoldable pub scan : String → Bool → Bool → Bool → String → List String
unfolding push turn
scan field quoted inside_quotes taken String.[] = push field quoted []
scan field quoted inside_quotes true (String.◌∷◌ c rest) =
    scan field quoted inside_quotes false rest
scan field quoted inside_quotes false (String.◌∷◌ c rest) =
    elim (turn field quoted inside_quotes c rest) [
      | doubled ↦ scan (push_char field "\"") quoted inside_quotes true rest
      | closes ↦ scan field quoted false false rest
      | opens ↦ scan field true true false rest
      | separates ↦ push field quoted (scan String.[] false inside_quotes false rest)
      | keeps ↦ scan (push_char field c) quoted inside_quotes false rest
    ]

unfoldable pub split : String → List String
unfolding scan
split csv = scan String.[] false false false csv

split_runs : split " a ,\"b,\"\"c\"\"\",, d" ≡ "a" ∷ "b,\"c\"" ∷ "d" ∷ []
unfolding split is_empty trim
split_runs = refl

join_runs : join ("a" ∷ " b" ∷ "c\"d" ∷ []) ≡ "a,\" b\",\"c\"\"d\""
unfolding join join_with trim
join_runs = refl

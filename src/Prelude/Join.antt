-- ===== src/Prelude/Join.antt =====
-- Texts that are put together: `push_str`, `push`, and the `join` of a list of texts.
use bestiario.Prelude.Tests.{◌==◌}
use Prim.Native.Nat.{ℕ}
use Prim.Native.Char.{Char, code}
use mathlib.Core.Bool.{Bool, false, ◌||◌}
use Prim.Native.String.{String}
use mathlib.Core.Path.{◌≡◌, refl, ap}
use mathlib.Core.List.{List, [], ◌∷◌}

infixr 65 ◌+++◌
abbrev pub ◌+++◌ : String → String → String
String.[] +++ t = t
(String.◌∷◌ c s) +++ t = String.◌∷◌ c (s +++ t)

-- `String::push`
abbrev pub push_char : String → Char → String
push_char s c = s +++ String.◌∷◌ c String.[]

-- `join` with a separator.
unfoldable pub join_with : String → List String → String
join_with separator [] = String.[]
join_with separator (text ∷ []) = text
join_with separator (text ∷ next ∷ texts) =
    text +++ separator +++ join_with separator (next ∷ texts)

pub append_nil : (s : String) → s +++ String.[] ≡ s
append_nil String.[] = refl
append_nil (String.◌∷◌ c s) = ap (String.◌∷◌ c) (append_nil s)

pub append_assoc : (s t u : String) → (s +++ t) +++ u ≡ s +++ t +++ u
append_assoc String.[] t u = refl
append_assoc (String.◌∷◌ c s) t u = ap (String.◌∷◌ c) (append_assoc s t u)

pub push_char-append : (s t : String) (c : Char) → push_char s c +++ t ≡ s +++ String.◌∷◌ c t
push_char-append s t c = append_assoc s (String.◌∷◌ c String.[]) t

join_runs : join_with ", " ("a" ∷ "b" ∷ "c" ∷ []) ≡ "a, b, c"
unfolding join_with
join_runs = refl

-- `str::contains` of one character.
unfoldable pub has : ℕ → String → Bool
has c String.[] = false
has c (String.◌∷◌ d s) = code d == c || has c s

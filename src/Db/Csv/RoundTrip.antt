-- ===== src/Db/Csv/RoundTrip.antt =====
-- What `split` reads of a column that `join` wrote (src/db/repo/csv.rs).
use bestiario.Prelude.{
  ◌≡◌, Bool, true, false, String, List, [], ◌∷◌, refl, sym, ap, ◌∙◌, arith, ◌≢◌, eq_iff, ==_iff,
  inl, inr,
}
use bestiario.Prelude.{◌==◌, Bool-cases}
use bestiario.Prelude.Lists.{All}
use bestiario.Prelude.Text.{trim, is_empty}
use bestiario.Prelude.Join.{
  has, ◌+++◌, push_char, join_with, append_nil, append_assoc, push_char-append,
}
use bestiario.Db.Csv.{
  comma, double_quote, needs_quoting, double_quotes, encode, join, push, turn, scan, split, keeps,
  peeks_quote,
}
use Prim.Native.Char.{Char, code}
use text.Mathlib.TextEquality.{Char-path}

-- A quote's number names the quote.
quote_of : (c : Char) → (code c == double_quote) ≡ true → c ≡ "\""
quote_of c h = Char-path c "\"" ((==_iff (code c) 34).0 h)

-- Outside quotes, characters that are neither quotes nor commas are kept.
scan-plain :
    (field value rest : String)
    → has comma value ≡ false
    → has double_quote value ≡ false
    → scan field false false false (value +++ rest) ≡ scan (field +++ value) false false false rest
unfolding scan has turn
scan-plain field String.[] rest no_comma no_quote =
    ap (λ f. scan f false false false rest) (sym (append_nil field))
scan-plain field (String.◌∷◌ c value) rest no_comma no_quote =
    let not_comma : (code c == comma) ≡ false = ground arith in
    let not_quote : (code c == double_quote) ≡ false = ground arith in
    let commas : has comma value ≡ false = ground arith in
    let quotes : has double_quote value ≡ false = ground arith in
    rw (scan, turn, not_comma, not_quote)
      (scan-plain (push_char field c) value rest commas quotes
        ∙ ap (λ f. scan f false false false rest) (push_char-append field value c))

turn-keeps :
    (field : String) (quoted : Bool) (c : Char) (rest : String)
    → (code c == double_quote) ≡ false
    → turn field quoted true c rest ≡ keeps
unfolding turn
turn-keeps field quoted c rest e = ground arith

-- Inside quotes, a text with its quotes doubled is read back.
scan-quoted :
    (field value rest : String)
    → peeks_quote rest ≡ false
    → scan field true true false (double_quotes value +++ String.◌∷◌ "\"" rest)
      ≡ scan (field +++ value) true false false rest
unfolding scan turn double_quotes
scan-quoted field String.[] rest next =
    rw (scan, turn, next) (ap (λ f. scan f true false false rest) (sym (append_nil field)))
scan-quoted field (String.◌∷◌ c value) rest next = elim (Bool-cases (code c == double_quote)) [
  | inl e ↦
      rw (double_quotes, e, quote_of c e, scan, turn)
        (scan-quoted (push_char field "\"") value rest next
          ∙ ap (λ f. scan f true false false rest) (push_char-append field value "\""))
  | inr e ↦
      rw
        (
          double_quotes,
          e,
          scan,
          turn-keeps field true c (double_quotes value +++ String.◌∷◌ "\"" rest) e,
        )
        (scan-quoted (push_char field c) value rest next
          ∙ ap (λ f. scan f true false false rest) (push_char-append field value c))
]

-- What a value that needs no quotes is like.
plain-value :
    (value : String)
    → needs_quoting value ≡ false
    → (has comma value ≡ false) × (has double_quote value ≡ false) × (trim value ≡ value)
unfolding needs_quoting
plain-value value h = (ground arith, ground arith, ground (arith, eq_iff (trim value) value))

-- A value in its encoding, at the start of a field.
scan-encode :
    (value rest : String)
    → peeks_quote rest ≡ false
    → scan String.[] false false false (encode value +++ rest)
      ≡ scan value (needs_quoting value) false false rest
unfolding encode scan is_empty
scan-encode value rest next = elim (Bool-cases (needs_quoting value)) [
  | inl e ↦
      rw (encode, e, append_assoc (double_quotes value) "\"" rest, scan, turn)
        (scan-quoted String.[] value rest next)
  | inr e ↦
      let (commas, quotes, trimmed) = plain-value value e in
      rw (encode, e) (scan-plain String.[] value rest commas quotes)
]

is_empty-false : (value : String) → value ≢ String.[] → is_empty value ≡ false
unfolding is_empty
is_empty-false String.[] filled = absurd (filled refl)
is_empty-false (String.◌∷◌ c value) filled = refl

-- The end of a field that holds a value.
push-kept :
    (value : String) (values : List String)
    → value ≢ String.[]
    → push value (needs_quoting value) values ≡ value ∷ values
unfolding push
push-kept value values filled = elim (Bool-cases (needs_quoting value)) [
  | inl e ↦ rw (e, filled_value) refl
  | inr e ↦ let (_, _, trimmed) = plain-value value e in rw (e, trimmed, filled_value) refl
]
  where
    filled_value : is_empty value ≡ false
    filled_value = is_empty-false value filled

-- The values of a list column are read back as they were written, whatever characters they are
-- made of, provided that none is empty.
pub split-join :
    (values : List String) → All (λ value. value ≢ String.[]) values → split (join values) ≡ values
unfolding split join join_with scan push trim is_empty turn
split-join [] all = refl
split-join (value ∷ []) (filled, all) =
    ap (λ text. scan String.[] false false false text) (sym (append_nil (encode value)))
    ∙ scan-encode value String.[] refl
    ∙ push-kept value [] filled
split-join (value ∷ next ∷ values) (filled, all) =
    scan-encode value (String.◌∷◌ "," (join (next ∷ values))) refl
    ∙ push-kept value (split (join (next ∷ values))) filled
    ∙ ap (λ rest. value ∷ rest) (split-join (next ∷ values) all)

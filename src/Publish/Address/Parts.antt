-- ===== src/Publish/Address/Parts.antt =====
-- The parts of an address that parse, and their texts (crates/stats/src/publish/address.rs).
use bestiario.Prelude.{
  Option, none, some, String, List, [], ◌∷◌, ◌≡◌, refl, sym, ap, ◌∙◌, subst, ◌==◌, Bool-cases, inl,
  inr, and_then, and_then-some, some-inj, str_eq, eq_iff, ◌&&◌,
}
use bestiario.Prelude.Join.{◌+++◌, join_with, append_nil}
use bestiario.Prelude.Map.{contains}
use bestiario.Prelude.Result.{Result, ok, ok_or, ok-inj, >>=-after}
use bestiario.Publish.Address.{
  Report, Window, Resolution, report_str, window_str, resolution_str, parse_report, parse_window,
  parse_resolution, find_by, all_reports, all_windows, all_resolutions, Bucket, bucket_text,
  parse_bucket, bucket_of, split_once, parse_year, new_month, fixed_digits, year_text, month_text,
  all_chars, char_count,
}
use bestiario.Publish.Address.Parse.{
  Scope, scope_instance, scope_network, parse_rest, parse_scope, rendered, is_lower_hex, networks,
  no_scope,
}
use bestiario.Publish.Address.Digits.{
  text-parse_year, text-parse_month, parse_year-bound, new_month-bound,
}
use bestiario.Publish.Address.Segments.{split_once-some}
use bestiario.Publish.Address.Valid.{IsScope, IsBucket}

pub find_by-some :
    {A : Type 0} (as_str : A → String) (items : List A) (text : String) (item : A)
    → find_by as_str items text ≡ some item
    → as_str item ≡ text
unfolding find_by
find_by-some as_str [] text item h = cc
find_by-some as_str (x ∷ items) text item h = elim (Bool-cases (str_eq (as_str x) text)) [
  | inl e ↦ ap as_str (sym (some-inj (rw e at h))) ∙ (eq_iff (as_str x) text).0 e
  | inr e ↦ find_by-some as_str items text item (rw e at h)
]

pub ok_or-ok :
    {E A : Type 0} (o : Option A) (fault : E) (a : A)
    → ◌≡◌ {A = Result E A} (ok_or o fault) (ok a)
    → o ≡ some a
ok_or-ok none fault a h = cc
ok_or-ok (some b) fault a h = ap some (ok-inj b a h)

pub report-text :
    (text : String) (report : Report) → parse_report text ≡ some report → report_str report ≡ text
unfolding parse_report
report-text text report h = find_by-some report_str all_reports text report h

pub window-text :
    (text : String) (window : Window) → parse_window text ≡ some window → window_str window ≡ text
unfolding parse_window
window-text text window h = find_by-some window_str all_windows text window h

pub resolution-text :
    (text : String) (resolution : Resolution)
    → parse_resolution text ≡ some resolution
    → resolution_str resolution ≡ text
unfolding parse_resolution
resolution-text text resolution h = find_by-some resolution_str all_resolutions text resolution h

pub bucket_of-text :
    (o : Option (String × String)) (text : String) (bucket : Bucket)
    → split_once 45 text ≡ o
    → bucket_of o text ≡ some bucket
    → (bucket_text bucket ≡ text) × IsBucket bucket
unfolding bucket_text
bucket_of-text none text bucket q h =
    let (year, e, f) = and_then-some (parse_year text) h in
    subst (λ b. (bucket_text b ≡ text) × IsBucket b) (some-inj f)
      (sym (text-parse_year text year e), parse_year-bound text year e)
bucket_of-text (some (years, months)) text bucket q h =
    let (year, e, f) = and_then-some (parse_year years) h in
    let (number, g, k) = and_then-some (fixed_digits months 2) f in
    let (month, m, r) = and_then-some (new_month number) k in
    let both : and_then (fixed_digits months 2) new_month ≡ some month =
      ap (λ o. and_then o new_month) g ∙ m in
    let (low, high) = new_month-bound number month m in
    let whole : years +++ "-" +++ months ≡ year_text year +++ "-" +++ month_text month =
      ap (λ y. y +++ "-" +++ months) (text-parse_year years year e)
      ∙ ap (λ m. year_text year +++ "-" +++ m) (text-parse_month months month both) in
    subst (λ b. (bucket_text b ≡ text) × IsBucket b) (some-inj r)
      (
        sym (split_once-some text years months q ∙ whole),
        (parse_year-bound years year e, low, high),
      )

pub parse_bucket-some :
    (text : String) (bucket : Bucket)
    → parse_bucket text ≡ some bucket
    → (bucket_text bucket ≡ text) × IsBucket bucket
unfolding parse_bucket
parse_bucket-some text bucket h = bucket_of-text (split_once 45 text) text bucket refl h

pub scope_instance-some :
    (value : String) (scope : Scope)
    → scope_instance value ≡ some scope
    → (IsScope (some scope)) × (rendered (some scope) ≡ ":i:" +++ value)
unfolding scope_instance
scope_instance-some value scope h =
    elim (Bool-cases (char_count value == 64 && all_chars is_lower_hex value)) [
      | inl e ↦
          subst (λ s. IsScope (some s) × (rendered (some s) ≡ ":i:" +++ value))
            (some-inj (rw e at h)) (rw e refl, refl)
      | inr e ↦ absurd (cc (rw e at h))
    ]

pub scope_network-some :
    (value : String) (scope : Scope)
    → scope_network value ≡ some scope
    → (IsScope (some scope)) × (rendered (some scope) ≡ ":n:" +++ value)
unfolding scope_network
scope_network-some value scope h = elim (Bool-cases (contains value networks)) [
  | inl e ↦
      subst (λ s. IsScope (some s) × (rendered (some s) ≡ ":n:" +++ value)) (some-inj (rw e at h))
        (rw e refl, refl)
  | inr e ↦ absurd (cc (rw e at h))
]

pub parse_scope-some :
    (kind value : String) (scope : Scope)
    → parse_scope kind value ≡ some scope
    → IsScope (some scope) × (rendered (some scope) ≡ ":" +++ kind +++ ":" +++ value)
unfolding parse_scope
parse_scope-some kind value scope h = elim (Bool-cases (str_eq kind "i")) [
  | inl e ↦
      let (valid, q) = scope_instance-some value scope (rw e at h) in
      (valid, q ∙ ap (λ k. ":" +++ k +++ ":" +++ value) (sym ((eq_iff kind "i").0 e)))
  | inr e ↦ elim (Bool-cases (str_eq kind "n")) [
    | inl f ↦
        let (valid, q) = scope_network-some value scope (rw (e, f) at h) in
        (valid, q ∙ ap (λ k. ":" +++ k +++ ":" +++ value) (sym ((eq_iff kind "n").0 f)))
    | inr f ↦ absurd (cc (rw (e, f) at h))
  ]
]

pub parse_rest-ok :
    (input : String) (rest : List String) (expected : String) (scope : Option Scope)
    → parse_rest input rest expected ≡ ok scope
    → IsScope scope × ((text : String) → join_with ":" (text ∷ rest) ≡ text +++ rendered scope)
unfolding parse_rest join_with
parse_rest-ok input [] expected scope h =
    subst (λ s. IsScope s × ((text : String) → text ≡ text +++ rendered s)) (ok-inj none scope h)
      (tt, λ text. sym (append_nil text))
parse_rest-ok input (kind ∷ []) expected scope h = cc
parse_rest-ok input (kind ∷ value ∷ []) expected scope h =
    >>=-after (ok_or (parse_scope kind value) (no_scope input (kind +++ ":" +++ value))) h
      λ found e f.
        let (valid, q) =
          parse_scope-some kind value found
            (ok_or-ok (parse_scope kind value) (no_scope input (kind +++ ":" +++ value)) found e) in
        subst
          (λ s.
            IsScope s
            × ((text : String) → text +++ ":" +++ kind +++ ":" +++ value ≡ text +++ rendered s))
          (ok-inj (some found) scope f) (valid, λ text. ap (λ t. text +++ t) (sym q))
parse_rest-ok input (kind ∷ value ∷ more ∷ rest) expected scope h = cc

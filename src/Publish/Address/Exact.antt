-- ===== src/Publish/Address/Exact.antt =====
-- Texts and addresses, both ways (crates/stats/src/publish/address.rs).
use bestiario.Prelude.{
  true, none, some, String, List, [], ◌∷◌, ◌≡◌, refl, sym, ap, ◌∙◌, subst, Bool-cases, inl, inr,
  and_then, and_then-some, some-inj, str_eq, eq_iff, ◌↔◌,
}
use bestiario.Prelude.Join.{◌+++◌, join_with}
use bestiario.Prelude.Text.{is_empty}
use bestiario.Prelude.Result.{ok, ok_or, ok-inj, >>=-after}
use bestiario.Publish.Address.{
  Resolution, window_str, resolution_str, parse_report, parse_window, parse_resolution, Bucket,
  Partition, fits, new_partition, bucket_text, parse_bucket, parse_year,
}
use bestiario.Publish.Address.Parse.{
  Address, index, window_of, series, parse, parse_segments, parse_window_address, parse_series,
  parse_index, parse_rest, split_on, address_text, rendered, no_bucket, no_report, no_resolution,
  no_window, no_year,
}
use bestiario.Publish.Address.Digits.{text-parse_year, parse_year-bound}
use bestiario.Publish.Address.Segments.{colon, join_with-split_on}
use bestiario.Publish.Address.RoundTrip.{parse-address_text}
use bestiario.Publish.Address.Valid.{IsBucket, IsAddress}
use bestiario.Publish.Address.Parts.{
  ok_or-ok, report-text, window-text, resolution-text, parse_bucket-some, parse_rest-ok,
}

-- What an address that parses says of its segments.
abbrev Spells : List String → Address → Type 0
Spells segments address = (address_text address ≡ join_with ":" segments) × IsAddress address

index-Spells :
    (input text : String) (address : Address)
    → parse_index input text ≡ ok address
    → Spells ("index" ∷ text ∷ []) address
unfolding parse_index join_with address_text
index-Spells input text address h =
    >>=-after (ok_or (parse_year text) (no_year input text)) h λ year e f.
      let parsed = ok_or-ok (parse_year text) (no_year input text) year e in
      subst (Spells ("index" ∷ text ∷ [])) (ok-inj (index (some year)) address f) (
        ap (λ t. "index:" +++ t) (sym (text-parse_year text year parsed)),
        parse_year-bound text year parsed,
      )

window-Spells :
    (input report_text window_text : String) (rest : List String) (address : Address)
    → parse_window_address input report_text window_text rest ≡ ok address
    → Spells (report_text ∷ window_text ∷ rest) address
unfolding parse_window_address join_with address_text
window-Spells input r w rest address h =
    >>=-after (ok_or (parse_report r) (no_report input r)) h λ report e h2.
      >>=-after (ok_or (parse_window w) (no_window input w)) h2 λ window f h3.
        >>=-after (parse_rest input rest "2 or 4") h3 λ scope g h4.
          let (valid, tail) = parse_rest-ok input rest "2 or 4" scope g in
          let report_is =
            report-text r report (ok_or-ok (parse_report r) (no_report input r) report e) in
          let window_is =
            window-text w window (ok_or-ok (parse_window w) (no_window input w) window f) in
          subst (Spells (r ∷ w ∷ rest)) (ok-inj (window_of report window scope) address h4) (
            ap (λ t. t +++ ":" +++ window_str window +++ rendered scope) report_is
                ∙ ap (λ t. r +++ ":" +++ t +++ rendered scope) window_is
                ∙ ap (λ t. r +++ ":" +++ t) (sym (tail w)),
            valid,
          )

partition-fits :
    (resolution : Resolution) (bucket : Bucket) (partition : Partition)
    → new_partition resolution bucket ≡ some partition
    → (partition.resolution ≡ resolution)
      × (partition.bucket ≡ bucket)
      × (fits partition.bucket partition.resolution ≡ true)
unfolding new_partition
partition-fits resolution bucket partition h = elim (Bool-cases (fits bucket resolution)) [
  | inl e ↦
      subst
        (λ p.
          (p.resolution ≡ resolution) × (p.bucket ≡ bucket) × (fits p.bucket p.resolution ≡ true))
        (some-inj (rw e at h)) (refl, refl, e)
  | inr e ↦ absurd (cc (rw e at h))
]

series-Spells :
    (input r s b : String) (rest : List String) (address : Address)
    → parse_series input r s b rest ≡ ok address
    → Spells ("series" ∷ r ∷ s ∷ b ∷ rest) address
unfolding parse_series join_with address_text
series-Spells input r s b rest address h =
    >>=-after (ok_or (parse_report r) (no_report input r)) h λ report e h2.
      >>=-after (ok_or (parse_resolution s) (no_resolution input s)) h2 λ resolution f h3.
        >>=-after
          (ok_or (and_then (parse_bucket b) (new_partition resolution))
            (no_bucket input b (resolution_str resolution)))
          h3
          λ partition g h4. >>=-after (parse_rest input rest "4 or 6") h4 λ scope k h5.
            let (valid, tail) = parse_rest-ok input rest "4 or 6" scope k in
            let report_is =
              report-text r report (ok_or-ok (parse_report r) (no_report input r) report e) in
            let resolution_is =
              resolution-text s resolution
                (ok_or-ok (parse_resolution s) (no_resolution input s) resolution f) in
            let (bucket, p, q) = and_then-some (parse_bucket b) (
              ok_or-ok (and_then (parse_bucket b) (new_partition resolution))
                (no_bucket input b (resolution_str resolution)) partition g) in
            let (same_resolution, same_bucket, fitting) =
              partition-fits resolution bucket partition q in
            let (bucket_is, bucket_valid) = parse_bucket-some b bucket p in
            subst (Spells ("series" ∷ r ∷ s ∷ b ∷ rest))
              (ok-inj (series report partition scope) address h5)
              (
                ap
                      (λ t.
                        "series:"
                        +++ t
                        +++ ":"
                        +++ resolution_str partition.resolution
                        +++ ":"
                        +++ bucket_text partition.bucket
                        +++ rendered scope)
                      report_is
                    ∙ ap
                        (λ t.
                          "series:"
                          +++ r
                          +++ ":"
                          +++ t
                          +++ ":"
                          +++ bucket_text partition.bucket
                          +++ rendered scope)
                        (ap resolution_str same_resolution ∙ resolution_is)
                    ∙ ap (λ t. "series:" +++ r +++ ":" +++ s +++ ":" +++ t +++ rendered scope)
                        (ap bucket_text same_bucket ∙ bucket_is)
                    ∙ ap (λ t. "series:" +++ r +++ ":" +++ s +++ ":" +++ t) (sym (tail b)),
                (subst IsBucket (sym same_bucket) bucket_valid, fitting, valid),
              )

segments-Spells :
    (input : String) (segments : List String) (address : Address)
    → parse_segments input segments ≡ ok address
    → Spells segments address
unfolding parse_segments join_with address_text
segments-Spells input [] address h = cc
segments-Spells input (only ∷ []) address h = elim (Bool-cases (str_eq only "index")) [
  | inl e ↦
      subst (Spells (only ∷ [])) (ok-inj (index none) address (rw e at h))
        (sym ((eq_iff only "index").0 e), tt)
  | inr e ↦ absurd (cc (rw e at h))
]
segments-Spells input (first ∷ second ∷ []) address h = elim (Bool-cases (str_eq first "index")) [
  | inl e ↦
      subst (λ t. Spells (t ∷ second ∷ []) address) (sym ((eq_iff first "index").0 e))
        (index-Spells input second address (rw e at h))
  | inr e ↦ window-Spells input first second [] address (rw e at h)
]
segments-Spells input (first ∷ second ∷ third ∷ []) address h =
    window-Spells input first second (third ∷ []) address h
segments-Spells input (first ∷ second ∷ third ∷ fourth ∷ rest) address h =
    elim (Bool-cases (str_eq first "series")) [
      | inl e ↦
          subst (λ t. Spells (t ∷ second ∷ third ∷ fourth ∷ rest) address)
            (sym ((eq_iff first "series").0 e))
            (series-Spells input second third fourth rest address (rw e at h))
      | inr e ↦ window-Spells input first second (third ∷ fourth ∷ rest) address (rw e at h)
    ]

-- A text parses as an address exactly where it is the text of that address and the address is one
-- that the constructors build: years of four digits, months from 1 to 12, a bucket that fits its
-- resolution, and a scope of 64 lowercase hex characters or a known network.
pub parse_exact :
    (text : String) (address : Address)
    → (parse text ≡ ok address) ↔ (IsAddress address × (address_text address ≡ text))
unfolding parse
parse_exact text address = (
  λ h. elim (Bool-cases (is_empty text)) [
    | inl e ↦ absurd (cc (rw e at h))
    | inr e ↦
        let (spelled, valid) = segments-Spells text (split_on colon text) address (rw e at h) in
        (valid, spelled ∙ join_with-split_on text)
  ],
  λ (valid, q). subst (λ t. parse t ≡ ok address) q (parse-address_text address valid),
)

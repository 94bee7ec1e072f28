-- ===== src/Publish/Address/RoundTrip.antt =====
-- The text of an address, parsed (crates/stats/src/publish/address.rs).
use bestiario.Prelude.{
  true, false, Option, none, some, String, List, [], ◌∷◌, ◌≡◌, refl, ap, ◌∙◌, arith, ◌==◌,
  Bool-cases, inl, inr, ◌&&◌,
}
use bestiario.Prelude.Join.{has, ◌+++◌, append_nil}
use bestiario.Prelude.Map.{contains}
use bestiario.Prelude.Text.{is_empty}
use bestiario.Prelude.Result.{ok}
use bestiario.Publish.Address.{
  Report, summary, orders, volume, market, disputes, dev_fees, instances, compare, Window,
  report_str, window_str, resolution_str, Partition, fits, new_partition, bucket_text, char_count,
  year_text, all_chars,
}
use bestiario.Publish.Address.Parse.{
  Scope, of_instance, of_network, scope_instance, scope_network, Address, index, window_of, series,
  parse, parse_segments, parse_window_address, parse_series, parse_index, parse_rest, parse_scope,
  split_on, address_text, rendered, is_lower_hex, networks,
}
use bestiario.Publish.Address.Digits.{parse_year-text}
use bestiario.Publish.Address.Segments.{
  colon, split_on-append, split_on-only, year-plain, bucket-plain,
}
use bestiario.Publish.Address.Valid.{
  IsScope, IsBucket, IsAddress, report-plain, window-plain, resolution-plain,
}
use bestiario.Publish.Address.Words.{parse_bucket-text, hex-plain, network-plain}

-- The segments of a scope.
abbrev scope_segments : Option Scope → List String
scope_segments none = []
scope_segments (some (of_instance pubkey)) = "i" ∷ pubkey ∷ []
scope_segments (some (of_network network)) = "n" ∷ network ∷ []

-- What the two constructors of a scope ask for.
instance-hex :
    (pubkey : String) → scope_instance pubkey ≡ some (of_instance pubkey) → has colon pubkey ≡ false
unfolding scope_instance
instance-hex pubkey h =
    elim (Bool-cases (char_count pubkey == 64 && all_chars is_lower_hex pubkey)) [
      | inl e ↦ hex-plain pubkey (ground arith)
      | inr e ↦ absurd (cc (rw e at h))
    ]

network-known :
    (network : String)
    → scope_network network ≡ some (of_network network)
    → has colon network ≡ false
unfolding scope_network
network-known network h = elim (Bool-cases (contains network networks)) [
  | inl e ↦ network-plain network e
  | inr e ↦ absurd (cc (rw e at h))
]

split-scope :
    (text : String) (scope : Option Scope)
    → has colon text ≡ false
    → IsScope scope
    → split_on colon (text +++ rendered scope) ≡ text ∷ scope_segments scope
unfolding has
split-scope text none h valid = ap (split_on colon) (append_nil text) ∙ split_on-only text h
split-scope text (some (of_instance pubkey)) h valid =
    split_on-append text ("i:" +++ pubkey) h
    ∙ ap (λ rest. text ∷ rest)
        (split_on-append "i" pubkey refl
          ∙ ap (λ rest. "i" ∷ rest) (split_on-only pubkey (instance-hex pubkey valid)))
split-scope text (some (of_network network)) h valid =
    split_on-append text ("n:" +++ network) h
    ∙ ap (λ rest. text ∷ rest)
        (split_on-append "n" network refl
          ∙ ap (λ rest. "n" ∷ rest) (split_on-only network (network-known network valid)))

parse_rest-segments :
    (input expected : String) (scope : Option Scope)
    → IsScope scope
    → parse_rest input (scope_segments scope) expected ≡ ok scope
unfolding parse_rest parse_scope
parse_rest-segments input expected none valid = refl
parse_rest-segments input expected (some (of_instance pubkey)) valid = rw valid refl
parse_rest-segments input expected (some (of_network network)) valid = rw valid refl

module _ (input : String) (report : Report) (scope : Option Scope) (valid : IsScope scope) where
  window_address :
      (window : Window)
      → parse_window_address input (report_str report) (window_str window) (scope_segments scope)
        ≡ ok (window_of report window scope)
  unfolding parse_window_address
  window_address window =
      let (_, r, _, _) = report-plain report in
      let (_, w) = window-plain window in
      rw (r, w, parse_rest-segments input "2 or 4" scope valid) refl

  window_address-segments :
      (window : Window)
      → parse_segments input (report_str report ∷ window_str window ∷ scope_segments scope)
        ≡ ok (window_of report window scope)
  unfolding parse_segments
  window_address-segments window = opened scope (window_address window)
    where
      opened :
          (scope : Option Scope)
          → parse_window_address input
              (report_str report)
              (window_str window)
              (scope_segments scope)
            ≡ ok (window_of report window scope)
          → parse_segments input (report_str report ∷ window_str window ∷ scope_segments scope)
            ≡ ok (window_of report window scope)
      opened none h = let (_, _, e, _) = report-plain report in rw e h
      opened (some (of_instance pubkey)) h = let (_, _, _, e) = report-plain report in rw e h
      opened (some (of_network network)) h = let (_, _, _, e) = report-plain report in rw e h

  series-segments :
      (partition : Partition)
      → IsBucket partition.bucket
      → fits partition.bucket partition.resolution ≡ true
      → parse_series input
          (report_str report)
          (resolution_str partition.resolution)
          (bucket_text partition.bucket)
          (scope_segments scope)
        ≡ ok (series report partition scope)
  unfolding parse_series new_partition
  series-segments partition b f =
      let (_, r, _, _) = report-plain report in
      let (_, s) = resolution-plain partition.resolution in
      rw
        (
          r,
          s,
          parse_bucket-text partition.bucket b,
          f,
          parse_rest-segments input "4 or 6" scope valid,
        )
        refl

filled-report : (report : Report) (rest : String) → is_empty (report_str report +++ rest) ≡ false
unfolding is_empty
filled-report summary rest = refl
filled-report orders rest = refl
filled-report volume rest = refl
filled-report market rest = refl
filled-report disputes rest = refl
filled-report dev_fees rest = refl
filled-report instances rest = refl
filled-report compare rest = refl

parse-segments :
    (text : String) (segments : List String) (address : Address)
    → is_empty text ≡ false
    → split_on colon text ≡ segments
    → parse_segments text segments ≡ ok address
    → parse text ≡ ok address
unfolding parse
parse-segments text segments address e q h = rw e (ap (parse_segments text) q ∙ h)

pub parse-address_text :
    (address : Address) → IsAddress address → parse (address_text address) ≡ ok address
unfolding address_text parse_segments parse_index has is_empty
parse-address_text (index none) valid =
    parse-segments "index" ("index" ∷ []) (index none) refl (split_on-only "index" refl) refl
parse-address_text (index (some year)) valid =
    parse-segments ("index:" +++ year_text year) ("index" ∷ year_text year ∷ []) (index (some year))
      refl
      (split_on-append "index" (year_text year) refl
        ∙ ap (λ rest. "index" ∷ rest) (split_on-only (year_text year) (year-plain year).0))
      (rw (parse_year-text year valid) refl)
parse-address_text (window_of report window scope) valid =
    parse-segments (address_text (window_of report window scope))
      (report_str report ∷ window_str window ∷ scope_segments scope) (window_of report window scope)
      (filled-report report (":" +++ window_str window +++ rendered scope))
      (split_on-append (report_str report) (window_str window +++ rendered scope)
          (report-plain report).0
        ∙ ap (λ rest. report_str report ∷ rest)
            (split-scope (window_str window) scope (window-plain window).0 valid))
      (window_address-segments (address_text (window_of report window scope)) report scope valid
        window)
parse-address_text (series report partition scope) (b, f, valid) =
    let tail : String = bucket_text partition.bucket +++ rendered scope in
    parse-segments (address_text (series report partition scope))
      ("series"
        ∷ report_str report
        ∷ resolution_str partition.resolution
        ∷ bucket_text partition.bucket
        ∷ scope_segments scope)
      (series report partition scope) refl
      (split_on-append "series"
          (report_str report +++ ":" +++ resolution_str partition.resolution +++ ":" +++ tail) refl
        ∙ ap (λ rest. "series" ∷ rest)
            (split_on-append (report_str report)
                (resolution_str partition.resolution +++ ":" +++ tail) (report-plain report).0
              ∙ ap (λ rest. report_str report ∷ rest)
                  (split_on-append (resolution_str partition.resolution) tail
                      (resolution-plain partition.resolution).0
                    ∙ ap (λ rest. resolution_str partition.resolution ∷ rest)
                        (split-scope (bucket_text partition.bucket) scope
                          (bucket-plain partition.bucket) valid))))
      (series-segments (address_text (series report partition scope)) report scope valid partition b
        f)

-- ===== src/Publish/Address/Valid.antt =====
-- Which addresses the constructors build, and their words (crates/stats/src/publish/address.rs).
use bestiario.Prelude.{◌≤◌, true, false, Option, none, some, ◌≡◌, refl, str_eq}
use bestiario.Prelude.Join.{has}
use bestiario.Publish.Address
use bestiario.Publish.Address.{
  Report, summary, orders, volume, market, disputes, dev_fees, instances, compare, Window, hours24,
  days7, days30, days90, Resolution, daily, weekly, monthly, report_str, window_str, resolution_str,
  parse_report, parse_window, parse_resolution, Bucket, of_month, of_year, Partition, fits,
  new_partition, bucket_text, parse_bucket, char_count, year_text, month_text, padded, fixed_digits,
  is_digit, all_chars,
}
use bestiario.Publish.Address.Parse.{
  Scope, of_instance, of_network, scope_instance, scope_network, Address, index, window_of, series,
}
use bestiario.Publish.Address.Segments.{colon}

-- What the constructors of the source let through.
abbrev pub IsScope : Option Scope → Type 0
IsScope none = Unit
IsScope (some (of_instance pubkey)) = scope_instance pubkey ≡ some (of_instance pubkey)
IsScope (some (of_network network)) = scope_network network ≡ some (of_network network)

abbrev pub IsBucket : Bucket → Type 0
IsBucket (of_month year month) = (year ≤ 9999) × (1 ≤ month) × (month ≤ 12)
IsBucket (of_year year) = year ≤ 9999

abbrev pub IsAddress : Address → Type 0
IsAddress (index none) = Unit
IsAddress (index (some year)) = year ≤ 9999
IsAddress (window_of report window scope) = IsScope scope
IsAddress (series report partition scope) =
    IsBucket partition.bucket × (fits partition.bucket partition.resolution ≡ true) × IsScope scope

-- No colon stands in the words of an address, and no word of a report opens another shape.
pub report-plain :
    (report : Report)
    → (has colon (report_str report) ≡ false)
      × (parse_report (report_str report) ≡ some report)
      × (str_eq (report_str report) "index" ≡ false)
      × (str_eq (report_str report) "series" ≡ false)
unfolding has parse_report
report-plain summary = (refl, refl, refl, refl)
report-plain orders = (refl, refl, refl, refl)
report-plain volume = (refl, refl, refl, refl)
report-plain market = (refl, refl, refl, refl)
report-plain disputes = (refl, refl, refl, refl)
report-plain dev_fees = (refl, refl, refl, refl)
report-plain instances = (refl, refl, refl, refl)
report-plain compare = (refl, refl, refl, refl)

pub window-plain :
    (window : Window)
    → (has colon (window_str window) ≡ false) × (parse_window (window_str window) ≡ some window)
unfolding has parse_window
window-plain hours24 = (refl, refl)
window-plain days7 = (refl, refl)
window-plain days30 = (refl, refl)
window-plain days90 = (refl, refl)
window-plain Address.all = (refl, refl)

pub resolution-plain :
    (resolution : Resolution)
    → (has colon (resolution_str resolution) ≡ false)
      × (parse_resolution (resolution_str resolution) ≡ some resolution)
unfolding has parse_resolution
resolution-plain daily = (refl, refl)
resolution-plain weekly = (refl, refl)
resolution-plain monthly = (refl, refl)

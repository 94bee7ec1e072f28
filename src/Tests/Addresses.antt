-- ===== src/Tests/Addresses.antt =====
-- Addresses of documents, at concrete texts.
use bestiario.Prelude.{◌≡◌, ◌↔◌, refl, some}
use bestiario.Prelude.Result.{ok}
use bestiario.Prelude.Text.{digit}
use bestiario.Publish.Address.{orders, daily, of_month}
use bestiario.Publish.Address.Parse.{Address, series, of_network, parse, address_text}
use bestiario.Publish.Address.Valid.{IsAddress}
use bestiario.Publish.Address.Exact.{parse_exact}

abbrev march : Address
march =
    series orders (record { resolution = daily; bucket = of_month 2024 3 })
      (some (of_network "signet"))

parse_exact_example :
    (parse "series:orders:daily:2024-03:n:signet" ≡ ok march)
    ↔ (IsAddress march × (address_text march ≡ "series:orders:daily:2024-03:n:signet"))
parse_exact_example = parse_exact "series:orders:daily:2024-03:n:signet" march

march-text : address_text march ≡ "series:orders:daily:2024-03:n:signet"
unfolding address_text digit
march-text = refl

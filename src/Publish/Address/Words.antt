-- ===== src/Publish/Address/Words.antt =====
-- Buckets and scopes of an address as segments (crates/stats/src/publish/address.rs).
use bestiario.Prelude.{
  true, false, some, String, ◌≡◌, refl, sym, arith, subst, ◌==◌, inl, inr, and_then-some,
}
use bestiario.Prelude.Join.{has}
use bestiario.Prelude.Map.{contains, contains-In}
use bestiario.Prelude.Lists.{In}
use Prim.Native.Char.{code}
use bestiario.Publish.Address.{
  Bucket, of_month, of_year, bucket_text, parse_bucket, year_text, month_text, fixed_digits,
  all_chars,
}
use bestiario.Publish.Address.Parse.{is_lower_hex, networks}
use bestiario.Publish.Address.Digits.{parse_year-text, parse_month-text}
use bestiario.Publish.Address.Segments.{colon, split_once-append, split_once-none, year-plain}
use bestiario.Publish.Address.Valid.{IsBucket}

pub parse_bucket-text :
    (bucket : Bucket) → IsBucket bucket → parse_bucket (bucket_text bucket) ≡ some bucket
unfolding parse_bucket bucket_text
parse_bucket-text (of_month year month) (y, low, high) =
    let (n, e, f) =
      and_then-some (fixed_digits (month_text month) 2) (parse_month-text month low high) in
    rw
      (
        split_once-append (year_text year) (month_text month) (year-plain year).1,
        parse_year-text year y,
        e,
        f,
      )
      refl
parse_bucket-text (of_year year) y =
    rw (split_once-none (year_text year) (year-plain year).1, parse_year-text year y) refl

-- No colon stands in the value of a scope.
pub hex-plain : (pubkey : String) → all_chars is_lower_hex pubkey ≡ true → has colon pubkey ≡ false
unfolding all_chars has
hex-plain String.[] h = refl
hex-plain (String.◌∷◌ c pubkey) h =
    let rest = hex-plain pubkey (ground arith) in
    let here : (code c == colon) ≡ false = ground arith in rw (here, rest) refl

pub network-plain :
    (network : String) → contains network networks ≡ true → has colon network ≡ false
unfolding contains has
network-plain network h = go (contains-In network networks h)
  where
    is : (word : String) → has colon word ≡ false → network ≡ word → has colon network ≡ false
    is word e q = subst (λ text. has colon text ≡ false) (sym q) e

    go : In network networks → has colon network ≡ false
    go (inl q) = is "mainnet" refl q
    go (inr (inl q)) = is "testnet" refl q
    go (inr (inr (inl q))) = is "signet" refl q
    go (inr (inr (inr (inl q)))) = is "regtest" refl q
    go (inr (inr (inr (inr i)))) = absurd i

-- ===== src/Ingest/Parse/Order/Valid.antt =====
-- What may be asked of the fields of an order that parses (src/ingest/parse/order.rs).
use bestiario.Prelude.{
  ℕ, String, ◌≡◌, refl, Option, none, some, List, [], ◌∷◌, true, false, Bool-cases, inl, inr, arith,
  subst, if◌then◌else◌,
}
use bestiario.Prelude.Int.{ℤ, pos, ◌≤ℤ◌}
use bestiario.Prelude.Float.{F64, is_finite, lt_f64, zero_f64}
use bestiario.Prelude.Result.{ok, err, ok_or, >>=-succeeds, >>=-after, ok-inj}
use bestiario.Prelude.Text.{parse_i64}
use bestiario.Ingest.Event.{Event, Sdk}
use bestiario.Ingest.Parse.Tags.{
  Parse, number, required, optional, optional_network, uuid, tag_values, missing_tag,
  expect_discriminator, timestamp, non_negative, non_negative_f64, finite, expect_kind,
  first_timestamp, published_at, inverted_range,
}
use bestiario.Ingest.Parse.Order.{
  OrderVersion, FiatAmount, fixed, range, kind_order, discriminator, parse_direction, parse_status,
  parse_payment_methods, fiat_amount, fiat_of, parse_fiat_amount, parse_order,
}

-- A finite number that is not below zero.
abbrev pub IsAmount : F64 → Type 0
IsAmount x = (is_finite x ≡ true) × (lt_f64 x zero_f64 ≡ false)

abbrev pub IsFiat : FiatAmount → Type 0
IsFiat (fixed a) = IsAmount a
IsFiat (range min max) = IsAmount min × IsAmount max × (lt_f64 max min ≡ false)

abbrev pub IsTime : Option ℤ → Type 0
IsTime none = Unit
IsTime (some t) = pos 0 ≤ℤ t

pub record IsValidOrder (event : Event) (v : OrderVersion) : Type 0 where
  pub kind : event.kind ≡ kind_order
  pub event_id : v.event_id ≡ event.id
  pub pubkey : v.pubkey ≡ event.pubkey
  pub amount : pos 0 ≤ℤ v.amount_sats
  pub expiry : pos 0 ≤ℤ v.expires_at
  pub published : IsTime v.order_created_at
  pub fiat : IsFiat v.fiat
  pub premium : is_finite v.premium ≡ true

timestamp-bound :
    (tag value expected : String) (t : ℤ) → timestamp tag value expected ≡ ok t → pos 0 ≤ℤ t
unfolding timestamp non_negative
timestamp-bound tag value expected t h =
    let (p, e, k) = >>=-succeeds (number tag value expected (parse_i64 value)) h in checked p k
  where
    checked : (p : ℤ) → non_negative tag p expected ≡ ok t → pos 0 ≤ℤ t
    checked p k = ground arith

module _ (sdk : Sdk) where
  finite-bound :
      (tag value expected : String) (x : F64)
      → finite sdk tag value expected ≡ ok x
      → is_finite x ≡ true
  unfolding finite
  finite-bound tag value expected x h =
      let (p, e, k) = >>=-succeeds (number tag value expected (sdk.parse_f64 value)) h in
      ground arith

  fiat_amount-IsAmount :
      (value expected : String) (x : F64) → fiat_amount sdk value expected ≡ ok x → IsAmount x
  unfolding fiat_amount non_negative_f64
  fiat_amount-IsAmount value expected x h =
      let (p, e, k) = >>=-succeeds (finite sdk "fa" value expected) h in
      kept p (finite-bound "fa" value expected p e) k
    where
      kept :
          (p : F64) → is_finite p ≡ true → non_negative_f64 sdk "fa" p expected ≡ ok x → IsAmount x
      kept p f k = elim (Bool-cases (lt_f64 p zero_f64)) [
        | inl t ↦ let k' = rw t at k in absurd (cc k')
        | inr t ↦ let k' = rw t at k in let q : p ≡ x = cc k' in rw (← q) (f, t)
      ]

  fiat_of-IsFiat : (values : List String) (f : FiatAmount) → fiat_of sdk values ≡ ok f → IsFiat f
  unfolding fiat_of
  fiat_of-IsFiat [] f h = absurd (cc h)
  fiat_of-IsFiat (a ∷ []) f h =
      let (x, e, k) = >>=-succeeds (fiat_amount sdk a "a fiat amount") h in
      let q : fixed x ≡ f = cc k in rw (← q) (fiat_amount-IsAmount a "a fiat amount" x e)
  fiat_of-IsFiat (a ∷ b ∷ []) f h =
      let (x, e, k) = >>=-succeeds (fiat_amount sdk a "the minimum of a range") h in
      let (y, e', k') = >>=-succeeds (fiat_amount sdk b "the maximum of a range") k in
      ordered x y (fiat_amount-IsAmount a "the minimum of a range" x e)
        (fiat_amount-IsAmount b "the maximum of a range" y e') k'
    where
      ordered :
          (x y : F64)
          → IsAmount x
          → IsAmount y
          → (if lt_f64 y x then err (inverted_range "fa" x y) else ok (range x y)) ≡ ok f
          → IsFiat f
      ordered x y i j k = elim (Bool-cases (lt_f64 y x)) [
        | inl t ↦ let k' = rw t at k in absurd (cc k')
        | inr t ↦ let k' = rw t at k in let q : range x y ≡ f = cc k' in rw (← q) (i, j, t)
      ]
  fiat_of-IsFiat (a ∷ b ∷ c ∷ rest) f h = absurd (cc h)

  parse_fiat_amount-IsFiat :
      (event : Event) (f : FiatAmount) → parse_fiat_amount sdk event ≡ ok f → IsFiat f
  unfolding parse_fiat_amount
  parse_fiat_amount-IsFiat event f h =
      let (found, e, k) = >>=-succeeds (tag_values event "fa") h in
      let (values, e', k') = >>=-succeeds (ok_or found (missing_tag "fa")) k in
      fiat_of-IsFiat values f k'

first_timestamp-IsTime :
    (tag : String) (found : Option String) (next : Parse (Option ℤ)) (t : Option ℤ)
    → ((t : Option ℤ) → next ≡ ok t → IsTime t)
    → first_timestamp tag found next ≡ ok t
    → IsTime t
first_timestamp-IsTime tag none next t later h = later t h
first_timestamp-IsTime tag (some value) next t later h =
    let (x, e, k) = >>=-succeeds (timestamp tag value "a unix timestamp") h in
    let q : some x ≡ t = cc k in rw (← q) (timestamp-bound tag value "a unix timestamp" x e)

published_at-IsTime : (event : Event) (t : Option ℤ) → published_at event ≡ ok t → IsTime t
unfolding published_at
published_at-IsTime event t h =
    let (found, e, k) = >>=-succeeds (optional event "published_at") h in
    first_timestamp-IsTime "published_at" found _ t
      (λ t' h'.
        let (older, e', k') = >>=-succeeds (optional event "created_at") h' in
        first_timestamp-IsTime "created_at" older (ok none) t' (λ t'' q. absent t'' q) k')
      k
  where
    absent : (t : Option ℤ) → ◌≡◌ {A = Parse (Option ℤ)} (ok none) (ok t) → IsTime t
    absent none q = tt
    absent (some x) q = absurd (cc q)

expect_kind-eq :
    (event : Event) (kind : ℕ) (u : Unit {0}) → expect_kind event kind ≡ ok u → event.kind ≡ kind
unfolding expect_kind
expect_kind-eq event kind u h = ground arith

-- An order that parses comes from an event of kind 38383, with the id and the public key of that
-- event; its amount in sats, its expiry and its publication time are not negative; its fiat
-- amount, or both ends of its fiat range, are finite and not below zero, and the range is not
-- inverted; its premium is finite.
pub parse_order-IsValidOrder :
    (sdk : Sdk) (event : Event) (v : OrderVersion)
    → parse_order sdk event ≡ ok v
    → IsValidOrder event v
unfolding parse_order
parse_order-IsValidOrder sdk event v h0 = >>=-after (expect_kind event kind_order) h0 λ u0 e0 h1.
    >>=-after (expect_discriminator event discriminator) h1 λ u1 e1 h2.
      >>=-after (required event "d") h2 λ d e2 h3. >>=-after (uuid sdk "d" d) h3 λ order_id e3 h4.
        >>=-after (required event "k") h4 λ k e4 h5.
          >>=-after (parse_direction k) h5 λ direction e5 h6.
            >>=-after (required event "s") h6 λ s e6 h7.
              >>=-after (parse_status s) h7 λ status e7 h8.
                >>=-after (required event "f") h8 λ fiat_code e8 h9.
                  >>=-after (required event "amt") h9 λ amt e9 h10.
                    >>=-after (timestamp "amt" amt "an amount in sats") h10 λ sats e10 h11.
                      >>=-after (parse_fiat_amount sdk event) h11 λ fiat e11 h12.
                        >>=-after (parse_payment_methods event) h12 λ methods e12 h13.
                          >>=-after (required event "premium") h13 λ p e13 h14.
                            >>=-after (finite sdk "premium" p "a percentage") h14 λ premium e14 h15.
                              >>=-after (optional_network event) h15 λ network e15 h16.
                                >>=-after (required event "expires_at") h16 λ e e16 h17.
                                  >>=-after (timestamp "expires_at" e "a unix timestamp") h17
                                    λ expires e17 h18.
                                      >>=-after (published_at event) h18 λ published e18 h19.
                                        subst (IsValidOrder event) (ok-inj _ v h19) (record {
                                          kind = expect_kind-eq event kind_order u0 e0;
                                          event_id = refl;
                                          pubkey = refl;
                                          amount =
                                              timestamp-bound "amt" amt "an amount in sats" sats
                                                e10;
                                          expiry =
                                              timestamp-bound "expires_at" e "a unix timestamp"
                                                expires e17;
                                          published = published_at-IsTime event published e18;
                                          fiat = parse_fiat_amount-IsFiat sdk event fiat e11;
                                          premium =
                                              finite-bound sdk "premium" p "a percentage" premium
                                                e14;
                                        })

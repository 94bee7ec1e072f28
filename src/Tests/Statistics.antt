-- ===== src/Tests/Statistics.antt =====
-- Orders counted by buckets, and documents against the limits of relays.
use bestiario.Prelude.{◌≡◌, ◌↔◌, ◌⊎◌, ◌<◌, refl, some, none, [], ◌∷◌, arith, false}
use bestiario.Prelude.Int.{pos}
use bestiario.Prelude.Float.{zero_f64}
use bestiario.Prelude.Lists.{In}
use bestiario.Stats.Window.{Window, Buckets}
use bestiario.Stats.Activity.{Order, success, buy, over}
use bestiario.Stats.Activity.Sums.{sum_over, over-tiles}
use bestiario.Publish.Address.Parse.{index}
use bestiario.Publish.Size.{Measured, Limits, ceiling_of}
use bestiario.Publish.Size
use bestiario.Publish.Size.Least.{SomeRefuses, over_exact}

abbrev pub completed_order : Order
completed_order = record {
  order_id = "order-1";
  pubkey = "ab";
  instance_name = "node";
  created_at = pos 15;
  status = success;
  direction = buy;
  fiat_code = "ARS";
  payment_methods = "cash" ∷ [];
  amount_sats = pos 7851;
  fiat_amount = none;
  premium = zero_f64;
  is_market_price = false;
  fiat_range = none;
  pending_at = some (pos 15);
  origin = record { fiat_code = "ARS"; payment_methods = "cash" ∷ []; direction = buy };
  taken_at = some (pos 16);
  success_at = some (pos 25);
  canceled_at = none;
  expires_at = none;
}

abbrev decades : Buckets
decades =
    ("first", record { from = pos 10; until = pos 20 })
    ∷ ("second", record { from = pos 20; until = pos 30 })
    ∷ []

abbrev pub thirty : Window
thirty = record { from = pos 10; until = pos 30 }

over-tiles_example :
    (sum_over (λ c. c.created) (completed_order ∷ []) decades
      ≡ (over (completed_order ∷ []) thirty).created)
    × (sum_over (λ c. c.completed) (completed_order ∷ []) decades
        ≡ (over (completed_order ∷ []) thirty).completed)
    × (sum_over (λ c. c.canceled) (completed_order ∷ []) decades
        ≡ (over (completed_order ∷ []) thirty).canceled)
over-tiles_example =
    over-tiles (completed_order ∷ []) (pos 10) (pos 30) decades
      (refl, omega arith, (refl, omega arith, refl))

abbrev big : Measured
big = record { address = index none; bytes = 40000; hash = none }

abbrev small_relay : Limits
small_relay = record { relay = "wss://relay.mostro.network"; max_content_length = some 32768 }

over_exact_example :
    In big (Size.over (big ∷ []) (ceiling_of 65536 (small_relay ∷ [])))
    ↔ (In big (big ∷ []) × ((65536 < big.bytes) ⊎ SomeRefuses big.bytes (small_relay ∷ [])))
over_exact_example = over_exact 65536 (small_relay ∷ []) (big ∷ []) big

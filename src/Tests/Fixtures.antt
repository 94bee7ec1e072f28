-- ===== src/Tests/Fixtures.antt =====
-- Concrete events and outside code, at which the theorems are applied and the model is run.
use bestiario.Ingest.Parse.Order.{OrderVersion, sell, pending, success, fixed}
use bestiario.Ingest.Parse.Dispute.{DisputeVersion, initiated, settled, buyer}
use bestiario.Prelude.Lists.{In, SameRows, IsKeyed}
use bestiario.Prelude.{◌≢◌, sym, ◌∙◌, inl, inr, ap, ℕ, String, true, none, some, List, [], ◌∷◌}
use bestiario.Prelude.Int.{pos}
use bestiario.Prelude.Float.{F64}
use bestiario.Network.{mainnet}
use bestiario.Ingest.Event.{Event, Sdk, object, entries}
use bestiario.Ingest.Policy.{Policy}

-- Every number reads as 1.0.
abbrev pub one_f64 : F64
one_f64 = record { bits = 4607182418800017408 }

abbrev order_tags : String → List (List String)
order_tags status =
    ("d" ∷ "order-1" ∷ [])
    ∷ ("k" ∷ "sell" ∷ [])
    ∷ ("s" ∷ status ∷ [])
    ∷ ("f" ∷ "ARS" ∷ [])
    ∷ ("amt" ∷ "7851" ∷ [])
    ∷ ("fa" ∷ "100" ∷ "200" ∷ [])
    ∷ ("pm" ∷ "cash, in person" ∷ "bank" ∷ [])
    ∷ ("premium" ∷ "1" ∷ [])
    ∷ ("network" ∷ "mainnet" ∷ [])
    ∷ ("expires_at" ∷ "1700086400" ∷ [])
    ∷ ("y" ∷ "mostro" ∷ " node " ∷ [])
    ∷ ("z" ∷ "order" ∷ [])
    ∷ []

-- An order, published as pending, and a second later as a success.
abbrev pub pending_event : Event
pending_event = record {
  id = 11;
  pubkey = "ab";
  kind = 38383;
  created_at = 1700000000;
  tags = order_tags "pending";
  content = "";
}

abbrev pub success_event : Event
success_event = record {
  id = 12;
  pubkey = "ab";
  kind = 38383;
  created_at = 1700000001;
  tags = order_tags "success";
  content = "";
}

abbrev pub dispute_event : Event
dispute_event = record {
  id = 13;
  pubkey = "ab";
  kind = 38386;
  created_at = 1700000002;
  tags =
      ("d" ∷ "dispute-1" ∷ [])
      ∷ ("s" ∷ "initiated" ∷ [])
      ∷ ("initiator" ∷ "buyer" ∷ [])
      ∷ ("y" ∷ "mostro" ∷ [])
      ∷ [];
  content = "";
}

abbrev pub rates_event : Event
rates_event = record {
  id = 14;
  pubkey = "ab";
  kind = 30078;
  created_at = 1700000003;
  tags = ("d" ∷ "mostro-rates" ∷ []) ∷ [];
  content = "{}";
}

-- The JSON of the two orders is their status.
abbrev pub sdk : Sdk
sdk = record {
  verify = λ event. true;
  as_json = λ event. "success";
  from_json = λ text. some success_event;
  parse_uuid = λ text. some text;
  parse_relay_url = λ text. some text;
  read_document = λ text. entries (("BTC", object (("USD", "1") ∷ [])) ∷ []);
  as_f64 = λ text. some one_f64;
  parse_f64 = λ text. some one_f64;
  show_f64 = λ x. "1";
  to_lowercase = λ text. text;
}

abbrev pub policy : Policy
policy = record { instances = []; accept_unknown_instances = true; networks = mainnet ∷ [] }

abbrev pub relay : String
relay = "wss://relay.mostro.network"

abbrev pub pending_version : OrderVersion
pending_version = record {
  event_id = 11;
  order_id = "order-1";
  pubkey = "ab";
  created_at = pos 1700000000;
  direction = sell;
  status = pending;
  fiat_code = "ARS";
  amount_sats = pos 7851;
  fiat = fixed one_f64;
  payment_methods = "bank" ∷ [];
  premium = one_f64;
  network = some mainnet;
  expires_at = pos 1700086400;
  order_created_at = none;
}

abbrev pub success_version : OrderVersion
success_version = record pending_version {
  event_id = 12;
  created_at = pos 1700000001;
  status = success;
}

abbrev pub initiated_version : DisputeVersion
initiated_version = record {
  event_id = 13;
  dispute_id = "dispute-1";
  pubkey = "ab";
  created_at = pos 1700000002;
  status = initiated;
  initiator = some buyer;
  opened_at = none;
}

abbrev pub settled_version : DisputeVersion
settled_version = record initiated_version {
  event_id = 15;
  created_at = pos 1700000009;
  status = settled;
}

-- Two rows, stored in either order.
module _ {A : Type 0} where
  pub swapped : (a b : A) → SameRows (a ∷ b ∷ []) (b ∷ a ∷ [])
  swapped a b = record { to = over a b; back = over b a }
    where
      over : (x y c : A) → In c (x ∷ y ∷ []) → In c (y ∷ x ∷ [])
      over x y c (inl e) = inr (inl e)
      over x y c (inr (inl e)) = inl e
      over x y c (inr (inr e)) = absurd e

  pub IsKeyed-pair : (key : A → ℕ) (a b : A) → key a ≢ key b → IsKeyed key (a ∷ b ∷ [])
  IsKeyed-pair key a b ne c d (inl i) (inl j) e = i ∙ sym j
  IsKeyed-pair key a b ne c d (inl i) (inr (inl j)) e = absurd (ne (sym (ap key i) ∙ e ∙ ap key j))
  IsKeyed-pair key a b ne c d (inr (inl i)) (inl j) e =
      absurd (ne (sym (ap key j) ∙ sym e ∙ ap key i))
  IsKeyed-pair key a b ne c d (inr (inl i)) (inr (inl j)) e = i ∙ sym j
  IsKeyed-pair key a b ne c d (inr (inr i)) j e = absurd i
  IsKeyed-pair key a b ne c d (inl i) (inr (inr j)) e = absurd j
  IsKeyed-pair key a b ne c d (inr (inl i)) (inr (inr j)) e = absurd j

-- ===== src/Ingest/Event.antt =====
-- A Nostr event as nostr-sdk hands it over, and the outside code that ingestion calls.
use bestiario.Prelude.{ℕ, String, ◌≡◌, Bool, Option, some, List}
use bestiario.Prelude.Float.{F64}

-- `id` is the thirty-two bytes of the event id as one number: `to_hex` writes them at a fixed width,
-- so the order of the texts, by which SQLite sorts, is the order of these numbers. `pubkey` is the
-- text that `to_hex` gives. `created_at` is a `u64`.
pub record Event : Type 0 where
  pub id : ℕ
  pub pubkey : String
  pub kind : ℕ
  pub created_at : ℕ
  pub tags : List (List String)
  pub content : String

-- A value of a JSON object, as far as the reader of rates looks: an object, with its values as the
-- texts they were written as, or anything else.
pub data Json : Type 0 where
  object : List (String × String) → Json
  other : Json

-- What serde_json makes of a text that should be an object: its entries in order, repeats included.
pub data Document : Type 0 where
  entries : List (String × Json) → Document
  syntax : String → Document
  shape : String → Document

-- Code that is not in the repository: nostr-sdk, uuid, serde_json, and the tables of the standard
-- library behind `to_lowercase` and the conversions of decimal text to and from `f64`.
pub record Sdk : Type 0 where
  pub verify : Event → Bool
  pub as_json : Event → String
  pub from_json : String → Option Event
  pub parse_uuid : String → Option String
  pub parse_relay_url : String → Option String
  pub read_document : String → Document
  pub as_f64 : String → Option F64
  pub parse_f64 : String → Option F64
  pub show_f64 : F64 → String
  pub to_lowercase : String → String

-- What the program relies on where it reads an archived event: its JSON reads back as that event.
abbrev pub ReadsBack : Sdk → Event → Type 0
ReadsBack sdk event = sdk.from_json (sdk.as_json event) ≡ some event

-- ===== src/Publish/Restatement.antt =====
-- What a run of `publish` says of the run before it (crates/stats/src/publish/restatement.rs, with the
-- envelope of document.rs). Of an address only its text is read here, and whether it is a series; the
-- payload is a JSON value that is only carried.
pub mod Kept
pub mod Snapshot
use bestiario.Prelude.{
  ℕ, ◌+◌, String, Bool, true, false, not, ◌&&◌, ◌||◌, Option, none, some, and_then, map_or, List,
  [], ◌∷◌, ◌++◌, ltb, ◌==◌, str_eq, if◌then◌else◌,
}
use bestiario.Prelude.Int.{ℤ, ltb_ℤ}
use bestiario.Prelude.Map.{Map, get, insert, insert_key}

abbrev pub u32_max : ℕ
u32_max = 4294967295

abbrev pub schema : ℕ
schema = 1

-- chrono's RFC 3339, which `rfc3339` and `parse_rfc3339` call.
pub record Clock : Type 0 where
  pub rfc3339 : ℤ → String
  pub parse_rfc3339 : String → Option ℤ

pub record Run : Type 0 where
  pub snapshot_id : String
  pub generated_at : ℤ

pub record Restatement : Type 0 where
  pub at : ℤ
  pub because : String

pub record Span : Type 0 where
  pub from : ℤ
  pub until : ℤ

pub record Address : Type 0 where
  pub text : String
  pub is_series : Bool

pub record Envelope (J : Type 0) : Type 0 where
  pub schema_version : ℕ
  pub snapshot_id : String
  pub generated_at : String
  pub revision : ℕ
  pub restated_at : Option String
  pub restated_because : Option String
  pub payload : J

pub record Document (J : Type 0) : Type 0 where
  pub address : Address
  pub envelope : Envelope J
  pub hash : String
  pub updated_at : ℤ
  pub period : Option Span

-- What is remembered of a document: published once, or restated since.
pub data Previous : Type 0 where
  first : String → ℤ → Previous
  restated : String → ℕ → ℤ → Restatement → Previous

abbrev pub hash_of : Previous → String
hash_of (first hash updated_at) = hash
hash_of (restated hash revision updated_at restatement) = hash

abbrev pub revision_of : Previous → ℕ
revision_of (first hash updated_at) = 1
revision_of (restated hash revision updated_at restatement) = revision

abbrev pub updated_at_of : Previous → ℤ
updated_at_of (first hash updated_at) = updated_at
updated_at_of (restated hash revision updated_at restatement) = updated_at

abbrev pub restatement_of : Previous → Option Restatement
restatement_of (first hash updated_at) = none
restatement_of (restated hash revision updated_at restatement) = some restatement

-- `Previous::restated`
unfoldable pub previous_restated : String → ℕ → ℤ → Restatement → Option Previous
previous_restated hash revision updated_at restatement =
    if ltb 1 revision then some (restated hash revision updated_at restatement) else none

pub data Because : Type 0 where
  backfill rebuild schema_changed correction : Because

unfoldable pub because_str : Because → String
because_str backfill = "backfill"
because_str rebuild = "rebuild"
because_str schema_changed = "schema"
because_str correction = "correction"

pub record Read : Type 0 where
  pub schema_version : ℕ
  pub covered_from : Option ℤ
  pub events : ℕ

abbrev pub deepened : Option ℤ → Option ℤ → Bool
deepened (some before) (some now) = ltb_ℤ now before
deepened none (some now) = true
deepened _ none = false

-- `Because::inferred`
unfoldable pub inferred : Read → Read → Because
inferred previous current =
    if not (previous.schema_version == schema)
    then schema_changed
    else if deepened previous.covered_from current.covered_from
        || ltb previous.events current.events
    then backfill
    else rebuild

pub data Republish : Type 0 where
  no all : Republish
  range : Span → Republish

unfoldable pub saturating_add : ℕ → ℕ → ℕ
saturating_add a b = if ltb u32_max (a + b) then u32_max else a + b

abbrev pub meets : Span → Option Span → Bool
meets span none = false
meets span (some period) = ltb_ℤ period.from span.until && ltb_ℤ span.from period.until

-- `Option::unwrap_or_else`
abbrev pub or_else : {A : Type 0} → Option A → A → A
or_else none a = a
or_else (some b) a = b

module _ {J : Type 0} where
  unfoldable pub sends_unchanged : Republish → Document J → Bool
  sends_unchanged no document = false
  sends_unchanged all document = true
  sends_unchanged (range span) document = document.address.is_series && meets span document.period

  module _ (clock : Clock) where
    -- `Envelope::first` and `Envelope::restated`
    unfoldable pub first_envelope : Run → J → Envelope J
    first_envelope run payload = record {
      schema_version = schema;
      snapshot_id = run.snapshot_id;
      generated_at = clock.rfc3339 run.generated_at;
      revision = 1;
      restated_at = none;
      restated_because = none;
      payload = payload;
    }

    unfoldable pub restated_envelope : Run → ℕ → Restatement → J → Option (Envelope J)
    restated_envelope run revision restatement payload =
        if ltb 1 revision
        then some (record (first_envelope run payload) {
          revision = revision;
          restated_at = some (clock.rfc3339 restatement.at);
          restated_because = some restatement.because;
        })
        else none

    -- `Envelope::restatement`
    unfoldable pub envelope_restatement : Envelope J → Option Restatement
    envelope_restatement envelope = and_then envelope.restated_at λ text.
        and_then (clock.parse_rfc3339 text) λ at.
          and_then envelope.restated_because λ because. some (record { at = at; because = because })

    -- `envelope`
    unfoldable pub envelope_of : Run → ℕ → Option Restatement → J → Envelope J
    envelope_of run revision restatement payload =
        or_else (and_then restatement λ r. restated_envelope run revision r payload)
          (first_envelope run payload)

    -- `recorded`
    unfoldable pub recorded : Document J → Previous
    recorded document =
        or_else
          (and_then (envelope_restatement document.envelope) λ restatement.
            previous_restated document.hash document.envelope.revision document.updated_at
              restatement)
          (first document.hash document.updated_at)

    -- `Snapshot::against`
    unfoldable pub against : Run → Document J → Option Previous → Because → Document J × Bool
    against run document none because = (
      record document {
        envelope = first_envelope run document.envelope.payload;
        updated_at = run.generated_at;
      },
      false,
    )
    against run document (some previous) because =
        if str_eq (hash_of previous) document.hash
        then (
          record document {
            envelope =
                envelope_of run (revision_of previous) (restatement_of previous)
                  document.envelope.payload;
            updated_at = updated_at_of previous;
          },
          true,
        )
        else (
          record document {
            envelope =
                envelope_of run (saturating_add (revision_of previous) 1)
                  (some (record { at = run.generated_at; because = because_str because }))
                  document.envelope.payload;
            updated_at = run.generated_at;
          },
          false,
        )

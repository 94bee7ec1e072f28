-- ===== src/Publish/Size.antt =====
-- The size of documents against what relays take (crates/stats/src/publish/size.rs).
pub mod Least
use bestiario.Prelude.{ℕ, ltb, Option, none, some, String, List, [], ◌∷◌, map, if◌then◌else◌}
use bestiario.Prelude.Lists.{select}
use bestiario.Publish.Address.Parse.{Address}
use Prim.Native.String.{len}

-- 64 * 1024
abbrev pub default_max_content_bytes : ℕ
default_max_content_bytes = 65536

pub record Ceiling : Type 0 where
  pub bytes : ℕ
  pub relay : Option String

unfoldable pub configured : ℕ → Ceiling
configured bytes = record { bytes = bytes; relay = none }

unfoldable pub and_relay : Ceiling → String → ℕ → Ceiling
and_relay ceiling relay advertised =
    if ltb advertised ceiling.bytes
    then record { bytes = advertised; relay = some relay }
    else ceiling

-- The address of a document, its content as it is sent, and its hash.
pub record Sized : Type 0 where
  pub address : Address
  pub content : String
  pub hash : String

pub record Measured : Type 0 where
  pub address : Address
  pub bytes : ℕ
  pub hash : Option String

unfoldable pub measure : List Sized → List Measured
measure documents =
    map
      (λ document. record {
        address = document.address;
        bytes = len document.content;
        hash = some document.hash;
      })
      documents

unfoldable pub over : List Measured → Ceiling → List Measured
unfolding select
over measured ceiling = select (λ document. ltb ceiling.bytes document.bytes) measured

-- What a relay advertises (NIP-11): its limit, where it names one.
pub record Limits : Type 0 where
  pub relay : String
  pub max_content_length : Option ℕ

-- The `fold` of the publish command (src/commands/publish.rs), from a ceiling on.
abbrev pub lowered_by : Ceiling → String → Option ℕ → Ceiling
lowered_by ceiling relay none = ceiling
lowered_by ceiling relay (some limit) = and_relay ceiling relay limit

unfoldable pub lowered : Ceiling → Limits → Ceiling
unfolding and_relay
lowered ceiling limits = lowered_by ceiling limits.relay limits.max_content_length

unfoldable pub and_relays : Ceiling → List Limits → Ceiling
unfolding lowered
and_relays ceiling [] = ceiling
and_relays ceiling (limits ∷ advertised) = and_relays (lowered ceiling limits) advertised

unfoldable pub ceiling_of : ℕ → List Limits → Ceiling
unfolding configured and_relays
ceiling_of bytes advertised = and_relays (configured bytes) advertised

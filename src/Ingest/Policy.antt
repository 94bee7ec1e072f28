-- ===== src/Ingest/Policy.antt =====
-- Which events are taken: the policy, and the two gates that an event passes before anything is
-- written (src/ingest/pipeline.rs).
use bestiario.Prelude.{
  ℕ, String, Bool, true, false, not, ◌&&◌, ◌||◌, Option, none, some, List, [], ◌∷◌, map, ◌==◌,
  if◌then◌else◌,
}
use bestiario.Prelude.Map.{contains}
use bestiario.Prelude.Result.{ok, err}
use bestiario.Prelude.Text.{trim}
use bestiario.Network.{Network, mainnet, testnet, signet, regtest}
use bestiario.Ingest.Event.{Event, Sdk}
use bestiario.Ingest.Parse.Tags.{Parse, optional_network}
use bestiario.Ingest.Parse.Identity.{platform, is_mostro}
use bestiario.Ingest.Parse.Order.{kind_order}
use bestiario.Ingest.Parse.DevFee.{kind_dev_fee}
use bestiario.Ingest.Parse.Dispute.{kind_dispute}
use bestiario.Ingest.Parse.Info.{kind_info}
use bestiario.Ingest.Parse.Rates.{kind_rates}
use bestiario.Ingest.Parse.RelayList.{kind_relay_list}
use bestiario.Db.State.{Db}
use bestiario.Db.Instances
use bestiario.Ingest.Outcome.{
  Rejection, invalid_signature, unknown_instance, unvouched_publisher, other_platform,
  other_network, malformed,
}

-- The sets of the policy, as lists.
pub record Policy : Type 0 where
  pub instances : List String
  pub accept_unknown_instances : Bool
  pub networks : List Network

-- `Policy::new`: the listed pubkeys are trimmed and lowered.
unfoldable pub new_policy : Sdk → List String → Bool → List Network → Policy
new_policy sdk instances accept_unknown_instances networks = record {
  instances = map (λ pubkey. sdk.to_lowercase (trim pubkey)) instances;
  accept_unknown_instances = accept_unknown_instances;
  networks = networks;
}

unfoldable pub lists_instance : Sdk → Policy → String → Bool
unfolding contains
lists_instance sdk policy pubkey = contains (sdk.to_lowercase pubkey) policy.instances

unfoldable pub accepts_instance : Sdk → Policy → String → Bool
accepts_instance sdk policy pubkey =
    policy.accept_unknown_instances || lists_instance sdk policy pubkey

abbrev pub same_network : Network → Network → Bool
same_network mainnet mainnet = true
same_network testnet testnet = true
same_network signet signet = true
same_network regtest regtest = true
same_network _ _ = false

abbrev pub holds : Network → List Network → Bool
holds n [] = false
holds n (m ∷ ms) = same_network n m || holds n ms

unfoldable pub accepts_network : Policy → Network → Bool
accepts_network policy network = holds network policy.networks

unfoldable pub platform_tagged : ℕ → Bool
platform_tagged kind =
    kind == kind_order || kind == kind_dev_fee || kind == kind_dispute || kind == kind_info

unfoldable pub network_tagged : ℕ → Bool
network_tagged kind = kind == kind_order || kind == kind_dev_fee

unfoldable pub untagged : ℕ → Bool
untagged kind = kind == kind_rates || kind == kind_relay_list

-- The `match` on the network of a tagged event.
abbrev pub network_verdict : Policy → Parse (Option Network) → Option Rejection
network_verdict policy (ok none) = none
network_verdict policy (ok (some network)) =
    if accepts_network policy network then none else some (other_network network)
network_verdict policy (err error) = some (malformed error)

-- What an event is turned away for before anything is written.
unfoldable pub admit : Sdk → Policy → Event → Option Rejection
admit sdk policy event =
    if not (sdk.verify event)
    then some invalid_signature
    else if not (accepts_instance sdk policy event.pubkey)
    then some (unknown_instance event.pubkey)
    else if platform_tagged event.kind && not (is_mostro event)
    then some (other_platform (platform event))
    else if network_tagged event.kind
    then network_verdict policy (optional_network event)
    else none

-- A kind that carries no `y` tag is taken from a publisher that is listed, or that has published a
-- tagged event.
unfoldable pub vouched_for : Sdk → Policy → Db → Event → Option Rejection
vouched_for sdk policy db event =
    if not (untagged event.kind)
    then none
    else if lists_instance sdk policy event.pubkey
        || Instances.is_platform_proven db.order_versions db.dev_fees db.dispute_versions
            db.instance_info event.pubkey
    then none
    else some (unvouched_publisher event.pubkey event.kind)

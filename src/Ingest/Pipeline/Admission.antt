-- ===== src/Ingest/Pipeline/Admission.antt =====
-- What the gates of the pipeline ask of an event (src/ingest/pipeline.rs).
use bestiario.Prelude.{
  String, ◌≡◌, refl, ap, ◌⊎◌, inl, inr, Option, none, some, List, [], ◌∷◌, true, false, Bool-cases,
  arith, eq_iff, map_or, str_eq,
}
use bestiario.Prelude.Int.{ℤ}
use bestiario.Prelude.Lists.{In}
use bestiario.Prelude.Map.{contains-In}
use bestiario.Prelude.Result.{ok, err}
use bestiario.Network.{Network}
use bestiario.Ingest.Event.{Event, Sdk}
use bestiario.Ingest.Parse.Tags.{Parse, optional_network}
use bestiario.Ingest.Parse.Identity.{platform, is_mostro}
use bestiario.Ingest.Outcome.{Rejection}
use bestiario.Ingest.Policy.{
  Policy, lists_instance, accepts_instance, accepts_network, holds, same_network, platform_tagged,
  network_tagged, untagged, network_verdict, admit, vouched_for,
}
use bestiario.Ingest.Pipeline.{judged, turned_away, ingest}
use bestiario.Db.State.{Db}
use bestiario.Db.Instances

-- The pubkey is one of the configured instances.
abbrev pub IsListed : Sdk → Policy → String → Type 0
IsListed sdk policy pubkey = In (sdk.to_lowercase pubkey) policy.instances

-- A tagged event of the pubkey is in the archive's tables.
abbrev pub HasTagged : Db → String → Type 0
HasTagged db pubkey =
    Instances.is_platform_proven db.order_versions db.dev_fees db.dispute_versions db.instance_info
      pubkey
    ≡ true

-- The network an order or a fee names is indexed; naming none is allowed.
abbrev pub NetworkIndexed : Policy → Parse (Option Network) → Type 0
NetworkIndexed policy (ok none) = Unit
NetworkIndexed policy (ok (some network)) = In network policy.networks
NetworkIndexed policy (err error) = ⊥

pub record IsAdmissible (sdk : Sdk) (policy : Policy) (db : Db) (event : Event) : Type 0 where
  pub genuine : sdk.verify event ≡ true
  pub publisher : (policy.accept_unknown_instances ≡ true) ⊎ IsListed sdk policy event.pubkey
  pub mostro : platform_tagged event.kind ≡ true → platform event ≡ some "mostro"
  pub network : network_tagged event.kind ≡ true → NetworkIndexed policy (optional_network event)
  pub vouched :
      untagged event.kind ≡ true → IsListed sdk policy event.pubkey ⊎ HasTagged db event.pubkey

same_network-eq : (n m : Network) → same_network n m ≡ true → n ≡ m
same_network-eq n m h = ground arith

accepts_network-In : (n : Network) (ms : List Network) → holds n ms ≡ true → In n ms
accepts_network-In n [] h = cc
accepts_network-In n (m ∷ ms) h = elim (Bool-cases (same_network n m)) [
  | inl e ↦ inl (same_network-eq n m e)
  | inr e ↦ inr (accepts_network-In n ms (rw e at h))
]

accepts_instance-IsListed :
    (sdk : Sdk) (policy : Policy) (pubkey : String)
    → accepts_instance sdk policy pubkey ≡ true
    → (policy.accept_unknown_instances ≡ true) ⊎ IsListed sdk policy pubkey
unfolding accepts_instance lists_instance
accepts_instance-IsListed sdk policy pubkey h = elim (Bool-cases policy.accept_unknown_instances) [
  | inl e ↦ inl e
  | inr e ↦ inr (contains-In (sdk.to_lowercase pubkey) policy.instances (rw e at h))
]

mostro_platform : (event : Event) → is_mostro event ≡ true → platform event ≡ some "mostro"
unfolding is_mostro
mostro_platform event h = go (platform event) h
  where
    go :
        (p : Option String)
        → map_or p false (λ name. str_eq name "mostro") ≡ true
        → p ≡ some "mostro"
    go none e = cc
    go (some name) e = ap some ((eq_iff name "mostro").0 e)

indexed :
    (policy : Policy) (r : Parse (Option Network))
    → network_verdict policy r ≡ none
    → NetworkIndexed policy r
unfolding accepts_network
indexed policy (ok none) h = tt
indexed policy (ok (some network)) h = elim (Bool-cases (holds network policy.networks)) [
  | inl e ↦ accepts_network-In network policy.networks e
  | inr e ↦ let h' = rw e at h in absurd (cc h')
]
indexed policy (err error) h = cc

-- The gates passed are the conditions.
module _ (sdk : Sdk) (policy : Policy) (db : Db) (event : Event) where
  admit_passed :
      admit sdk policy event ≡ none
      → (sdk.verify event ≡ true)
        × (accepts_instance sdk policy event.pubkey ≡ true)
        × (platform_tagged event.kind ≡ true → is_mostro event ≡ true)
        × (network_tagged event.kind ≡ true
            → network_verdict policy (optional_network event) ≡ none)
  unfolding admit
  admit_passed h = (ground arith, ground arith, λ t. ground arith, λ t. ground arith)

  vouched_passed :
      vouched_for sdk policy db event ≡ none
      → untagged event.kind ≡ true
      → (lists_instance sdk policy event.pubkey ≡ true) ⊎ HasTagged db event.pubkey
  unfolding vouched_for
  vouched_passed h t = ground arith

  pub admissible :
      admit sdk policy event ≡ none
      → vouched_for sdk policy db event ≡ none
      → IsAdmissible sdk policy db event
  admissible h k =
      let (genuine, publisher, mostro, network) = admit_passed h in
      record {
        genuine = genuine;
        publisher = accepts_instance-IsListed sdk policy event.pubkey publisher;
        mostro = λ t. mostro_platform event (mostro t);
        network = λ t. indexed policy (optional_network event) (network t);
        vouched = λ t. listed (vouched_passed k t);
      }
    where
      listed :
          (lists_instance sdk policy event.pubkey ≡ true) ⊎ HasTagged db event.pubkey
          → IsListed sdk policy event.pubkey ⊎ HasTagged db event.pubkey
      listed (inl e) = inl (unfold lists_instance in contains-In _ policy.instances e)
      listed (inr e) = inr e

  judged-IsAdmissible :
      (relay_url : String) (now : ℤ) (a v : Option Rejection)
      → admit sdk policy event ≡ a
      → vouched_for sdk policy db event ≡ v
      → ((judged sdk event relay_url now (turned_away a v) db).0 ≡ db)
        ⊎ IsAdmissible sdk policy db event
  judged-IsAdmissible relay_url now none none h k = inr (admissible h k)
  judged-IsAdmissible relay_url now none (some r) h k = inl refl
  judged-IsAdmissible relay_url now (some r) v h k = inl refl

-- An event leaves the archive exactly as it was, unless its signature verifies, its publisher is
-- accepted by the policy, its `y` tag says `mostro` where its kind is tagged, it names no network
-- or an indexed one where its kind names networks, and, where its kind carries no `y` tag, its
-- publisher is listed or has a tagged event in the tables.
pub ingest-IsAdmissible :
    (sdk : Sdk) (policy : Policy) (event : Event) (relay_url : String) (now : ℤ) (db : Db)
    → ((ingest sdk policy event relay_url now db).0 ≡ db) ⊎ IsAdmissible sdk policy db event
unfolding ingest
ingest-IsAdmissible sdk policy event relay_url now db =
    judged-IsAdmissible sdk policy db event relay_url now (admit sdk policy event)
      (vouched_for sdk policy db event) refl refl

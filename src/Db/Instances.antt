-- ===== src/Db/Instances.antt =====
-- `instances` and `instance_names` (src/db/repo/instances.rs).
pub mod Order
use bestiario.Prelude.{
  String, Bool, true, false, Option, none, some, List, ◌++◌, map, ◌||◌, ◌&&◌, str_eq, if◌then◌else◌,
}
use bestiario.Prelude.Int.{ℤ, leb_ℤ, min_ℤ, max_ℤ}
use bestiario.Prelude.Lists.{any}
use bestiario.Prelude.Map.{distinct}
use bestiario.Db.Table.{Table, put}
use bestiario.Db.DevFees.{StoredDevFee}
use bestiario.Ingest.Parse.Order.{OrderVersion}
use bestiario.Ingest.Parse.Dispute.{DisputeVersion}
use bestiario.Ingest.Parse.Info.{InstanceInfo}

pub record Instance : Type 0 where
  pub pubkey : String
  pub name : Option String
  pub name_seen_at : Option ℤ
  pub first_seen_at : ℤ
  pub last_seen_at : ℤ

-- The row that the INSERT offers: `CASE WHEN ?2 IS NULL THEN NULL ELSE ?3 END`.
abbrev seen_with : Option String → ℤ → Option ℤ
seen_with none published_at = none
seen_with (some name) published_at = some published_at

unfoldable pub offered : String → Option String → ℤ → Instance
offered pubkey name published_at = record {
  pubkey = pubkey;
  name = name;
  name_seen_at = seen_with name published_at;
  first_seen_at = published_at;
  last_seen_at = published_at;
}

-- The two CASEs over the name, which take the same branch: `true` takes the name that is offered.
unfoldable pub takes_name : Instance → Instance → Bool
takes_name row excluded = elim excluded.name [
  | none ↦ false
  | some name ↦ elim row.name_seen_at [
    | none ↦ true
    | some seen ↦ elim excluded.name_seen_at [
      | none ↦ false
      | some offered_at ↦ leb_ℤ seen offered_at
    ]
  ]
]

unfoldable pub merged : Instance → Instance → Instance
unfolding takes_name
merged row excluded = record {
  pubkey = row.pubkey;
  name = if takes_name row excluded then excluded.name else row.name;
  name_seen_at = if takes_name row excluded then excluded.name_seen_at else row.name_seen_at;
  first_seen_at = min_ℤ row.first_seen_at excluded.first_seen_at;
  last_seen_at = max_ℤ row.last_seen_at excluded.last_seen_at;
}

abbrev merged_into : Option Instance → Instance → Instance
merged_into none excluded = excluded
merged_into (some row) excluded = merged row excluded

unfoldable pub upsert : String → Option String → ℤ → Table Instance → Table Instance
upsert pubkey name published_at instances =
    put pubkey (merged_into (instances pubkey) (offered pubkey name published_at)) instances

-- `instance_names`, by pubkey and then by name.
abbrev pub Names : Type 0
Names = String → Table ℤ

abbrev latest_sighting : Option ℤ → ℤ → ℤ
latest_sighting none seen_at = seen_at
latest_sighting (some seen) seen_at = max_ℤ seen seen_at

unfoldable pub record_name : String → String → ℤ → Names → Names
record_name pubkey name published_at names other =
    if str_eq pubkey other
    then put name (latest_sighting (names other name) published_at) (names other)
    else names other

-- `EXISTS (… UNION ALL …)`: a row of the pubkey in one of the four tables of tagged events.
unfoldable pub is_platform_proven :
    List OrderVersion → List StoredDevFee → List DisputeVersion → List InstanceInfo → String → Bool
unfolding any
is_platform_proven orders fees disputes infos pubkey =
    any (λ v. str_eq v.pubkey pubkey) orders
    || any (λ row. str_eq row.fee.pubkey pubkey) fees
    || any (λ v. str_eq v.pubkey pubkey) disputes
    || any (λ i. str_eq i.pubkey pubkey) infos

-- `SELECT … UNION SELECT … ORDER BY pubkey`: every pubkey with a row in one of the four tables.
unfoldable pub platform_proven :
    List OrderVersion → List StoredDevFee → List DisputeVersion → List InstanceInfo → List String
unfolding distinct
platform_proven orders fees disputes infos = distinct (
    map (λ v. v.pubkey) orders
    ++ map (λ row. row.fee.pubkey) fees
    ++ map (λ v. v.pubkey) disputes
    ++ map (λ i. i.pubkey) infos)

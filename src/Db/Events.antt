-- ===== src/Db/Events.antt =====
-- `events`, the archive (src/db/repo/events.rs), and the events that only repeat what is archived
-- (src/db/repo/heartbeats.rs).
use bestiario.Prelude.{
  ℕ, String, Bool, true, false, not, ◌&&◌, Option, none, some, and_then, map_or, List, [], ◌∷◌,
  ◌==◌, str_eq, if◌then◌else◌,
}
use bestiario.Prelude.Int.{ℤ, pos, as_i64, leb_ℤ, ltb_ℤ, ◌+ℤ◌, ◌-ℤ◌, rem_euclid, wrap_i64}
use bestiario.Prelude.Best.{first}
use bestiario.Prelude.Lists.{any, select}
use bestiario.Db.Table.{newer, insert_or_ignore}
use bestiario.Ingest.Event.{Event, Sdk}
use bestiario.Ingest.Parse.Tags.{tag_values}
use bestiario.Ingest.Parse.Identity.{ok_flatten, first_of}
use bestiario.Ingest.Parse.Rates.{RateSnapshot}
use Prim.Native.Nat.{Ordering}
use Prim.Native.String.{compare}

pub record EventRecord : Type 0 where
  pub id : ℕ
  pub pubkey : String
  pub kind : ℕ
  pub created_at : ℤ
  pub d_tag : Option String
  pub raw_json : String
  pub relay_url : String
  pub seen_at : ℤ

unfoldable pub d_tag_of : Event → Option String
d_tag_of event = first_of (ok_flatten (tag_values event "d"))

-- `EventRecord::new`
unfoldable pub new_record : Sdk → Event → String → ℤ → EventRecord
new_record sdk event relay_url seen_at = record {
  id = event.id;
  pubkey = event.pubkey;
  kind = event.kind;
  created_at = as_i64 event.created_at;
  d_tag = d_tag_of event;
  raw_json = sdk.as_json event;
  relay_url = relay_url;
  seen_at = seen_at;
}

abbrev pub record_id : EventRecord → ℕ
record_id r = r.id

-- Whether a row of that id is stored: `rows_affected() > 0` is its negation.
unfoldable pub exists : ℕ → List EventRecord → Bool
unfolding any
exists id events = any (λ r. r.id == id) events

unfoldable pub insert_if_new : EventRecord → List EventRecord → List EventRecord
insert_if_new = insert_or_ignore record_id

pub data Heartbeat : Type 0 where
  announcement : Heartbeat
  rates : ℤ → Heartbeat
  none_of_these : Heartbeat

abbrev pub rates_bucket_secs : ℕ
rates_bucket_secs = 3600

-- The hour that a snapshot belongs to, from its first second to the first of the next.
abbrev pub bucket_of : ℤ → ℤ
bucket_of published_at = published_at -ℤ rem_euclid published_at rates_bucket_secs

unfoldable pub in_bucket : ℤ → ℤ → Bool
unfolding wrap_i64 ◌+ℤ◌
in_bucket bucket published_at =
    leb_ℤ bucket published_at && ltb_ℤ published_at (wrap_i64 (bucket +ℤ pos rates_bucket_secs))

-- `Ord` on `Vec<String>`: by the first text that differs, and a prefix comes first.
unfoldable pub before_or_same : List String → List String → Bool
before_or_same [] b = true
before_or_same (x ∷ xs) [] = false
before_or_same (x ∷ xs) (y ∷ ys) =
    let rest = before_or_same xs ys in
    elim (compare x y) [ Ordering.lt ↦ true | Ordering.eq ↦ rest | Ordering.gt ↦ false ]

unfoldable pub insert_tag : List String → List (List String) → List (List String)
insert_tag tag [] = tag ∷ []
insert_tag tag (t ∷ ts) =
    let rest = insert_tag tag ts in if before_or_same tag t then tag ∷ t ∷ ts else t ∷ rest

-- `tags.sort()`
unfoldable pub sort_tags : List (List String) → List (List String)
unfolding before_or_same insert_tag
sort_tags [] = []
sort_tags (t ∷ ts) = insert_tag t (sort_tags ts)

unfoldable pub eq_texts : List String → List String → Bool
eq_texts [] [] = true
eq_texts (x ∷ xs) (y ∷ ys) = str_eq x y && eq_texts xs ys
eq_texts _ _ = false

unfoldable pub eq_tags : List (List String) → List (List String) → Bool
unfolding eq_texts
eq_tags [] [] = true
eq_tags (x ∷ xs) (y ∷ ys) = eq_texts x y && eq_tags xs ys
eq_tags _ _ = false

unfoldable pub same_tags : Event → Event → Bool
unfolding sort_tags eq_tags
same_tags a b = eq_tags (sort_tags a.tags) (sort_tags b.tags)

-- `d_tag IS ?`
abbrev same_text : Option String → Option String → Bool
same_text none none = true
same_text (some a) (some b) = str_eq a b
same_text _ _ = false

-- `WHERE pubkey = ? AND kind = ? AND d_tag IS ? AND created_at <= ? AND id != ?`
unfoldable pub precedes : Event → EventRecord → Bool
unfolding d_tag_of
precedes event r =
    str_eq r.pubkey event.pubkey
    && r.kind == event.kind
    && same_text r.d_tag (d_tag_of event)
    && leb_ℤ r.created_at (as_i64 event.created_at)
    && not (r.id == event.id)

unfoldable pub previous : Event → List EventRecord → Option EventRecord
unfolding select precedes
previous event events =
    first (newer (λ r. r.created_at) (λ r. r.id)) (select (precedes event) events)

abbrev pub repeats : Event → Event → Bool
repeats event before = str_eq before.content event.content && same_tags before event

unfoldable pub is_redundant : Sdk → List EventRecord → List RateSnapshot → Event → Heartbeat → Bool
unfolding previous any in_bucket
is_redundant sdk events snapshots event none_of_these = false
is_redundant sdk events snapshots event (rates published_at) =
    any
      (λ r.
        str_eq r.pubkey event.pubkey
        && in_bucket (bucket_of published_at) r.published_at
        && not (r.event_id == event.id))
      snapshots
is_redundant sdk events snapshots event announcement =
    map_or (and_then (previous event events) (λ r. sdk.from_json r.raw_json)) false (repeats event)

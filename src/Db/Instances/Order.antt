-- ===== src/Db/Instances/Order.antt =====
-- Whether the row of an instance depends on the order in which its events arrive.
use bestiario.Prelude.{
  String, ◌≡◌, ◌≢◌, Option, none, some, arith, eq_iff, fun_ext, str_eq, Bool-cases, inl, inr, subst,
  ap, map_or, false,
}
use bestiario.Prelude.Int.{ℤ, min_ℤ, max_ℤ, eq_of_parts}
use bestiario.Db.Table.{Table}
use bestiario.Db.Instances.{Instance, offered, merged, merged_into, upsert}

-- Two sightings name the instance alike, or at different times.
abbrev pub NoNameTie : Option String → Option String → ℤ → ℤ → Type 0
NoNameTie (some name) (some name') at at' = at ≡ at' → name ≡ name'
NoNameTie _ _ at at' = Unit

min_ℤ_swap : (a b c : ℤ) → min_ℤ (min_ℤ a b) c ≡ min_ℤ (min_ℤ a c) b
min_ℤ_swap a b c = ground arith

max_ℤ_swap : (a b c : ℤ) → max_ℤ (max_ℤ a b) c ≡ max_ℤ (max_ℤ a c) b
max_ℤ_swap a b c = ground arith

min_ℤ_comm : (a b : ℤ) → min_ℤ a b ≡ min_ℤ b a
min_ℤ_comm a b = ground arith

max_ℤ_comm : (a b : ℤ) → max_ℤ a b ≡ max_ℤ b a
max_ℤ_comm a b = ground arith

module _ (k : String) (at at' : ℤ) where
  name_comm :
      (o : Option Instance) (name name' : Option String)
      → NoNameTie name name' at at'
      → (merged (merged_into o (offered k name at)) (offered k name' at')).name
        ≡ (merged (merged_into o (offered k name' at')) (offered k name at)).name
  unfolding merged offered
  name_comm none none none h = ground arith
  name_comm none none (some n') h = ground arith
  name_comm none (some n) none h = ground arith
  name_comm none (some n) (some n') h = ground (arith, eq_of_parts at at')
  name_comm (some row) none none h = ground arith
  name_comm (some row) none (some n') h = ground arith
  name_comm (some row) (some n) none h = ground arith
  name_comm (some row) (some n) (some n') h = ground (arith, eq_of_parts at at')

  seen_comm :
      (o : Option Instance) (name name' : Option String)
      → NoNameTie name name' at at'
      → (merged (merged_into o (offered k name at)) (offered k name' at')).name_seen_at
        ≡ (merged (merged_into o (offered k name' at')) (offered k name at)).name_seen_at
  unfolding merged offered
  seen_comm none none none h = ground arith
  seen_comm none none (some n') h = ground arith
  seen_comm none (some n) none h = ground arith
  seen_comm none (some n) (some n') h = ground (arith, eq_of_parts at at')
  seen_comm (some row) none none h = ground arith
  seen_comm (some row) none (some n') h = ground arith
  seen_comm (some row) (some n) none h = ground arith
  seen_comm (some row) (some n) (some n') h = ground (arith, eq_of_parts at at')

  merged_comm :
      (o : Option Instance) (name name' : Option String)
      → NoNameTie name name' at at'
      → merged (merged_into o (offered k name at)) (offered k name' at')
        ≡ merged (merged_into o (offered k name' at')) (offered k name at)
  unfolding merged offered
  merged_comm none name name' h = λ i. record {
    pubkey = k;
    name = name_comm none name name' h i;
    name_seen_at = seen_comm none name name' h i;
    first_seen_at = min_ℤ_comm at at' i;
    last_seen_at = max_ℤ_comm at at' i;
  }
  merged_comm (some row) name name' h = λ i. record {
    pubkey = row.pubkey;
    name = name_comm (some row) name name' h i;
    name_seen_at = seen_comm (some row) name name' h i;
    first_seen_at = min_ℤ_swap row.first_seen_at at at' i;
    last_seen_at = max_ℤ_swap row.last_seen_at at at' i;
  }

same_key :
    (k : String) (name name' : Option String) (at at' : ℤ) (instances : Table Instance)
    → NoNameTie name name' at at'
    → upsert k name at (upsert k name' at' instances)
      ≡ upsert k name' at' (upsert k name at instances)
unfolding upsert
same_key k name name' at at' instances h =
    fun_ext
      λ j. ground (arith, eq_iff k k, eq_iff k j, merged_comm k at at' (instances k) name name' h)

other_key :
    (k k' : String) (name name' : Option String) (at at' : ℤ) (instances : Table Instance)
    → str_eq k k' ≡ false
    → upsert k name at (upsert k' name' at' instances)
      ≡ upsert k' name' at' (upsert k name at instances)
unfolding upsert
other_key k k' name name' at at' instances e =
    fun_ext λ j. ground (arith, eq_iff k k', eq_iff k' k, eq_iff k j, eq_iff k' j)

-- Two sightings of instances may be recorded in either order and leave the same rows, unless both
-- are of one instance and give it different names at the same second.
pub upsert_comm :
    (k k' : String) (name name' : Option String) (at at' : ℤ) (instances : Table Instance)
    → (k ≡ k' → NoNameTie name name' at at')
    → upsert k name at (upsert k' name' at' instances)
      ≡ upsert k' name' at' (upsert k name at instances)
upsert_comm k k' name name' at at' instances h = elim (Bool-cases (str_eq k k')) [
  | inl t ↦
      let q : k ≡ k' = (eq_iff k k').0 t in
      subst
        (λ c.
          upsert k name at (upsert c name' at' instances)
          ≡ upsert c name' at' (upsert k name at instances))
        q (same_key k name name' at at' instances (h q))
  | inr e ↦ other_key k k' name name' at at' instances e
]

-- Two sightings of an instance with no row that give it different names at the same second leave
-- different rows in the two orders: the order of arrival shows.
pub upsert_tie :
    (k name name' : String) (at : ℤ) (instances : Table Instance)
    → instances k ≡ none
    → name ≢ name'
    → upsert k (some name) at (upsert k (some name') at instances)
      ≢ upsert k (some name') at (upsert k (some name) at instances)
unfolding upsert merged offered
upsert_tie k name name' at instances fresh ne same = ne (ground (arith, eq_iff k k, named))
  where
    named :
        map_or (upsert k (some name) at (upsert k (some name') at instances) k) none (λ r. r.name)
        ≡ map_or (upsert k (some name') at (upsert k (some name) at instances) k) none (λ r. r.name)
    named = ap (λ (t : Table Instance). map_or (t k) none (λ r. r.name)) same

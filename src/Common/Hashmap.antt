-- ===== src/Common/Hashmap.antt =====
-- `Hashmap<K, V>` of Kernel/Common/Hashmap.h. The equality of keys and the hash, which is a library
-- function, are the section's parameters. `m_size` is a `std::size_t`; it counts stored pairs, so it
-- cannot reach 2^64. The code that would change the number of buckets is commented out.
pub mod Refine
mod Tests
use xp_os.Prelude.{
  ℕ, ◌+◌, ◌-◌, ◌%◌, Bool, true, false, Option, none, some, List, [], ◌∷◌, ◌++◌, if◌then◌else◌,
  get_or, set, length, map,
}

pub record Hashmap {ℓ κ} (K : Type ℓ) (V : Type κ) : Type (ℓ ⊔ κ) where
  pub bucket_count : ℕ
  pub size : ℕ
  pub bucket_array : List (List (K × V))

-- The constructor: one bucket.
abbrev pub new_hashmap {ℓ κ} : (K : Type ℓ) (V : Type κ) → Hashmap K V
new_hashmap K V = record { bucket_count = 1; size = 0; bucket_array = [] ∷ [] }

module _ {ℓ κ} {K : Type ℓ} {V : Type κ} (same : K → K → Bool) where
  -- The loop of `find`: the value behind the iterator it returns, `none` for `end()`.
  unfoldable pub find_in : K → List (K × V) → Option V
  find_in key [] = none
  find_in key (p ∷ ps) = let rest = find_in key ps in if same p.0 key then some p.1 else rest

  -- What erasing the pair that `find` stops at leaves of a bucket.
  unfoldable pub erase_in : K → List (K × V) → List (K × V)
  erase_in key [] = []
  erase_in key (p ∷ ps) = let rest = p ∷ erase_in key ps in if same p.0 key then ps else rest

module _ {ℓ κ} {K : Type ℓ} {V : Type κ} (same : K → K → Bool) (hash : K → ℕ) where
  unfoldable pub bucket_index : Hashmap K V → K → ℕ
  bucket_index h key = hash key % h.bucket_count

  unfoldable pub bucket_of : Hashmap K V → K → List (K × V)
  unfolding bucket_index
  bucket_of h key = get_or h.bucket_array (bucket_index h key) []

  unfoldable pub find : Hashmap K V → K → Option V
  unfolding bucket_of
  find h key = find_in same key (bucket_of h key)

  unfoldable pub force_insert : K → V → Hashmap K V → Hashmap K V
  unfolding bucket_of bucket_index
  force_insert key value h = record h {
    size = h.size + 1;
    bucket_array = set h.bucket_array (bucket_index h key) (bucket_of h key ++ ((key, value) ∷ []));
  }

  -- `insert` and `erase` by what `find` finds.
  unfoldable pub insert_found : Option V → K → V → Hashmap K V → Bool × Hashmap K V
  insert_found (some found) key value h = (false, h)
  insert_found none key value h = (true, force_insert key value h)

  -- Whether the pair was inserted, and the map: a key that is there keeps its value.
  unfoldable pub insert : K → V → Hashmap K V → Bool × Hashmap K V
  insert key value h = insert_found (find h key) key value h

  unfoldable pub erase_found : Option V → K → Hashmap K V → Hashmap K V
  unfolding bucket_of bucket_index
  erase_found (some found) key h = record h {
    size = h.size - 1;
    bucket_array = set h.bucket_array (bucket_index h key) (erase_in same key (bucket_of h key));
  }
  erase_found none key h = h

  unfoldable pub erase : K → Hashmap K V → Hashmap K V
  erase key h = erase_found (find h key) key h

  unfoldable pub clear : Hashmap K V → Hashmap K V
  clear h = record h { size = 0; bucket_array = map (λ b. []) h.bucket_array }

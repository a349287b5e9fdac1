-- ===== src/Common/Hashmap/Tests.antt =====
-- Numbers as keys, with the number itself as its hash.
use xp_os.Prelude.{
  ℕ, zero, suc, ◌≡◌, ◌⊎◌, refl, Bool, true, false, some, none, arith, [], ◌∷◌, ◌==◌, ==→eq, eq→==,
  if◌then◌else◌, get_or,
}
use xp_os.Common.Hashmap.{Hashmap, new_hashmap, find_in, find, insert, erase}
use xp_os.Common.Hashmap.Refine.{IsDistinct, IsValid, insert_refines, erase_refines}

abbrev same : ℕ → ℕ → Bool
same a b = a == b

abbrev hash : ℕ → ℕ
hash n = n

same→eq : (a b : ℕ) → same a b ≡ true → a ≡ b
same→eq a b e = ==→eq a b e

same_refl : (a : ℕ) → same a a ≡ true
same_refl a = eq→== a a refl

abbrev map : Hashmap ℕ ℕ
map = record (new_hashmap ℕ ℕ) { size = 1; bucket_array = ((5, 1) ∷ []) ∷ [] }

map-IsDistinct : (i : ℕ) → IsDistinct same same→eq same_refl (get_or map.bucket_array i [])
unfolding find_in
map-IsDistinct zero = (refl, tt)
map-IsDistinct (suc i) = tt

map-IsValid : IsValid same same→eq same_refl hash map
map-IsValid = record { storage = refl; not_empty = omega arith; distinct = map-IsDistinct }

insert_refines_example :
    let (new, h') = insert same hash 3 7 map in
    IsValid same same→eq same_refl hash h'
    × (((new ≡ true)
          × (find same hash map 3 ≡ none)
          × ((j : ℕ) → find same hash h' j ≡ (if same 3 j then some 7 else find same hash map j)))
        ⊎ ((new ≡ false) × ((a : ℕ) × (find same hash map 3 ≡ some a)) × (h' ≡ map)))
insert_refines_example = insert_refines same same→eq same_refl hash map 3 map-IsValid 7

erase_refines_example :
    let h' = erase same hash 3 map in
    IsValid same same→eq same_refl hash h'
    × ((j : ℕ) → find same hash h' j ≡ (if same 3 j then none else find same hash map j))
erase_refines_example = erase_refines same same→eq same_refl hash map 3 map-IsValid

-- ===== src/Common/Hashmap/Refine.antt =====
-- A hash map is a partial map from keys to values, whatever the hash.
use mathlib.Core.Path.{subst}
use xp_os.Prelude.{
  ℕ, ◌+◌, ◌-◌, ◌<◌, ◌≡◌, ◌≢◌, refl, sym, ap, ◌∙◌, Bool, true, false, Option, none, some, List, [],
  ◌∷◌, ◌++◌, if◌then◌else◌, get_or, set, length, length-set, get_or-set_self, get_or-set_ne, arith,
  Bool-cases, inl, inr, ◌⊎◌, ◌==◌, ==→eq, ==→ne,
}
use xp_os.Common.Hashmap.{
  Hashmap, bucket_index, bucket_of, find_in, find, force_insert, insert, insert_found, erase_in,
  erase, erase_found,
}

option_cases {ℓ} : {A : Type ℓ} (o : Option A) → (o ≡ none) ⊎ ((a : A) × (o ≡ some a))
option_cases none = inl refl
option_cases (some a) = inr (a, refl)

module _ {ℓ} {K : Type ℓ} (same : K → K → Bool) (same→eq : (a b : K) → same a b ≡ true → a ≡ b)
    (same_refl : (a : K) → same a a ≡ true) where
  differs : (a b c : K) → same a c ≡ true → same a b ≡ false → same b c ≡ false
  differs a b c ac ab = elim (Bool-cases (same b c)) [
    | inl bc ↦ cc (ab, ac, bc, same→eq b c bc)
    | inr e ↦ e
  ]

  absent : (a b c : K) → same a b ≡ true → same b c ≡ false → same a c ≡ false
  absent a b c ab bc = ap (λ x. same x c) (same→eq a b ab) ∙ bc

module _ {ℓ κ} {K : Type ℓ} {V : Type κ} (same : K → K → Bool)
    (same→eq : (a b : K) → same a b ≡ true → a ≡ b) (same_refl : (a : K) → same a a ≡ true) where
  -- No key stands twice in a bucket.
  abbrev pub IsDistinct : List (K × V) → Type κ
  IsDistinct [] = Unit
  IsDistinct (p ∷ ps) = (find_in same p.0 ps ≡ none) × IsDistinct ps

  find_in-append :
      (key : K) (value : V) (ps : List (K × V)) (j : K)
      → find_in same key ps ≡ none
      → find_in same j (ps ++ ((key, value) ∷ []))
        ≡ (if same key j then some value else find_in same j ps)
  unfolding find_in
  find_in-append key value [] j h = refl
  find_in-append key value (p ∷ ps) j h = elim (Bool-cases (same p.0 key)) [
    | inl e ↦ cc (h, e)
    | inr ne ↦ elim (Bool-cases (same p.0 j)) [
      | inl e ↦ rw (e, differs same same→eq same_refl p.0 key j e ne) refl
      | inr ne' ↦ rw ne' (find_in-append key value ps j (cc (h, ne)))
    ]
  ]

  find_in-erase_in :
      (key : K) (ps : List (K × V)) (j : K)
      → IsDistinct ps
      → find_in same j (erase_in same key ps) ≡ (if same key j then none else find_in same j ps)
  unfolding find_in erase_in
  find_in-erase_in key [] j h = ground arith
  find_in-erase_in key (p ∷ ps) j h = elim (Bool-cases (same p.0 key)) [
    | inl e ↦ elim (Bool-cases (same key j)) [
      | inl f ↦
          rw (e, f) (sym (ap (λ x. find_in same x ps) (same→eq p.0 key e ∙ same→eq key j f)) ∙ h.0)
      | inr nf ↦ rw (e, nf, absent same same→eq same_refl p.0 key j e nf) refl
    ]
    | inr ne ↦ elim (Bool-cases (same p.0 j)) [
      | inl e ↦ rw (ne, e, differs same same→eq same_refl p.0 key j e ne) refl
      | inr ne' ↦ rw (ne, ne') (find_in-erase_in key ps j h.1)
    ]
  ]

  IsDistinct-append :
      (key : K) (value : V) (ps : List (K × V))
      → find_in same key ps ≡ none
      → IsDistinct ps
      → IsDistinct (ps ++ ((key, value) ∷ []))
  unfolding find_in
  IsDistinct-append key value [] h d = (refl, tt)
  IsDistinct-append key value (p ∷ ps) h d = elim (Bool-cases (same p.0 key)) [
    | inl e ↦ cc (h, e)
    | inr ne ↦
        let rest : find_in same key ps ≡ none = cc (h, ne) in
        let other : same key p.0 ≡ false = elim (Bool-cases (same key p.0)) [
          | inl f ↦ cc (ne, same→eq key p.0 f, same_refl key)
          | inr g ↦ g
        ] in
        (
          find_in-append key value ps p.0 rest ∙ rw other d.0,
          IsDistinct-append key value ps rest d.1,
        )
  ]

  IsDistinct-erase_in :
      (key : K) (ps : List (K × V)) → IsDistinct ps → IsDistinct (erase_in same key ps)
  unfolding erase_in
  IsDistinct-erase_in key [] d = tt
  IsDistinct-erase_in key (p ∷ ps) d = elim (Bool-cases (same p.0 key)) [
    | inl e ↦ rw e d.1
    | inr ne ↦
        rw ne
          (find_in-erase_in key ps p.0 d.1 ∙ ground (arith, d.0), IsDistinct-erase_in key ps d.1)
  ]

  module _ (hash : K → ℕ) where
    -- The array has as many buckets as counted, one at least, and no bucket holds a key twice.
    pub record IsValid (h : Hashmap K V) : Type κ where
      pub storage : length h.bucket_array ≡ h.bucket_count
      pub not_empty : 0 < h.bucket_count
      pub distinct : (i : ℕ) → IsDistinct (get_or h.bucket_array i [])

    module _ (h : Hashmap K V) (key : K) (v : IsValid h) where
      place : ℕ
      place = bucket_index same hash h key

      place-lt : place < length h.bucket_array
      unfolding place bucket_index
      place-lt = omega (arith, v.storage, v.not_empty)

      IsDistinct-set :
          (b : List (K × V))
          → IsDistinct b
          → (i : ℕ) → IsDistinct (get_or (set h.bucket_array place b) i [])
      IsDistinct-set b d i = elim (Bool-cases (place == i)) [
        | inl e ↦
            subst (λ x. IsDistinct (get_or (set h.bucket_array place b) x [])) (==→eq _ _ e)
              (subst IsDistinct (sym (get_or-set_self h.bucket_array place b [] place-lt)) d)
        | inr ne ↦
            subst IsDistinct (sym (get_or-set_ne h.bucket_array place i b [] (==→ne _ _ ne)))
              (v.distinct i)
      ]

      -- Every key is sought as before, but for those of the bucket that was changed.
      find-set :
          (b : List (K × V)) (f : K → Option V)
          → ((j : K)
              → find_in same j b
                ≡ (if same key j then f j else find_in same j (bucket_of same hash h key)))
          → (j : K)
          → find_in same j (get_or (set h.bucket_array place b) (bucket_index same hash h j) [])
            ≡ (if same key j then f j else find same hash h j)
      unfolding find bucket_of place
      find-set b f g j = elim (Bool-cases (place == bucket_index same hash h j)) [
        | inl e ↦ here (==→eq _ _ e)
        | inr ne ↦ elsewhere (==→ne _ _ ne)
      ]
        where
          array : List (List (K × V))
          array = h.bucket_array

          here :
              place ≡ bucket_index same hash h j
              → find_in same j (get_or (set array place b) (bucket_index same hash h j) [])
                ≡ (if same key j then f j else find same hash h j)
          here e =
              ap (λ x. find_in same j (get_or (set array place b) x [])) (sym e)
              ∙ ap (find_in same j) (get_or-set_self array place b [] place-lt)
              ∙ g j
              ∙ ap (λ x. if same key j then f j else find_in same j (get_or array x [])) e

          elsewhere :
              place ≢ bucket_index same hash h j
              → find_in same j (get_or (set array place b) (bucket_index same hash h j) [])
                ≡ (if same key j then f j else find same hash h j)
          elsewhere ne = elim (Bool-cases (same key j)) [
            | inl e ↦ absurd (ne (ap (bucket_index same hash h) (same→eq key j e)))
            | inr n ↦ rw n (
                ap (find_in same j)
                  (get_or-set_ne array place (bucket_index same hash h j) b [] ne))
          ]

      -- With another bucket in its place, the map is still valid.
      IsValid-set :
          (b : List (K × V)) (n : ℕ)
          → IsDistinct b
          → IsValid (record h { size = n; bucket_array = set h.bucket_array place b })
      IsValid-set b n d = record {
        storage = length-set h.bucket_array place b ∙ v.storage;
        not_empty = v.not_empty;
        distinct = IsDistinct-set b d;
      }

      inserted : V → Hashmap K V
      inserted value = force_insert same hash key value h

      inserted-IsValid : (value : V) → find same hash h key ≡ none → IsValid (inserted value)
      unfolding inserted force_insert find place bucket_of
      inserted-IsValid value e =
          IsValid-set (bucket_of same hash h key ++ ((key, value) ∷ [])) (h.size + 1)
            (IsDistinct-append key value (bucket_of same hash h key) e (v.distinct place))

      find-inserted :
          (value : V)
          → find same hash h key ≡ none
          → (j : K)
          → find same hash (inserted value) j
            ≡ (if same key j then some value else find same hash h j)
      unfolding inserted force_insert find place bucket_of
      find-inserted value e j =
          find-set (bucket_of same hash h key ++ ((key, value) ∷ [])) (λ _. some value)
            (λ i. find_in-append key value (bucket_of same hash h key) i e) j

      -- Inserting a pair into a valid map leaves a valid map. Either the key was not there: then
      -- `true` is returned, it has the value now and all other keys are found as before. Or it was
      -- there: then `false` is returned and the map is as it was.
      pub insert_refines :
          (value : V)
          → let (new, h') = insert same hash key value h in
            IsValid h'
            × (((new ≡ true)
                  × (find same hash h key ≡ none)
                  × ((j : K)
                      → find same hash h' j
                        ≡ (if same key j then some value else find same hash h j)))
                ⊎ ((new ≡ false) × ((a : V) × (find same hash h key ≡ some a)) × (h' ≡ h)))
      unfolding insert insert_found inserted
      insert_refines value = elim (option_cases (find same hash h key)) [
        | inr (a, e) ↦ rw e (v, inr (refl, (a, refl), refl))
        | inl e ↦ rw e (inserted-IsValid value e, inl (refl, refl, find-inserted value e))
      ]

      erased : Hashmap K V
      erased = record h {
        size = h.size - 1;
        bucket_array = set h.bucket_array place (erase_in same key (bucket_of same hash h key));
      }

      find-erased :
          (j : K) → find same hash erased j ≡ (if same key j then none else find same hash h j)
      unfolding erased find place bucket_of
      find-erased j =
          find-set (erase_in same key (bucket_of same hash h key)) (λ _. none)
            (λ i. find_in-erase_in key (bucket_of same hash h key) i (v.distinct place)) j

      erased-IsValid : IsValid erased
      unfolding erased place bucket_of
      erased-IsValid =
          IsValid-set (erase_in same key (bucket_of same hash h key)) (h.size - 1)
            (IsDistinct-erase_in key (bucket_of same hash h key) (v.distinct place))

      not_there :
          find same hash h key ≡ none
          → (j : K) → find same hash h j ≡ (if same key j then none else find same hash h j)
      not_there e j = elim (Bool-cases (same key j)) [
        | inl f ↦ rw f (ap (find same hash h) (sym (same→eq key j f)) ∙ e)
        | inr n ↦ rw n refl
      ]

      -- Erasing a key from a valid map leaves a valid map, in which the key is not found and all
      -- others are found as before.
      pub erase_refines :
          let h' = erase same hash key h in
          IsValid h'
          × ((j : K) → find same hash h' j ≡ (if same key j then none else find same hash h j))
      unfolding erase erase_found erased place
      erase_refines = elim (option_cases (find same hash h key)) [
        | inr (a, e) ↦ rw e (erased-IsValid, find-erased)
        | inl e ↦ rw e (v, not_there e)
      ]

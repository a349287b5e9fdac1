-- ===== src/Tasks/VariableFrequencyBuffer/Refine.antt =====
-- The ring of lists against one queue: the ids in the order in which they will be handed out.
use native.Mathlib.Nat.{mod-lt}
use mathlib.Core.List.{append_assoc}
use xp_os.Prelude.{
  ℕ, zero, suc, ◌+◌, ◌-◌, ◌%◌, ◌<◌, ◌≡◌, ◌≢◌, refl, sym, ap, ap₂, ◌∙◌, some, List, [], ◌∷◌, ◌++◌,
  arith, length, get_or, set, length-set, length-append, ne→==,
}
use xp_os.Tasks.VariableFrequencyBuffer.{VariableFrequencyBuffer, add, take_first, get_next}
use xp_os.Tasks.VariableFrequencyBuffer.Scan.{total, IsValid, ahead, seek_lem, IsFirst, nearest}
use xp_os.Tasks.VariableFrequencyBuffer.Row.{
  row, row_ext, row_empty, row-suc, row_split, total-set, ahead-set_self, ahead-set_ne, turned,
  row-turned, pending,
}

cons_of_ne_nil : (l : List ℕ) → l ≢ [] → (gid : ℕ) × (rest : List ℕ) × (l ≡ gid ∷ rest)
cons_of_ne_nil [] h = absurd (h refl)
cons_of_ne_nil (gid ∷ rest) h = (gid, rest, refl)

module _ (slots : ℕ) (b : VariableFrequencyBuffer) (v : IsValid slots b) where
  open b use {buffer, current_list, size}

  -- The buffer after the first id was taken off the list `d` places ahead.
  taken : ℕ → List ℕ → VariableFrequencyBuffer
  taken d rest = record {
    buffer = set buffer ((current_list + d) % slots) rest;
    current_list = (current_list + d) % slots;
    size = size - 1;
  }

  module _ (d gid : ℕ) (rest : List ℕ) (hd : d < slots)
      (first : IsFirst (ahead slots buffer current_list) d)
      (found : ahead slots buffer current_list d ≡ gid ∷ rest) where
    get_next-taken : size ≢ 0 → get_next slots b ≡ some (gid, taken d rest)
    unfolding get_next take_first taken
    get_next-taken h = rw (
      ne→== size 0 h,
      seek_lem slots buffer d slots current_list hd v.current_in first.before_empty first.not_empty,
      found,
    )

    pending-taken : pending slots b ≡ gid ∷ pending slots (taken d rest)
    unfolding pending taken turned
    pending-taken =
        row_split slots d f hd
        ∙ ap (λ l. l ++ row (slots - suc d) (λ i. f (suc d + i)))
            (row-suc d f ∙ ap₂ ◌++◌ (row_empty d f first.before_empty) found)
        ∙ ap (λ l. gid ∷ l)
            (sym (
              row-turned slots buffer current_list v.storage v.current_in d hd rest
                first.before_empty))
      where
        f : ℕ → List ℕ
        f = ahead slots buffer current_list

    IsValid-taken : size ≢ 0 → IsValid slots (taken d rest)
    unfolding taken
    IsValid-taken h = record {
      storage = length-set buffer ((current_list + d) % slots) rest ∙ v.storage;
      current_in = inside;
      counted = omega (
        arith,
        v.counted,
        total-set buffer ((current_list + d) % slots) rest (omega (arith, v.storage, inside)),
        ap length found,
      );
    }
      where
        inside : (current_list + d) % slots < slots
        inside = mod-lt (current_list + d) (omega arith)

  -- A valid buffer that holds an id hands out the first of the pending ones, and leaves a valid
  -- buffer with the others pending, in their order. So the search for a list ends.
  pub get_next_refines :
      size ≢ 0
      → (gid : ℕ) × (b' : VariableFrequencyBuffer) × (get_next slots b ≡ some (gid, b'))
        × (pending slots b ≡ gid ∷ pending slots b')
        × IsValid slots b'
  get_next_refines h =
      let (d, hd, first) = nearest slots b v (omega arith) in
      let (gid, rest, found) = cons_of_ne_nil (ahead slots buffer current_list d) first.not_empty in
      (
        gid,
        taken d rest,
        get_next-taken d gid rest hd first found h,
        pending-taken d gid rest hd first found,
        IsValid-taken d gid rest hd first found h,
      )

module _ (slots : ℕ) (b : VariableFrequencyBuffer) (v : IsValid slots b) (gid priority : ℕ)
    (h : priority < slots) where
  open b use {buffer, current_list, size}

  place_in_range : (current_list + priority) % slots < slots
  place_in_range = mod-lt (current_list + priority) (omega arith)

  -- The list at the place, with the new id behind it.
  longer : List ℕ
  longer = ahead slots buffer current_list priority ++ (gid ∷ [])

  -- The lists ahead, with that one in place.
  grown : ℕ → List ℕ
  grown = ahead slots (set buffer ((current_list + priority) % slots) longer) current_list

  grown_elsewhere : (e : ℕ) → e < slots → priority ≢ e → grown e ≡ ahead slots buffer current_list e
  unfolding grown longer
  grown_elsewhere e he ne =
      ahead-set_ne slots buffer current_list v.storage v.current_in priority e longer h he ne

  near_grown :
      row (suc priority) grown ≡ row (suc priority) (ahead slots buffer current_list) ++ (gid ∷ [])
  unfolding grown longer
  near_grown =
      row-suc priority grown
      ∙ ap₂ ◌++◌
          (row_ext priority grown (ahead slots buffer current_list)
            (λ i lt. grown_elsewhere i (omega arith) (omega arith)))
          (ahead-set_self slots buffer current_list v.storage v.current_in priority longer)
      ∙ sym (
          append_assoc (row priority (ahead slots buffer current_list))
            (ahead slots buffer current_list priority) (gid ∷ []))
      ∙ ap (λ l. l ++ (gid ∷ [])) (sym (row-suc priority (ahead slots buffer current_list)))

  far_grown :
      row (slots - suc priority) (λ i. grown (suc priority + i))
      ≡ row (slots - suc priority) (λ i. ahead slots buffer current_list (suc priority + i))
  far_grown =
      row_ext (slots - suc priority) (λ i. grown (suc priority + i))
        (λ i. ahead slots buffer current_list (suc priority + i))
        (λ i lt. grown_elsewhere (suc priority + i) (omega arith) (omega arith))

  add-IsValid : IsValid slots (add slots gid priority b)
  unfolding add longer
  add-IsValid = record {
    storage = length-set buffer ((current_list + priority) % slots) longer ∙ v.storage;
    current_in = v.current_in;
    counted = omega (
      arith,
      v.counted,
      total-set buffer ((current_list + priority) % slots) longer
          (omega (arith, v.storage, place_in_range)),
      length-append (ahead slots buffer current_list priority) (gid ∷ []),
    );
  }

  -- Adding an id at a distance less than one round to a valid buffer puts it behind the ids that
  -- are pending at that distance or less, and before all others; the buffer stays valid.
  pub add_refines :
      let f = ahead slots buffer current_list in
      let near = row (suc priority) f in
      let far = row (slots - suc priority) (λ i. f (suc priority + i)) in
      (pending slots b ≡ near ++ far)
      × (pending slots (add slots gid priority b) ≡ near ++ (gid ∷ far))
      × IsValid slots (add slots gid priority b)
  unfolding pending add grown longer
  add_refines = (
    row_split slots priority (ahead slots buffer current_list) h,
    row_split slots priority grown h
        ∙ ap₂ ◌++◌ near_grown far_grown
        ∙ append_assoc (row (suc priority) (ahead slots buffer current_list)) (gid ∷ [])
            (row (slots - suc priority) (λ i. ahead slots buffer current_list (suc priority + i))),
    add-IsValid,
  )

get_or-of_total_zero : (ls : List (List ℕ)) (i : ℕ) → total ls ≡ 0 → get_or ls i [] ≡ []
unfolding total
get_or-of_total_zero [] i h = refl
get_or-of_total_zero ([] ∷ ls) zero h = refl
get_or-of_total_zero ((x ∷ l) ∷ ls) zero h = absurd (omega arith)
get_or-of_total_zero (l ∷ ls) (suc i) h = get_or-of_total_zero ls i (omega arith)

-- A valid buffer of size 0 has nothing pending.
pub pending_empty :
    (slots : ℕ) (b : VariableFrequencyBuffer) → IsValid slots b → b.size ≡ 0 → pending slots b ≡ []
unfolding pending
pending_empty slots b v h = row_empty slots (ahead slots b.buffer b.current_list) (λ i lt.
    get_or-of_total_zero b.buffer ((b.current_list + i) % slots) (omega (arith, v.counted)))

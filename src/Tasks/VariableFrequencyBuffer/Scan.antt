-- ===== src/Tasks/VariableFrequencyBuffer/Scan.antt =====
-- The search of `get_next` for a list that is not empty: it ends within one round of the ring when
-- the buffer holds an id, at the nearest such list.
use native.Mathlib.Nat.{mod-eq_of_lt, mod-add-mod, mod-lt, add-mod-mod, add-mod_right}
use xp_os.Prelude.{
  ℕ, zero, suc, ◌+◌, ◌-◌, ◌%◌, ◌≤◌, ◌<◌, ◌≡◌, ◌≢◌, refl, sym, ap, ◌∙◌, some, List, [], ◌∷◌, arith,
  ◌==◌, length, get_or, inl, inr, ◌⊎◌, false,
}
use xp_os.Tasks.VariableFrequencyBuffer.{VariableFrequencyBuffer, seek}

-- How many ids the lists hold.
unfoldable pub total : List (List ℕ) → ℕ
total [] = 0
total (l ∷ ls) = length l + total ls

pub record IsValid (slots : ℕ) (b : VariableFrequencyBuffer) : Type 0 where
  pub storage : length b.buffer ≡ slots
  pub current_in : b.current_list < slots
  pub counted : b.size ≡ total b.buffer

-- The list `d` places ahead of the current one.
abbrev pub ahead : ℕ → List (List ℕ) → ℕ → ℕ → List ℕ
ahead slots buffer current d = get_or buffer ((current + d) % slots) []

pub total_pos :
    (ls : List (List ℕ)) → 0 < total ls → (i : ℕ) × (i < length ls) × (get_or ls i [] ≢ [])
unfolding total
total_pos [] h = absurd (omega arith)
total_pos ([] ∷ ls) h = let (i, lt, ne) = total_pos ls (omega arith) in (suc i, omega arith, ne)
total_pos ((x ∷ l) ∷ ls) h = (0, omega arith, λ e. cc)

mod_start : (slots current : ℕ) → current < slots → (current + 0) % slots ≡ current
mod_start slots current h = ap (λ n. n % slots) (omega arith) ∙ mod-eq_of_lt h

pub mod_step :
    (slots current d : ℕ) → ((current + 1) % slots + d) % slots ≡ (current + suc d) % slots
mod_step slots current d = mod-add-mod (current + 1) slots d ∙ ap (λ n. n % slots) (omega arith)

length_ne_nil : (l : List ℕ) → l ≢ [] → (length l == 0) ≡ false
length_ne_nil [] h = absurd (h refl)
length_ne_nil (x ∷ l) h = ground arith

module _ (slots : ℕ) (buffer : List (List ℕ)) where
  -- `seek` stops at the list `d` places ahead if that is the first one not empty.
  pub seek_lem :
      (d fuel current : ℕ)
      → d < fuel
      → current < slots
      → ((j : ℕ) → j < d → ahead slots buffer current j ≡ [])
      → ahead slots buffer current d ≢ []
      → seek slots fuel buffer current ≡ some ((current + d) % slots)
  unfolding seek
  seek_lem d zero current h hc empty stop = absurd (omega arith)
  seek_lem zero (suc fuel) current h hc empty stop =
      rw (length_ne_nil (get_or buffer current []) here)
        (ap some (sym (mod_start slots current hc)))
    where
      here : get_or buffer current [] ≢ []
      here e = stop (ap (λ i. get_or buffer i []) (mod_start slots current hc) ∙ e)
  seek_lem (suc d) (suc fuel) current h hc empty stop = rw (ap (λ l. length l == 0) here) (
      seek_lem d fuel ((current + 1) % slots) (omega arith) (mod-lt (current + 1) (omega arith))
        (λ j lt.
          ap (λ i. get_or buffer i []) (mod_step slots current j) ∙ empty (suc j) (omega arith))
        (λ e. stop (sym (ap (λ i. get_or buffer i []) (mod_step slots current d)) ∙ e))
      ∙ ap some (mod_step slots current d))
    where
      here : get_or buffer current [] ≡ []
      here = ap (λ i. get_or buffer i []) (sym (mod_start slots current hc)) ∙ empty 0 (omega arith)

-- The first of a row of lists that is not empty.
pub record IsFirst (f : ℕ → List ℕ) (d : ℕ) : Type 0 where
  pub before_empty : (j : ℕ) → j < d → f j ≡ []
  pub not_empty : f d ≢ []

list_cases : (l : List ℕ) → (l ≡ []) ⊎ (l ≢ [])
list_cases [] = inl refl
list_cases (x ∷ l) = inr (λ e. cc)

pub IsFirst-row : (n : ℕ) (f : ℕ → List ℕ) → f n ≢ [] → (d : ℕ) × (d ≤ n) × IsFirst f d
IsFirst-row n f h = first n f h (list_cases (f 0))
  where
    first :
        (n : ℕ) (f : ℕ → List ℕ)
        → f n ≢ []
        → (f 0 ≡ []) ⊎ (f 0 ≢ [])
        → (d : ℕ) × (d ≤ n) × IsFirst f d
    first n f h (inr ne) =
        (0, omega arith, record { before_empty = λ j lt. absurd (omega arith); not_empty = ne })
    first zero f h (inl e) = absurd (h e)
    first (suc n) f h (inl e) =
        let (d, le, r) = first n (λ i. f (suc i)) h (list_cases (f 1)) in
        (
          suc d,
          omega arith,
          record {
            before_empty = elim [ zero ↦ λ lt. e | suc j ↦ λ lt. r.before_empty j (omega arith) ];
            not_empty = r.not_empty;
          },
        )

-- A buffer that holds an id has a list that is not empty within one round.
pub nearest :
    (slots : ℕ) (b : VariableFrequencyBuffer)
    → IsValid slots b
    → 0 < b.size
    → (d : ℕ) × (d < slots) × IsFirst (ahead slots b.buffer b.current_list) d
nearest slots b v h =
    let (i, lt, ne) = total_pos b.buffer (omega arith) in
    let e = (i + slots - b.current_list) % slots in
    let (d, le, r) =
      IsFirst-row e (ahead slots b.buffer b.current_list)
        (λ q. ne (sym (ap (λ j. get_or b.buffer j []) (reach i (omega arith))) ∙ q)) in
    let near : e < slots = mod-lt (i + slots - b.current_list) (omega arith) in
    (d, omega (arith, le, near), r)
  where
    reach :
        (i : ℕ) → i < slots → (b.current_list + (i + slots - b.current_list) % slots) % slots ≡ i
    reach i lt =
        add-mod-mod b.current_list (i + slots - b.current_list) slots
        ∙ ap (λ n. n % slots) (omega arith)
        ∙ add-mod_right i slots
        ∙ mod-eq_of_lt lt

-- ===== src/Tasks/VariableFrequencyBuffer.antt =====
-- `VariableFrequencyBuffer` of Kernel/Tasks/MasterScheduler.h: a ring of lists of group ids. A
-- group of a lower priority is put further ahead on the ring.
--
-- The number of lists, VARFREQ_CIRCULAR_BUFFER_SIZE, is the section's parameter `slots`.
-- `m_size` is a `uint64_t`; it is raised once for each stored id, so it cannot reach 2^64.
pub mod Scan
pub mod Row
pub mod Refine
mod Tests
use xp_os.Prelude.{
  ℕ, zero, suc, ◌+◌, ◌-◌, ◌%◌, Option, none, some, List, [], ◌∷◌, ◌++◌, ◌==◌, if◌then◌else◌, length,
  get_or, set,
}

pub record VariableFrequencyBuffer : Type 0 where
  pub buffer : List (List ℕ)
  pub current_list : ℕ
  pub size : ℕ

module _ (slots : ℕ) where
  unfoldable pub add : ℕ → ℕ → VariableFrequencyBuffer → VariableFrequencyBuffer
  add gid priority b =
      let i = (b.current_list + priority) % slots in
      record b { buffer = set b.buffer i (get_or b.buffer i [] ++ (gid ∷ [])); size = b.size + 1 }

  -- The `while` loop of `get_next`: the index of the list at which it stops. It goes round the
  -- ring for ever when every list is empty, which `none` stands for; `fuel` bounds its rounds.
  unfoldable pub seek : ℕ → List (List ℕ) → ℕ → Option ℕ
  seek zero buffer current = none
  seek (suc fuel) buffer current =
      let rest = seek fuel buffer ((current + 1) % slots) in
      if length (get_or buffer current []) == 0 then rest else some current

  -- Take the first id off the list at index `i`, which becomes the current one.
  unfoldable pub take_first :
      VariableFrequencyBuffer → ℕ → List ℕ → Option (ℕ × VariableFrequencyBuffer)
  take_first b i [] = none
  take_first b i (gid ∷ rest) =
      some (gid, record { buffer = set b.buffer i rest; current_list = i; size = b.size - 1 })

  -- The group id returned, 0 if there is none, and the buffer; `none` if the call does not return.
  unfoldable pub get_next : VariableFrequencyBuffer → Option (ℕ × VariableFrequencyBuffer)
  get_next b = if b.size == 0 then some (0, b) else (elim (seek slots b.buffer b.current_list) [
    | none ↦ none
    | some i ↦ take_first b i (get_or b.buffer i [])
  ])

-- ===== src/Drivers/Keyboard/Batches.antt =====
-- Scan codes that come in one after the other, and keys that are pressed and released.
use xp_os.Prelude.{
  ℕ, ◌+◌, ◌<◌, ◌≡◌, ◌≢◌, refl, ap, sym, ◌∙◌, Bool, true, false, List, [], ◌∷◌, ◌++◌, ◌==◌, ◌%◌, leb,
  arith, Bool-cases, inl, inr, ◌⊎◌, ne→==, eq→==, ==→eq, ==→ne, if◌then◌else◌,
}
use mathlib.Core.List.{append_assoc, append-nil}
use xp_os.Drivers.Keyboard.{
  key_down, key_up, KeyboardEvent, scancode_s1_extid, key_of, events_of_key, key_events,
  convert_keys,
}

-- However the scan codes are split between two wake-ups of the thread, the events are the same.
pub convert_keys-append :
    (extended : Bool) (first second : List ℕ)
    → convert_keys extended (first ++ second) ≡ (
        let before = convert_keys extended first in
        let after = convert_keys before.0 second in (after.0, before.1 ++ after.1))
unfolding convert_keys
convert_keys-append extended [] second = refl
convert_keys-append extended (scancode ∷ first) second =
    elim (Bool-cases (scancode == scancode_s1_extid)) [
      | inl e ↦ rw e (convert_keys-append true first second)
      | inr e ↦ rw e (
          rw (convert_keys-append false first second) (
            ap
              (λ (l : List KeyboardEvent).
                ((convert_keys (convert_keys false first).0 second).0, l))
              (sym (
                append_assoc (key_events extended scancode) (convert_keys false first).1
                  (convert_keys (convert_keys false first).0 second).1))))
    ]

-- The events that a key is pressed, and that it is released.
abbrev pub press_of : ℕ → KeyboardEvent
press_of key = record { movement = key_down; key = key }

abbrev pub release_of : ℕ → KeyboardEvent
release_of key = record { movement = key_up; key = key }

one_event :
    (key : ℕ) (released : Bool)
    → key ≢ 0
    → events_of_key key released ≡ (if released then release_of key else press_of key) ∷ []
unfolding events_of_key
one_event key true h = rw (ne→== key 0 h) refl
one_event key false h = rw (ne→== key 0 h) refl

no_event : (key : ℕ) (released : Bool) → key ≡ 0 → events_of_key key released ≡ []
unfolding events_of_key
no_event key released h = rw (eq→== key 0 h) refl

one_code :
    (extended : Bool) (scancode : ℕ)
    → scancode ≢ scancode_s1_extid
    → convert_keys extended (scancode ∷ []) ≡ (false, key_events extended scancode)
unfolding convert_keys
one_code extended scancode h =
    rw (ne→== scancode scancode_s1_extid h)
      (ap (λ (l : List KeyboardEvent). (false, l)) (append-nil (key_events extended scancode)))

pressed :
    (extended : Bool) (code : ℕ)
    → code < 0x80
    → key_events extended code ≡ events_of_key (key_of extended code) false
unfolding key_events
pressed extended code h =
    let same : code % 0x80 ≡ code = omega arith in
    let down : leb 0x80 code ≡ false = ground arith in rw (same, down) refl

let_go :
    (extended : Bool) (code : ℕ)
    → code < 0x80
    → key_events extended (code + 0x80) ≡ events_of_key (key_of extended code) true
unfolding key_events
let_go extended code h =
    let same : (code + 0x80) % 0x80 ≡ code = omega arith in
    let up : leb 0x80 (code + 0x80) ≡ true = ground arith in rw (same, up) refl

-- A code below 0x80 that is not the one of the prefix without its release bit, with the prefix before
-- it or not: either it has no key, and it gives no event, nor does it with the release bit set; or
-- it has a key, and it gives the one event that this key is pressed, and with the release bit set the
-- one event that it is released. After each of them a prefix is no longer in force.
pub release-convert_keys :
    (extended : Bool) (code : ℕ)
    → code < 0x80
    → code ≢ 0x60
    → let press = convert_keys extended (code ∷ []) in
      let release = convert_keys extended ((code + 0x80) ∷ []) in
      let key = key_of extended code in
      ((key ≡ 0) × (press ≡ (false, [])) × (release ≡ (false, [])))
      ⊎ ((key ≢ 0)
          × (press ≡ (false, press_of key ∷ []))
          × (release ≡ (false, release_of key ∷ [])))
release-convert_keys extended code h other =
    let alone : List KeyboardEvent → Bool × List KeyboardEvent = λ l. (false, l) in
    let key : ℕ = key_of extended code in
    let press : convert_keys extended (code ∷ []) ≡ (false, events_of_key key false) =
      one_code extended code (λ e. absurd (omega (arith, e, h)))
      ∙ ap alone (pressed extended code h) in
    let release : convert_keys extended ((code + 0x80) ∷ []) ≡ (false, events_of_key key true) =
      one_code extended (code + 0x80) (λ e. other (omega (arith, e)))
      ∙ ap alone (let_go extended code h) in
    elim (Bool-cases (key == 0)) [
      | inl t ↦
          let z : key ≡ 0 = ==→eq key 0 t in
          inl (z, press ∙ ap alone (no_event key false z), release ∙ ap alone (no_event key true z))
      | inr f ↦
          let n : key ≢ 0 = ==→ne key 0 f in
          inr
            (n, press ∙ ap alone (one_event key false n), release ∙ ap alone (one_event key true n))
    ]

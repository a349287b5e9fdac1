-- ===== src/Drivers/Keyboard/Tests.antt =====
-- The key A, and the cursor key that moves up.
use xp_os.Prelude.{◌≡◌, refl, false, [], ◌∷◌, ◌⊎◌, ◌≢◌, arith}
use xp_os.Drivers.Keyboard.{
  key_down, key_up, extended_key, key_of, events_of_key, key_events, convert_keys,
}
use xp_os.Drivers.Keyboard.Batches.{press_of, release_of, release-convert_keys}

release-convert_keys_example :
    ((key_of false 0x1e ≡ 0)
      × (convert_keys false (0x1e ∷ []) ≡ (false, []))
      × (convert_keys false (0x9e ∷ []) ≡ (false, [])))
    ⊎ ((key_of false 0x1e ≢ 0)
        × (convert_keys false (0x1e ∷ []) ≡ (false, press_of (key_of false 0x1e) ∷ []))
        × (convert_keys false (0x9e ∷ []) ≡ (false, release_of (key_of false 0x1e) ∷ [])))
release-convert_keys_example =
    release-convert_keys false 0x1e (omega arith) (λ e. absurd (omega (arith, e)))

cursor_up : convert_keys false (0xe0 ∷ 0x48 ∷ 0xe0 ∷ 0xc8 ∷ []) ≡ (
  false,
  record { movement = key_down; key = 0x26 } ∷ record { movement = key_up; key = 0x26 } ∷ [],
)
unfolding convert_keys key_events events_of_key key_of extended_key
cursor_up = refl

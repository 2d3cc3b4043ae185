-- ===== src/Apple/Flags.antt =====
-- The flag tests as digits of the status byte.
use omarchy_presence_unlock.Base.{
  every_below, every_below_sound, ℕ, ◌/◌, ◌%◌, ◌<◌, ◌≡◌, refl, Bool, true, not, ◌==◌, arith,
}
use omarchy_presence_unlock.Apple.{has_flag, watch_locked, auto_unlock_enabled}

abbrev bool_eq : Bool → Bool → Bool
bool_eq true b = b
bool_eq b c = not c

bool_eq_sound : (a b : Bool) → bool_eq a b ≡ true → a ≡ b
bool_eq_sound a b h = ground arith

locked_table : every_below (λ f. bool_eq (has_flag f watch_locked) (f / 32 % 2 == 1)) 256 ≡ true
unfolding every_below
locked_table = refl

enabled_table :
    every_below (λ f. bool_eq (has_flag f auto_unlock_enabled) (f / 128 == 1)) 256 ≡ true
unfolding every_below
enabled_table = refl

-- The locked bit is the digit of 2 ^ 5.
pub has_flag-watch_locked : (f : ℕ) → f < 256 → has_flag f watch_locked ≡ (f / 32 % 2 == 1)
has_flag-watch_locked f h = bool_eq_sound _ _ (every_below_sound _ 256 locked_table f h)

-- The enabled bit is the digit of 2 ^ 7, the highest of a byte.
pub has_flag-auto_unlock_enabled :
    (f : ℕ) → f < 256 → has_flag f auto_unlock_enabled ≡ (f / 128 == 1)
has_flag-auto_unlock_enabled f h = bool_eq_sound _ _ (every_below_sound _ 256 enabled_table f h)

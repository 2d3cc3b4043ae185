-- ===== src/Irk.antt =====
-- crates/protocol/src/irk.rs: matching Resolvable Private Addresses against an Identity Resolving
-- Key. The expanded AES-128 key is the block function that it computes; `Aes128::new` and
-- `encrypt_block` are code of another crate and stand for a parameter. The child reads the key
-- from a BlueZ bond record.
pub mod BondFile
pub mod Key
mod Tests
use omarchy_presence_unlock.Base.{
  ℕ, ◌/◌, ◌^◌, Bool, false, not, [], ◌∷◌, ◌++◌, Bytes, str_eq, take, drop, ◌==◌, if◌then◌else◌,
}
use omarchy_presence_unlock.Ble.{Address}

pub record IrkMatcher : Type 0 where
  pub cipher : Bytes → Bytes

-- `IrkMatcher::new`, over the block cipher `aes`: key, block, encrypted block.
unfoldable pub new_matcher : (Bytes → Bytes → Bytes) → Bytes → IrkMatcher
new_matcher aes irk = record { cipher = aes irk }

abbrev pub first_byte : Address → ℕ
first_byte [] = 0
first_byte (b ∷ rest) = b

-- Thirteen zero bytes: the head of the block that is encrypted.
abbrev padding : Bytes
padding = 0 ∷ 0 ∷ 0 ∷ 0 ∷ 0 ∷ 0 ∷ 0 ∷ 0 ∷ 0 ∷ 0 ∷ 0 ∷ 0 ∷ 0 ∷ []

-- `IrkMatcher::matches`
unfoldable pub resolves : IrkMatcher → Address → Bool
resolves matcher address =
    if not (first_byte address / 2 ^ 6 == 1)
    then false
    else str_eq (drop 13 (matcher.cipher (padding ++ take 3 address))) (drop 3 address)

-- ===== src/Cli/Bonds/Tests.antt =====
-- Two records with different keys.
use omarchy_presence_unlock.Base.{
  ◌≡◌, refl, inl, inr, false, ◌∷◌, ◌++◌, some, Str, codes, str_eq, strip_prefix, split, split_from,
  trim, trim_start, trim_end, utf8, from_utf8,
}
use omarchy_presence_unlock.Numbers.{parse_hex_u8, digits}
use omarchy_presence_unlock.Irk.BondFile.{
  bond_lines, read_key, section_name, strip_last, split_once, parse_bluez_info_irk,
}
use omarchy_presence_unlock.Cli.Setup.Binding.{lines_from}
use omarchy_presence_unlock.Cli.Bonds.{bond_sections, sections_from, push_entry, bond_report}
use omarchy_presence_unlock.Cli.Bonds.Secret.{SameSections, SameKind, bond_report-eq}

-- Records with an identity key, a long term key and a field that is no key.
abbrev bond : Str → Str → Str
bond irk ltk =
    codes "[IdentityResolvingKey]"
    ++ (10
        ∷ (codes "Key="
            ++ (irk
                ++ (10
                    ∷ (codes "[LongTermKey]"
                        ++ (10 ∷ (codes "Key=" ++ (ltk ++ (10 ∷ codes "EncSize=16")))))))))

abbrev first_irk : Str
first_irk = codes "00112233445566778899AABBCCDDEEFF"

abbrev other_irk : Str
other_irk = codes "102030405060708090A0B0C0D0E0F001"

abbrev first_bond : Str
first_bond = bond first_irk (codes "A")

abbrev other_bond : Str
other_bond = bond other_irk (codes "B")

same_sections : SameSections (bond_sections first_bond) (bond_sections other_bond)
unfolding bond_sections sections_from lines_from section_name strip_last strip_prefix split_once
    push_entry trim trim_start trim_end str_eq utf8
same_sections = (
  refl,
  ((refl, inr ((refl, inl refl), refl)), tt),
  (refl, ((refl, inr ((refl, inr (inr (inl refl))), refl)), ((refl, inl refl), tt)), tt),
)

same_kind : SameKind (parse_bluez_info_irk first_bond) (parse_bluez_info_irk other_bond)
unfolding parse_bluez_info_irk bond_lines split split_from trim trim_start trim_end section_name
    strip_last strip_prefix str_eq split_once read_key utf8 from_utf8 parse_hex_u8 digits
same_kind = tt

bond_report-eq_example :
    bond_report false (codes "I") (some first_bond)
    ≡ bond_report false (codes "I") (some other_bond)
bond_report-eq_example = bond_report-eq (codes "I") first_bond other_bond same_sections same_kind

-- ===== src/Cli/Bonds/Secret.antt =====
-- Keys are not printed unless that is asked for.
use omarchy_presence_unlock.Base.{
  ◌≡◌, ◌⊎◌, refl, sym, ap, ◌∙◌, inl, inr, true, false, List, [], ◌∷◌, map, some, Str, codes, str_eq,
  length, utf8, Any,
}
use omarchy_presence_unlock.Irk.BondFile.{parse_bluez_info_irk, BondResult, ok, err}
use omarchy_presence_unlock.Cli.Bonds.{
  BondSection, bond_sections, is_secret, ends_with, redacted, print_entry, print_section,
  key_verdict, bond_report,
}

-- The sections of a bond record whose `Key` is key material, as BlueZ writes them.
abbrev pub key_sections : List Str
key_sections =
    codes "IdentityResolvingKey"
    ∷ codes "LinkKey"
    ∷ codes "LongTermKey"
    ∷ codes "SlaveLongTermKey"
    ∷ codes "PeripheralLongTermKey"
    ∷ codes "LocalSignatureKey"
    ∷ codes "RemoteSignatureKey"
    ∷ []

-- The field is the key of one of those sections.
abbrev pub IsKeyMaterial : Str → Str → Type 0
IsKeyMaterial section key = (key ≡ codes "Key") × Any (λ name. section ≡ name) key_sections

-- Entries with the same keys, whose values are the same too; of key material only the length is.
abbrev pub SameEntry : Str → Str × Str → Str × Str → Type 0
SameEntry section (key, value) (key', value') =
    (key ≡ key')
    × ((value ≡ value')
        ⊎ (IsKeyMaterial section key × (length (utf8 value) ≡ length (utf8 value'))))

abbrev pub SameEntries : Str → List (Str × Str) → List (Str × Str) → Type 0
SameEntries section [] [] = Unit
SameEntries section [] (e' ∷ es') = ⊥
SameEntries section (e ∷ es) [] = ⊥
SameEntries section (e ∷ es) (e' ∷ es') = SameEntry section e e' × SameEntries section es es'

abbrev pub SameSections : List BondSection → List BondSection → Type 0
SameSections [] [] = Unit
SameSections [] (s' ∷ ss') = ⊥
SameSections (s ∷ ss) [] = ⊥
SameSections (s ∷ ss) (s' ∷ ss') =
    (s.name ≡ s'.name) × SameEntries s.name s.entries s'.entries × SameSections ss ss'

-- Whatever is key material is secret.
IsKeyMaterial-is_secret :
    (section key : Str) → IsKeyMaterial section key → is_secret section key ≡ true
unfolding is_secret ends_with str_eq
IsKeyMaterial-is_secret section key (named, inl e) = rw (named, e) refl
IsKeyMaterial-is_secret section key (named, inr (inl e)) = rw (named, e) refl
IsKeyMaterial-is_secret section key (named, inr (inr (inl e))) = rw (named, e) refl
IsKeyMaterial-is_secret section key (named, inr (inr (inr (inl e)))) = rw (named, e) refl
IsKeyMaterial-is_secret section key (named, inr (inr (inr (inr (inl e))))) = rw (named, e) refl
IsKeyMaterial-is_secret section key (named, inr (inr (inr (inr (inr (inl e)))))) =
    rw (named, e) refl
IsKeyMaterial-is_secret section key (named, inr (inr (inr (inr (inr (inr (inl e))))))) =
    rw (named, e) refl
IsKeyMaterial-is_secret section key (named, inr (inr (inr (inr (inr (inr (inr e))))))) = absurd e

print_entry-eq :
    (section : Str) (e e' : Str × Str)
    → SameEntry section e e'
    → print_entry false section e ≡ print_entry false section e'
print_entry-eq section (key, value) (key', value') (same, inl public) =
    λ i. print_entry false section (same i, public i)
print_entry-eq section (key, value) (key', value') (same, inr (material, long)) =
    let secret = IsKeyMaterial-is_secret section key material in
    let secret' : is_secret section key' ≡ true = ap (is_secret section) (sym same) ∙ secret in
    rw (secret, secret') (λ i. redacted (same i) (long i))

print_entries-eq :
    (section : Str) (es es' : List (Str × Str))
    → SameEntries section es es'
    → map (print_entry false section) es ≡ map (print_entry false section) es'
print_entries-eq section [] [] h = refl
print_entries-eq section [] (e' ∷ es') h = absurd h
print_entries-eq section (e ∷ es) [] h = absurd h
print_entries-eq section (e ∷ es) (e' ∷ es') (first, rest) =
    λ i. print_entry-eq section e e' first i ∷ print_entries-eq section es es' rest i

print_sections-eq :
    (ss ss' : List BondSection)
    → SameSections ss ss'
    → map (print_section false) ss ≡ map (print_section false) ss'
print_sections-eq [] [] h = refl
print_sections-eq [] (s' ∷ ss') h = absurd h
print_sections-eq (s ∷ ss) [] h = absurd h
print_sections-eq (s ∷ ss) (s' ∷ ss') (named, first, rest) =
    let here = ap (λ n. (n, map (print_entry false n) s'.entries)) named in
    λ i.
      ((ap (λ es. (s.name, es)) (print_entries-eq s.name s.entries s'.entries first) ∙ here) i)
      ∷ print_sections-eq ss ss' rest i

-- Whether there is a key, and a good one.
abbrev pub SameKind : BondResult → BondResult → Type 0
SameKind (ok irk) (ok irk') = Unit
SameKind (ok irk) (err e) = ⊥
SameKind (err e) (ok irk) = ⊥
SameKind (err e) (err e') = e ≡ e'

key_verdict-eq : (r r' : BondResult) → SameKind r r' → key_verdict false r ≡ key_verdict false r'
key_verdict-eq (ok irk) (ok irk') h = refl
key_verdict-eq (ok irk) (err e) h = absurd h
key_verdict-eq (err e) (ok irk) h = absurd h
key_verdict-eq (err e) (err e') h = ap (λ x. key_verdict false (err x)) h

-- Without --show-keys, two bond records that differ only in the `Key` of sections that hold key
-- material, with values of one length and the same verdict on the identity key, print the same: of a
-- key only its length is printed, and of the identity key whether there is one and it is well formed.
pub bond_report-eq :
    (identity text text' : Str)
    → SameSections (bond_sections text) (bond_sections text')
    → SameKind (parse_bluez_info_irk text) (parse_bluez_info_irk text')
    → bond_report false identity (some text) ≡ bond_report false identity (some text')
unfolding bond_report
bond_report-eq identity text text' sections kind =
    let printed = print_sections-eq (bond_sections text) (bond_sections text') sections in
    let verdict = key_verdict-eq (parse_bluez_info_irk text) (parse_bluez_info_irk text') kind in
    λ i. record { identity = identity; sections = printed i; verdict = verdict i }

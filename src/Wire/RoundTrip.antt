-- ===== src/Wire/RoundTrip.antt =====
-- What the daemon prints, a client reads back.
use omarchy_presence_unlock.Base.{
  ℕ, suc, ◌≡◌, refl, ap, ◌∙◌, true, false, List, [], ◌∷◌, ◌++◌, append_assoc, Option, none, some,
  Str, codes, str_eq, strip_prefix, strip_prefix-append, words, words_space, words_end,
  strip_newline, strip_newline-append, IsWord, IsSolid, All, All-append, arith, is_ascii_whitespace,
  All-map, ◌≢◌,
}
use omarchy_presence_unlock.Base.Int.{ℤ, pos, negsuc}
use omarchy_presence_unlock.Numbers.{print_i16, decimal}
use omarchy_presence_unlock.Numbers.RoundTrip.{IsI16, IsDigit, decimal-IsDigit, parse_i16-print_i16}
use omarchy_presence_unlock.Presence
use omarchy_presence_unlock.Presence.{Decision, is_allow}
use omarchy_presence_unlock.Wire.{newline}
use omarchy_presence_unlock.Wire.Row.{
  device_status, device_row, print_rssi, parse_rssi, read_value, parse_fields, parse_device_status,
}

abbrev pub rssi_word : Option ℤ → Str
rssi_word rssi = codes "rssi=" ++ print_rssi rssi

digit_solid : (c : ℕ) → IsDigit c → is_ascii_whitespace c ≡ false
digit_solid c h = ground arith

print_i16-IsSolid : (x : ℤ) → IsSolid (print_i16 x)
unfolding print_i16
print_i16-IsSolid (pos n) = All-map _ _ (decimal n) digit_solid (decimal-IsDigit n).0
print_i16-IsSolid (negsuc n) =
    (refl, All-map _ _ (decimal (suc n)) digit_solid (decimal-IsDigit (suc n)).0)

pub rssi_word-IsWord : (rssi : Option ℤ) → IsWord (rssi_word rssi)
rssi_word-IsWord rssi = record {
  nonempty = cc;
  solid =
      All-append _ (codes "rssi=") (print_rssi rssi) (refl, (refl, (refl, (refl, (refl, tt)))))
        (solid rssi);
}
  where
    solid : (o : Option ℤ) → IsSolid (print_rssi o)
    solid none = (refl, tt)
    solid (some x) = print_i16-IsSolid x

-- An RSSI that an `i16` can hold, where there is one.
abbrev pub Fits : Option ℤ → Type 0
Fits none = Unit
Fits (some x) = IsI16 x

digits-ne-dash : (s : Str) → All IsDigit s × (s ≢ []) → str_eq s (codes "-") ≡ false
unfolding str_eq
digits-ne-dash [] h = absurd (h.1 refl)
digits-ne-dash (c ∷ s) ((d, ds), ne) = ground arith

str_eq_nil : (s : Str) → s ≢ [] → str_eq s [] ≡ false
unfolding str_eq
str_eq_nil [] h = absurd (h refl)
str_eq_nil (c ∷ s) h = refl

-- No printed number is a lone dash.
print_i16-ne-dash : (x : ℤ) → str_eq (print_i16 x) (codes "-") ≡ false
unfolding print_i16 str_eq
print_i16-ne-dash (pos n) = digits-ne-dash (decimal n) (decimal-IsDigit n)
print_i16-ne-dash (negsuc n) = str_eq_nil (decimal (suc n)) (decimal-IsDigit (suc n)).1

parse_rssi_word : (rssi : Option ℤ) → Fits rssi → parse_rssi (rssi_word rssi) ≡ some rssi
unfolding parse_rssi
parse_rssi_word none h = unfold strip_prefix str_eq in refl
parse_rssi_word (some x) h =
    ap read_value (strip_prefix-append (codes "rssi=") (print_i16 x))
    ∙ rw (print_i16-ne-dash x) (rw (parse_i16-print_i16 x h))

-- What `status` prints of a decision (crates/daemon/src/control.rs), and what a client keeps of it.
abbrev pub decision_words : Decision → List Str
decision_words Presence.allow = codes "ALLOW" ∷ []
decision_words (Presence.deny r) = codes "DENY" ∷ r ∷ []

abbrev pub reason_of : Decision → Option Str
reason_of Presence.allow = none
reason_of (Presence.deny r) = some r

abbrev pub ReasonIsWord : Decision → Type 0
ReasonIsWord Presence.allow = Unit
ReasonIsWord (Presence.deny r) = IsWord r

abbrev word : (s : Str) → s ≢ [] → IsSolid s → IsWord s
word s h k = record { nonempty = h; solid = k }

device_tag-IsWord : IsWord (codes "DEVICE")
device_tag-IsWord = word _ (cc) (refl, (refl, (refl, (refl, (refl, (refl, tt))))))

allow_tag-IsWord : IsWord (codes "ALLOW")
allow_tag-IsWord = word _ (cc) (refl, (refl, (refl, (refl, (refl, tt)))))

deny_tag-IsWord : IsWord (codes "DENY")
deny_tag-IsWord = word _ (cc) (refl, (refl, (refl, (refl, tt))))

abbrev pub decision_text : Decision → Str
decision_text Presence.allow = codes "ALLOW"
decision_text (Presence.deny r) = codes "DENY " ++ r

-- The words of a row's tail: the decision, then the RSSI.
words_tail :
    (d : Decision) (rssi : Option ℤ)
    → ReasonIsWord d
    → words (decision_text d ++ (32 ∷ rssi_word rssi)) ≡ decision_words d ++ rssi_word rssi ∷ []
words_tail Presence.allow rssi h =
    words_space (codes "ALLOW") (rssi_word rssi) allow_tag-IsWord
    ∙ ap (◌∷◌ (codes "ALLOW")) (words_end (rssi_word rssi) (rssi_word-IsWord rssi))
words_tail (Presence.deny r) rssi h =
    words_space (codes "DENY") (r ++ (32 ∷ rssi_word rssi)) deny_tag-IsWord
    ∙ ap (◌∷◌ (codes "DENY")) (
        words_space r (rssi_word rssi) h
        ∙ ap (◌∷◌ r) (words_end (rssi_word rssi) (rssi_word-IsWord rssi)))

-- A row without its newline.
abbrev pub row_text : Str → Str → Decision → Option ℤ → Str
row_text id profile d rssi =
    codes "DEVICE"
    ++ (32 ∷ (id ++ (32 ∷ (profile ++ (32 ∷ (decision_text d ++ (32 ∷ rssi_word rssi)))))))

pub words_row :
    (id profile : Str) (d : Decision) (rssi : Option ℤ)
    → IsWord id
    → IsWord profile
    → ReasonIsWord d
    → words (row_text id profile d rssi)
      ≡ codes "DEVICE" ∷ id ∷ profile ∷ (decision_words d ++ rssi_word rssi ∷ [])
words_row id profile d rssi hi hp hd =
    words_space (codes "DEVICE") _ device_tag-IsWord
    ∙ ap (◌∷◌ (codes "DEVICE")) (
        words_space id _ hi
        ∙ ap (◌∷◌ id) (words_space profile _ hp ∙ ap (◌∷◌ profile) (words_tail d rssi hd)))

-- The printed line is the row with a newline behind it.
pub device_status_row :
    (id profile : Str) (d : Decision) (rssi : Option ℤ)
    → device_status id profile (decision_text d) rssi ≡ row_text id profile d rssi ++ newline
unfolding device_status
device_status_row id profile d rssi = simp append_assoc

pub parse_row :
    (id profile : Str) (d : Decision) (rssi : Option ℤ)
    → Fits rssi
    → parse_fields (codes "DEVICE" ∷ id ∷ profile ∷ (decision_words d ++ rssi_word rssi ∷ []))
      ≡ some (record {
        id = id;
        profile = profile;
        allowed = is_allow d;
        reason = reason_of d;
        rssi = rssi;
      })
unfolding parse_fields str_eq
parse_row id profile Presence.allow rssi h =
    ap (device_row id profile true none) (parse_rssi_word rssi h)
parse_row id profile (Presence.deny r) rssi h =
    ap (device_row id profile false (some r)) (parse_rssi_word rssi h)

-- Every row that the daemon prints is read back as it was meant: for an id, a profile name and a
-- reason that are words and an RSSI that an `i16` holds, parsing the printed row gives the id, the
-- profile, whether the device is allowed, the reason if it is not, and the RSSI.
pub parse_device_status-device_status :
    (id profile : Str) (d : Decision) (rssi : Option ℤ)
    → IsWord id
    → IsWord profile
    → ReasonIsWord d
    → Fits rssi
    → parse_device_status (device_status id profile (decision_text d) rssi)
      ≡ some (record {
        id = id;
        profile = profile;
        allowed = is_allow d;
        reason = reason_of d;
        rssi = rssi;
      })
unfolding parse_device_status
parse_device_status-device_status id profile d rssi hi hp hd hr =
    ap (λ l. parse_fields (words (strip_newline l))) (device_status_row id profile d rssi)
    ∙ ap (λ l. parse_fields (words l)) (strip_newline-append (row_text id profile d rssi))
    ∙ ap parse_fields (words_row id profile d rssi hi hp hd)
    ∙ parse_row id profile d rssi hr

-- ===== src/Wire/Row.antt =====
-- The rows of a STATUS answer, as the daemon prints them and a client parses them, and the aggregate
-- line.
use omarchy_presence_unlock.Base.{
  Bool, true, false, List, [], ◌∷◌, ◌++◌, Option, none, some, Str, codes, str_eq, strip_prefix,
  words, strip_newline, if◌then◌else◌,
}
use omarchy_presence_unlock.Base.Int.{ℤ}
use omarchy_presence_unlock.Numbers.{parse_i16, print_i16}
use omarchy_presence_unlock.Wire.{newline}

abbrev pub space : Str
space = codes " "

abbrev pub print_rssi : Option ℤ → Str
print_rssi (some dbm) = print_i16 dbm
print_rssi none = codes "-"

-- `device_status`
unfoldable pub device_status : Str → Str → Str → Option ℤ → Str
device_status id profile decision rssi =
    codes "DEVICE "
    ++ (id
        ++ (space
            ++ (profile
                ++ (space ++ (decision ++ (codes " rssi=" ++ (print_rssi rssi ++ newline)))))))

pub record DeviceRow : Type 0 where
  pub id : Str
  pub profile : Str
  pub allowed : Bool
  pub reason : Option Str
  pub rssi : Option ℤ

-- What stands behind `rssi=`: a dash, or a number.
abbrev pub present : Option ℤ → Option (Option ℤ)
present none = none
present (some dbm) = some (some dbm)

abbrev pub read_value : Option Str → Option (Option ℤ)
read_value none = none
read_value (some value) = if str_eq value (codes "-") then some none else present (parse_i16 value)

unfoldable pub parse_rssi : Str → Option (Option ℤ)
parse_rssi text = read_value (strip_prefix (codes "rssi=") text)

abbrev pub device_row : Str → Str → Bool → Option Str → Option (Option ℤ) → Option DeviceRow
device_row id profile allowed reason none = none
device_row id profile allowed reason (some rssi) =
    some (record { id = id; profile = profile; allowed = allowed; reason = reason; rssi = rssi })

-- The fields behind the decision word: `fields.next()?`, and nothing more.
unfoldable pub parse_last : Str → Str → Bool → Option Str → List Str → Option DeviceRow
parse_last id profile allowed reason (rssi ∷ []) =
    device_row id profile allowed reason (parse_rssi rssi)
parse_last id profile allowed reason other = none

unfoldable pub parse_denied : Str → Str → List Str → Option DeviceRow
parse_denied id profile [] = none
parse_denied id profile (reason ∷ rest) = parse_last id profile false (some reason) rest

unfoldable pub parse_fields : List Str → Option DeviceRow
unfolding parse_last parse_denied parse_rssi
parse_fields (tag ∷ id ∷ profile ∷ decision ∷ rest) =
    if str_eq tag (codes "DEVICE")
    then (if str_eq decision (codes "ALLOW")
        then parse_last id profile true none rest
        else if str_eq decision (codes "DENY")
        then parse_denied id profile rest
        else none)
    else none
parse_fields other = none

unfoldable pub parse_device_status : Str → Option DeviceRow
unfolding parse_fields
parse_device_status line = parse_fields (words (strip_newline line))

-- The aggregate line, as a client reads it.
pub data Aggregate : Type 0 where
  allow : Aggregate
  deny : Str → Aggregate

unfoldable pub parse_aggregate : List Str → Option Aggregate
parse_aggregate [] = none
parse_aggregate (tag ∷ []) = if str_eq tag (codes "ALLOW") then some allow else none
parse_aggregate (tag ∷ reason ∷ []) = if str_eq tag (codes "DENY") then some (deny reason) else none
parse_aggregate (tag ∷ reason ∷ more ∷ rest) = none

-- `parse_decision`
unfoldable pub parse_decision : Str → Option Aggregate
unfolding parse_aggregate
parse_decision line = parse_aggregate (words (strip_newline line))

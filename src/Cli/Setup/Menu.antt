-- ===== src/Cli/Setup/Menu.antt =====
-- crates/cli/src/setup/menu.rs: the rows in the user's menu file, between their markers. The file is
-- edited as a text, whose comments and texts a scanner tells from its entries.
use omarchy_presence_unlock.Base.{
  ℕ, Bool, true, false, not, ◌&&◌, ◌||◌, List, [], ◌∷◌, ◌++◌, Option, none, some, Str, codes,
  length, ltb, is_whitespace, if◌then◌else◌, ◌==◌,
}
use omarchy_presence_unlock.Config.Device.{named_map}
use omarchy_presence_unlock.Cli.Setup.Markers.{Place, starts_with, behind, find_text, newline}

abbrev block_start : Str
block_start = codes "// omarchy-presence-unlock:menu:start"

abbrev block_end : Str
block_end = codes "// omarchy-presence-unlock:menu:end"

abbrev quote : ℕ
quote = 34

abbrev backslash : ℕ
backslash = 92

-- `APPLIED`, and the condition of a row, with the negation if it is to be shown before setup.
abbrev applied : Str
applied =
    codes
      "grep -qsF 'omarchy-presence-unlock:presence' \"$HOME/.config/omarchy/plugins/${USER}.lock/Service.qml\""

abbrev presence_when : Bool → Str
presence_when is_applied =
    codes "command -v omarchy-presence-unlock >/dev/null && "
    ++ (if is_applied then applied else codes "! " ++ applied)

-- `replace('"', "\\\"")`
unfoldable pub escape_quotes : Str → Str
escape_quotes [] = []
escape_quotes (c ∷ s) =
    let rest = escape_quotes s in if c == quote then backslash ∷ quote ∷ rest else c ∷ rest

abbrev joined : List Str → Str
joined [] = []
joined (piece ∷ pieces) = piece ++ joined pieces

abbrev row : Str → Str → Bool → Str → Str
row id description is_applied command = joined (
    codes "  \""
    ∷ id
    ∷ codes "\": {\"icon\":\""
    ∷ (0xf0990 ∷ codes "\",\"label\":\"Presence Unlock\",\"description\":\"")
    ∷ description
    ∷ codes "\",\"when\":\""
    ∷ escape_quotes (presence_when is_applied)
    ∷ codes "\",\"action\":\"omarchy-launch-floating-terminal-with-presentation "
    ∷ command
    ∷ codes "\"}"
    ∷ [])

abbrev line : Str → Str
line s = s ++ newline ∷ []

unfoldable pub block : Str
unfolding escape_quotes
block = joined (
    line (codes "  " ++ block_start)
    ∷ row (codes "setup.security.presence")
        (codes "Set up unlocking with a trusted Bluetooth device") false
        (codes "omarchy-presence-unlock setup")
    ∷ line (codes ",")
    ∷ row (codes "setup.security.presence-manage")
        (codes "Enroll a trusted device, manage presence unlock, and run diagnostics") true
        (codes "omarchy-presence-unlock")
    ∷ line (codes ",")
    ∷ line (
        row (codes "remove.security.presence")
          (codes "Remove presence unlock and restore Omarchy's own lock screen") true
          (codes "omarchy-presence-unlock uninstall"))
    ∷ line (codes "  " ++ block_end)
    ∷ [])

-- Where the scanner of `last_meaningful` is: in a block comment, with the character before.
pub data Mode : Type 0 where
  plain in_string escaped line_comment : Mode
  block_comment : ℕ → Mode

-- A slash that begins a comment, by what is behind it.
abbrev pub opens_line : ℕ → Str → Bool
opens_line c s = c == b'/' && starts_with (codes "/") s

abbrev pub opens_block : ℕ → Str → Bool
opens_block c s = c == b'/' && starts_with (codes "*") s

abbrev pub next_mode : Mode → ℕ → Str → Mode
next_mode plain c s =
    if c == quote
    then in_string
    else if opens_line c s
    then line_comment
    else if opens_block c s
    then block_comment b' '
    else plain
next_mode in_string c s =
    if c == backslash then escaped else if c == quote then plain else in_string
next_mode escaped c s = in_string
next_mode line_comment c s = if c == newline then plain else line_comment
next_mode (block_comment previous) c s =
    if previous == b'*' && c == b'/' then plain else block_comment c

abbrev pub is_meaningful : Mode → ℕ → Str → Bool
is_meaningful plain c s = not (opens_line c s) && not (opens_block c s) && not (is_whitespace c)
is_meaningful in_string c s = c == quote
is_meaningful escaped c s = false
is_meaningful line_comment c s = false
is_meaningful (block_comment previous) c s = false

-- The place of the last character that is neither blank nor comment, nor inside a text.
unfoldable pub last_from : Mode → Str → Str → Option Place → Option Place
last_from mode passed [] found = found
last_from mode passed (c ∷ s) found =
    last_from (next_mode mode c s) (passed ++ c ∷ []) s
      (if is_meaningful mode c s then some (passed, c ∷ s) else found)

unfoldable pub last_meaningful : Str → Option Place
unfolding last_from
last_meaningful source = last_from plain [] source none

abbrev or_place : Option Place → Option Place → Option Place
or_place none other = other
or_place (some place) other = some place

-- `rfind` of a character
unfoldable pub find_last : ℕ → Str → Option Place
find_last c [] = none
find_last c (d ∷ s) =
    or_place (named_map (behind (d ∷ [])) (find_last c s))
      (if d == c then some ([], d ∷ s) else none)

-- The text up to the start of its last line, and from behind its first one.
abbrev pub up_to_line : Option Place → Str
up_to_line none = []
up_to_line (some (before, from)) = before ++ newline ∷ []

unfoldable pub behind_line : Str → Str
behind_line [] = []
behind_line (c ∷ s) = let rest = behind_line s in if c == newline then s else rest

-- A comma that is the last meaningful character before the closing brace goes.
abbrev pub cut_comma : Str → Option Place → Str
cut_comma head none = head
cut_comma head (some (before, [])) = head
cut_comma head (some (before, c ∷ s)) = if c == b',' then before ++ s else head

abbrev pub cut_at_brace : Str → Option Place → Str
cut_at_brace rendered none = rendered
cut_at_brace rendered (some (head, rest)) = cut_comma head (last_meaningful head) ++ rest

abbrev pub without_comma : Str → Str
without_comma rendered = cut_at_brace rendered (find_last b'}' rendered)

abbrev pub removal_at : Str → Option Place → Option Place → Option Str
removal_at source none end = some source
removal_at source (some start) none = some source
removal_at source (some (before, from)) (some (before', end)) =
    if ltb (length before') (length before)
    then none
    else some (without_comma (up_to_line (find_last newline before) ++ behind_line end))

unfoldable pub render_removal : Str → Option Str
unfolding find_text find_last last_meaningful behind_line
render_removal source =
    removal_at source (find_text block_start source) (find_text block_end source)

-- The entry that is the last so far gets its comma, unless it has one or there is none.
abbrev pub close_entry : Str → Option Place → Str
close_entry head none = head
close_entry head (some (before, [])) = head
close_entry head (some (before, c ∷ s)) =
    if c == b'{' || c == b',' then head else before ++ c ∷ b',' ∷ s

-- The block goes to the start of the line with the closing brace.
abbrev pub insert_at : Str → Str → Option Place → Str
insert_at head rest none = head ++ (block ++ rest)
insert_at head rest (some (before, [])) = head ++ (block ++ rest)
insert_at head rest (some (before, c ∷ s)) = before ++ c ∷ (block ++ (s ++ rest))

abbrev pub insert_block : Option Place → Option Str
insert_block none = none
insert_block (some (head, rest)) = some (insert_at head rest (find_last newline head))

abbrev pub closed_entry : Option Place → Option Str
closed_entry none = none
closed_entry (some (head, rest)) =
    insert_block (find_last b'}' (close_entry head (last_meaningful head) ++ rest))

abbrev pub entry_of : Option Str → Option Str
entry_of none = none
entry_of (some removed) = closed_entry (find_last b'}' removed)

unfoldable pub render_entry : Str → Option Str
unfolding render_removal find_last last_meaningful block
render_entry source = entry_of (render_removal source)

-- ===== src/Cli/Client.antt =====
-- crates/cli/src/client.rs: the client of the control socket. What arrives before the daemon closes the
-- connection is a text; a socket that is not reached, a timeout and bytes that are no text are errors.
pub mod Status
mod Tests
use omarchy_presence_unlock.Base.{
  ℕ, Bool, true, false, List, [], ◌∷◌, ◌++◌, Option, none, some, Str, codes, str_eq, if◌then◌else◌,
  trim_end,
}
use omarchy_presence_unlock.Wire.{resp_end}
use omarchy_presence_unlock.Cli.Setup.Binding.{lines_from}

abbrev pub before_line : Str → Option (List Str) → Option (List Str)
before_line line none = none
before_line line (some lines) = some (line ∷ lines)

-- The loop over the lines, up to the terminator.
unfoldable pub until_end : List Str → Option (List Str)
unfolding trim_end
until_end [] = none
until_end (line ∷ lines) =
    let rest = until_end lines in
    if str_eq line (trim_end resp_end) then some [] else before_line line rest

unfoldable pub request_lines : Str → Option (List Str)
unfolding until_end lines_from
request_lines arrived = until_end (lines_from [] arrived)

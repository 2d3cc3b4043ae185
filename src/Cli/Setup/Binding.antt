-- ===== src/Cli/Setup/Binding.antt =====
-- crates/cli/src/setup/binding.rs: the block of the key binding between its markers, in a text that is
-- the user's.
use omarchy_presence_unlock.Base.{
  Bool, true, false, not, ◌&&◌, List, [], ◌∷◌, ◌++◌, map, Option, none, some, Str, codes, drop,
  length, ltb, str_eq, retain, any, if◌then◌else◌, ◌==◌, trim, trim_end,
}
use omarchy_presence_unlock.Cli.Setup.Markers.{Place, find_text, matches, newline}

abbrev pub block_start : Str
block_start = codes "-- omarchy-presence-unlock:start"

abbrev pub block_end : Str
block_end = codes "-- omarchy-presence-unlock:end"

abbrev pub unlines : List Str → Str
unlines [] = []
unlines (line ∷ lines) = line ++ (newline ∷ unlines lines)

-- What is between the markers.
abbrev pub block_body : Str
block_body =
    newline
    ∷ unlines (
        codes "for _, presence_key in ipairs({ \"ALT_L\", \"ALT_R\" }) do"
        ∷ codes
            "  o.bind(presence_key, \"Presence unlock\", \"omarchy-shell -q presence-unlock hold\", {"
        ∷ codes "    locked = true,"
        ∷ codes "    ignore_mods = true,"
        ∷ codes "    non_consuming = true,"
        ∷ codes "  })"
        ∷ codes
            "  o.bind(\"ALT + \" .. presence_key, \"Presence unlock release\", \"omarchy-shell -q presence-unlock release\", {"
        ∷ codes "    locked = true,"
        ∷ codes "    release = true,"
        ∷ codes "    non_consuming = true,"
        ∷ codes "  })"
        ∷ codes "end"
        ∷ [])

abbrev pub block : Str
block = block_start ++ (block_body ++ block_end)

-- `ends_with('\n')` and `ends_with("\n\n")`
unfoldable pub ends_with_newline : Str → Bool
ends_with_newline [] = false
ends_with_newline (c ∷ []) = c == newline
ends_with_newline (c ∷ d ∷ s) = ends_with_newline (d ∷ s)

unfoldable pub ends_with_blank_line : Str → Bool
ends_with_blank_line [] = false
ends_with_blank_line (c ∷ []) = false
ends_with_blank_line (c ∷ d ∷ []) = c == newline && d == newline
ends_with_blank_line (c ∷ d ∷ e ∷ s) = ends_with_blank_line (d ∷ e ∷ s)

abbrev pub is_nonempty : Str → Bool
is_nonempty [] = false
is_nonempty (c ∷ s) = true

-- The lines in front of a new block, closed and followed by a blank line.
abbrev pub closed : Str → Str
closed s = if is_nonempty s && not (ends_with_newline s) then s ++ newline ∷ [] else s

abbrev pub spaced : Str → Str
spaced s = if is_nonempty s && not (ends_with_blank_line s) then s ++ newline ∷ [] else s

-- The two lists of places in `render`: none, one of each in order, or anything else.
abbrev pub render_at : Str → List Place → List Place → Option Str
render_at source [] [] = some (spaced (closed source) ++ (block ++ newline ∷ []))
render_at source [] (end ∷ ends) = none
render_at source (start ∷ starts) [] = none
render_at source ((before, from) ∷ []) ((before', end) ∷ []) =
    if ltb (length before) (length before')
    then some (before ++ (block ++ drop (length block_end) end))
    else none
render_at source (start ∷ []) (end ∷ end' ∷ ends) = none
render_at source (start ∷ start' ∷ starts) (end ∷ ends) = none

unfoldable pub render : Str → Option Str
unfolding matches ends_with_newline ends_with_blank_line
render source = render_at source (matches block_start 0 source) (matches block_end 0 source)

abbrev pub remove_at : Str → Option Place → Option Place → Option Str
remove_at source none end = some source
remove_at source (some start) none = some source
remove_at source (some (before, from)) (some (before', end)) =
    if ltb (length before') (length before)
    then none
    else some (trim_end (before ++ drop (length block_end) end) ++ newline ∷ [])

-- The edit of `remove`.
unfoldable pub remove : Str → Option Str
unfolding find_text trim_end
remove source = remove_at source (find_text block_start source) (find_text block_end source)

-- `lines`, of a text: the end of the last line may be missing, and a carriage return goes with it.
abbrev pub without_return : Str → Str
without_return [] = []
without_return (c ∷ []) = if c == 13 then [] else c ∷ []
without_return (c ∷ d ∷ s) = c ∷ without_return (d ∷ s)

abbrev pub last_line : Str → List Str
last_line [] = []
last_line (c ∷ s) = (c ∷ s) ∷ []

unfoldable pub lines_from : Str → Str → List Str
lines_from cur [] = last_line cur
lines_from cur (c ∷ s) =
    let next = lines_from [] s in
    let more = lines_from (cur ++ c ∷ []) s in
    if c == newline then without_return cur ∷ next else more

-- `new_errors`
unfoldable pub new_errors : Str → Str → List Str
unfolding lines_from trim
new_errors before after =
    retain
      (λ line. is_nonempty line && not (any (λ old. str_eq (trim old) line) (lines_from [] before)))
      (map trim (lines_from [] after))

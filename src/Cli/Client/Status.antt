-- ===== src/Cli/Client/Status.antt =====
-- The status that the daemon prints, as a client reads it.
use omarchy_presence_unlock.Base.{
  ℕ, ◌≡◌, refl, ap, ◌∙◌, false, List, [], ◌∷◌, ◌++◌, map, append_assoc, append-nil, some, Str,
  codes, str_eq, All, All-append, All-map, ◌==◌, is_ascii_whitespace, IsWord, words, strip_newline,
  arith,
}
use omarchy_presence_unlock.Presence
use omarchy_presence_unlock.Presence.{Decision, is_allow}
use omarchy_presence_unlock.Fleet.{Fleet, DeviceStatus, check, report}
use omarchy_presence_unlock.Wire.{newline, resp_end, deny}
use omarchy_presence_unlock.Wire.Row.{DeviceRow, parse_device_status, parse_fields}
use omarchy_presence_unlock.Wire.RoundTrip.{
  row_text, device_status_row, words_row, parse_row, rssi_word, rssi_word-IsWord, decision_text,
  ReasonIsWord, reason_of, Fits,
}
use omarchy_presence_unlock.Daemon.Control.{render, status_rows, status}
use omarchy_presence_unlock.Cli.Setup.Binding.{lines_from, without_return}
use omarchy_presence_unlock.Cli.Client.{before_line, until_end, request_lines}

-- A character that ends no line.
abbrev IsInner : ℕ → Type 0
IsInner c = ((c == 10) ≡ false) × ((c == 13) ≡ false)

abbrev IsInnerText : Str → Type 0
IsInnerText = All IsInner

solid-IsInner : (c : ℕ) → is_ascii_whitespace c ≡ false → IsInner c
solid-IsInner c h = (ground arith, ground arith)

word-IsInnerText : (s : Str) → IsWord s → IsInnerText s
word-IsInnerText s w = All-map (λ c. is_ascii_whitespace c ≡ false) IsInner s solid-IsInner w.solid

lines_from-append :
    (cur s rest : Str)
    → IsInnerText s
    → lines_from cur (s ++ (10 ∷ rest)) ≡ without_return (cur ++ s) ∷ lines_from [] rest
unfolding lines_from
lines_from-append cur [] rest h = rw append-nil refl
lines_from-append cur (c ∷ s) rest ((other, _), h) =
    rw other (lines_from-append (cur ++ c ∷ []) s rest h ∙ rw append_assoc refl)

without_return_same : (s : Str) → IsInnerText s → without_return s ≡ s
without_return_same [] h = refl
without_return_same (c ∷ []) ((_, other), h) = rw other refl
without_return_same (c ∷ d ∷ s) (_, h) = ap (◌∷◌ c) (without_return_same (d ∷ s) h)

line : (s rest : Str) → IsInnerText s → lines_from [] (s ++ (10 ∷ rest)) ≡ s ∷ lines_from [] rest
line s rest h =
    lines_from-append [] s rest h ∙ ap (λ l. l ∷ lines_from [] rest) (without_return_same s h)

strip_newline_same : (s : Str) → IsInnerText s → strip_newline s ≡ s
unfolding strip_newline
strip_newline_same [] h = refl
strip_newline_same (c ∷ []) ((other, _), h) = rw other refl
strip_newline_same (c ∷ d ∷ s) (_, h) = ap (◌∷◌ c) (strip_newline_same (d ∷ s) h)

-- The line of a row, and of the decision of the fleet.
abbrev pub row_line : DeviceStatus → Str
row_line row = row_text row.id row.profile.id row.decision row.rssi

abbrev pub IsPlain : DeviceStatus → Type 0
IsPlain row = IsWord row.id × IsWord row.profile.id × ReasonIsWord row.decision × Fits row.rssi

decision-IsInnerText : (d : Decision) → ReasonIsWord d → IsInnerText (decision_text d)
decision-IsInnerText Presence.allow h =
    ((refl, refl), ((refl, refl), ((refl, refl), ((refl, refl), ((refl, refl), tt)))))
decision-IsInnerText (Presence.deny r) h = (
  (refl, refl),
  ((refl, refl), ((refl, refl), ((refl, refl), ((refl, refl), word-IsInnerText r h)))),
)

space-IsInnerText : (s : Str) → IsInnerText s → IsInnerText (32 ∷ s)
space-IsInnerText s h = ((refl, refl), h)

row-IsInnerText : (row : DeviceStatus) → IsPlain row → IsInnerText (row_line row)
row-IsInnerText row (id, profile, reason, fits) =
    let last : Str = rssi_word row.rssi in
    let from_decision : Str = decision_text row.decision ++ (32 ∷ last) in
    let from_profile : Str = row.profile.id ++ (32 ∷ from_decision) in
    let from_id : Str = row.id ++ (32 ∷ from_profile) in
    All-append IsInner (codes "DEVICE") (32 ∷ from_id)
      (
        (refl, refl),
        ((refl, refl), ((refl, refl), ((refl, refl), ((refl, refl), ((refl, refl), tt))))),
      )
      (space-IsInnerText from_id (
        All-append IsInner row.id (32 ∷ from_profile) (word-IsInnerText row.id id) (
          space-IsInnerText from_profile (
            All-append IsInner row.profile.id (32 ∷ from_decision)
              (word-IsInnerText row.profile.id profile)
              (space-IsInnerText from_decision (
                All-append IsInner (decision_text row.decision) (32 ∷ last)
                  (decision-IsInnerText row.decision reason)
                  (space-IsInnerText last (word-IsInnerText last (rssi_word-IsWord row.rssi)))))))))

-- No row and no decision is the terminator.
until_end-row :
    (row : DeviceStatus) (lines : List Str)
    → until_end (row_line row ∷ lines) ≡ before_line (row_line row) (until_end lines)
unfolding until_end str_eq
until_end-row row lines = refl

until_end-decision :
    (d : Decision) → until_end (decision_text d ∷ codes "END" ∷ []) ≡ some (decision_text d ∷ [])
unfolding until_end str_eq
until_end-decision Presence.allow = refl
until_end-decision (Presence.deny r) = refl

render_line : (d : Decision) → render d ≡ decision_text d ++ newline
unfolding render deny
render_line Presence.allow = refl
render_line (Presence.deny r) = refl

tail :
    (d : Decision)
    → ReasonIsWord d
    → until_end (lines_from [] (render d ++ resp_end)) ≡ some (decision_text d ∷ [])
unfolding lines_from
tail d h =
    ap (λ r. until_end (lines_from [] (r ++ resp_end))) (render_line d)
    ∙ ap (λ t. until_end (lines_from [] t)) (append_assoc (decision_text d) newline resp_end)
    ∙ ap until_end (line (decision_text d) resp_end (decision-IsInnerText d h))
    ∙ until_end-decision d

rows :
    (list : List DeviceStatus) (d : Decision)
    → All IsPlain list
    → ReasonIsWord d
    → until_end (lines_from [] (status_rows list ++ (render d ++ resp_end)))
      ≡ some (map row_line list ++ decision_text d ∷ [])
unfolding status_rows
rows [] d h reason = tail d reason
rows (row ∷ list) d (plain, h) reason =
    let rest = status_rows list ++ (render d ++ resp_end) in
    let first = device_status_row row.id row.profile.id row.decision row.rssi in
    ap (λ t. until_end (lines_from [] ((t ++ status_rows list) ++ (render d ++ resp_end)))) first
    ∙ ap (λ t. until_end (lines_from [] t))
        (append_assoc (row_line row ++ newline) (status_rows list) (render d ++ resp_end)
          ∙ append_assoc (row_line row) newline rest)
    ∙ ap until_end (line (row_line row) rest (row-IsInnerText row plain))
    ∙ until_end-row row (lines_from [] rest)
    ∙ ap (before_line (row_line row)) (rows list d h reason)

-- What a client makes of a row.
abbrev pub row_of : DeviceStatus → DeviceRow
row_of row = record {
  id = row.id;
  profile = row.profile.id;
  allowed = is_allow row.decision;
  reason = reason_of row.decision;
  rssi = row.rssi;
}

read_row :
    (row : DeviceStatus) → IsPlain row → parse_device_status (row_line row) ≡ some (row_of row)
unfolding parse_device_status
read_row row (id, profile, reason, fits) =
    ap (λ l. parse_fields (words l))
      (strip_newline_same (row_line row) (row-IsInnerText row (id, profile, reason, fits)))
    ∙ ap parse_fields (words_row row.id row.profile.id row.decision row.rssi id profile reason)
    ∙ parse_row row.id row.profile.id row.decision row.rssi fits

read_rows :
    (list : List DeviceStatus)
    → All IsPlain list
    → All (λ row. parse_device_status (row_line row) ≡ some (row_of row)) list
read_rows list h = All-map IsPlain _ list read_row h

-- A client that is sent the status of a fleet reads one line for each device, in their order, and the
-- decision of the fleet, and parses each of the rows to the device's id, profile, decision and signal
-- strength, if ids, profiles and reasons are words and the signal strengths fit their type.
pub request_lines-status :
    (f : Fleet) (now : ℕ)
    → All IsPlain (report f now)
    → ReasonIsWord (check f now)
    → (request_lines (status f now)
        ≡ some (map row_line (report f now) ++ decision_text (check f now) ∷ []))
      × All (λ row. parse_device_status (row_line row) ≡ some (row_of row)) (report f now)
unfolding request_lines status
request_lines-status f now plain reason =
    (rows (report f now) (check f now) plain reason, read_rows (report f now) plain)

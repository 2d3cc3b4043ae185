-- ===== src/Cli/Client/Tests.antt =====
-- The status of a fleet with one device that was never seen.
use omarchy_presence_unlock.Base.{◌≡◌, refl, [], ◌∷◌, ◌++◌, map, All, codes, IsWord, some, str_eq}
use omarchy_presence_unlock.Identity.{from_address}
use omarchy_presence_unlock.Profile.{presence}
use omarchy_presence_unlock.Presence
use omarchy_presence_unlock.Presence.{default_policy, rank}
use omarchy_presence_unlock.Fleet.{
  DeviceSpec, Fleet, any_device, required, new, new_device, survey, survey_step, conclude, check,
  check_device, report,
}
use omarchy_presence_unlock.Wire.Row.{parse_device_status}
use omarchy_presence_unlock.Wire.RoundTrip.{decision_text, ReasonIsWord}
use omarchy_presence_unlock.Daemon.Control.{status}
use omarchy_presence_unlock.Cli.Client.{request_lines}
use omarchy_presence_unlock.Cli.Client.Status.{row_line, row_of, IsPlain, request_lines-status}

abbrev tag : DeviceSpec
unfolding from_address
tag = record {
  id = codes "tag";
  identity = from_address (1 ∷ 2 ∷ 3 ∷ 4 ∷ 5 ∷ 6 ∷ []);
  profile = presence;
  policy = default_policy;
}

abbrev fleet : Fleet
unfolding new tag
fleet = new (tag ∷ []) any_device

tag-IsWord : IsWord (codes "tag")
tag-IsWord = record { nonempty = cc; solid = (refl, (refl, (refl, tt))) }

presence-IsWord : IsWord (codes "presence")
presence-IsWord = record {
  nonempty = cc;
  solid = (refl, (refl, (refl, (refl, (refl, (refl, (refl, (refl, tt))))))));
}

no_device-IsWord : IsWord (codes "no-device")
no_device-IsWord = record {
  nonempty = cc;
  solid = (refl, (refl, (refl, (refl, (refl, (refl, (refl, (refl, (refl, tt)))))))));
}

plain : All IsPlain (report fleet 100)
unfolding fleet tag new new_device report check_device Presence.check
plain = ((tag-IsWord, presence-IsWord, no_device-IsWord, tt), tt)

reason : ReasonIsWord (check fleet 100)
unfolding fleet tag new new_device check check_device Presence.check survey survey_step conclude
    required rank str_eq
reason = no_device-IsWord

request_lines-status_example :
    (request_lines (status fleet 100)
      ≡ some (map row_line (report fleet 100) ++ decision_text (check fleet 100) ∷ []))
    × All (λ row. parse_device_status (row_line row) ≡ some (row_of row)) (report fleet 100)
request_lines-status_example = request_lines-status fleet 100 plain reason

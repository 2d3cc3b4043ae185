-- ===== src/Cli/Setup/Tests.antt =====
-- Setup and its undoing, at one run each.
use omarchy_presence_unlock.Base.{
  ◌≡◌, refl, true, false, List, [], ◌∷◌, ◌++◌, none, some, Str, codes, trim_end,
}
use omarchy_presence_unlock.Cli.Setup.Markers.{find_text, matches, newline}
use omarchy_presence_unlock.Cli.Setup.Binding
use omarchy_presence_unlock.Cli.Setup.Undo.{IsUnmarked, install_remove}
use omarchy_presence_unlock.Cli.Setup.Lock
use omarchy_presence_unlock.Cli.Setup.Lock.{marker, IsPatched, render-IsPatched}
use omarchy_presence_unlock.Cli.Setup.Swap
use omarchy_presence_unlock.Cli.Setup.Swap.{
  Dirs, removed, built, IsSwap, write_clone, write_clone-IsSwap,
}
use omarchy_presence_unlock.Cli.Setup.Order
use omarchy_presence_unlock.Cli.Setup.Parts.{absent, generated, LockCall, unwritten, written}
use omarchy_presence_unlock.Cli.Setup.Order.{Integration, Setup, Holds, apply-Holds}
use omarchy_presence_unlock.Cli.Setup.Teardown.{
  Removal, Uninstall, Machine, Reports, uninstall, uninstall-Reports,
}

abbrev bindings : Str
bindings = codes "a" ++ newline ∷ []

unmarked : IsUnmarked bindings
unfolding find_text
unmarked = record { start = refl; end = refl }

install_remove_example :
    (out : Str) × (Binding.render bindings ≡ some out)
    × (Binding.render out ≡ some out)
    × (Binding.remove out ≡ some (trim_end bindings ++ newline ∷ []))
install_remove_example = install_remove bindings unmarked

abbrev patches : List (Str × Str)
patches = (codes "b", codes "bx") ∷ []

rendered : Lock.render (codes "abc") patches ≡ some (codes "abxc")
unfolding Lock.render Lock.apply_all Lock.apply matches find_text
rendered = refl

render-IsPatched_example :
    (find_text marker (codes "abc") ≡ none) × IsPatched (codes "abc") patches (codes "abxc")
render-IsPatched_example = render-IsPatched (codes "abc") patches (codes "abxc") rendered

-- The new directory cannot be moved in, and the old one comes back.
abbrev swap_calls : Swap.Calls
swap_calls = record {
  generated = true;
  plugins_made = true;
  clear_stage = removed;
  clear_rollback = removed;
  build = built [];
  moved_away = true;
  moved_in = false;
  moved_back = true;
  drop_stage = removed;
  drop_rollback = removed;
}

abbrev dirs : Dirs
dirs = record { stage = none; rollback = none; target = some [] }

write_clone-IsSwap_example : IsSwap dirs.target swap_calls dirs (write_clone swap_calls dirs)
write_clone-IsSwap_example = write_clone-IsSwap swap_calls dirs

abbrev menu_text : Str
menu_text = codes "{" ++ (newline ∷ (codes "}" ++ newline ∷ []))

abbrev lock_done : LockCall
lock_done = record { named = true; ok = true; residue = absent }

-- The menu cannot be written, and the installation is undone.
abbrev setup : Setup
setup = record {
  plugin_named = true;
  policy_installed = true;
  rendered = true;
  located = true;
  baseline_taken = true;
  install_lock = lock_done;
  install_binding = written;
  install_menu = unwritten;
  reloaded = true;
  remove_lock = lock_done;
  remove_binding = written;
  remove_menu = written;
  reloaded_again = true;
  code_reloaded = true;
  service_enabled = true;
}

abbrev untouched : Integration
untouched = record { lock = absent; binding = bindings; menu = menu_text }

apply-Holds_example : Holds untouched (Order.apply setup untouched)
apply-Holds_example = apply-Holds setup untouched

abbrev done : Removal
done = record { ok = true; residue = false }

abbrev removal : Uninstall
removal = record {
  authenticated = true;
  lock = lock_done;
  menu = written;
  baseline = true;
  binding = written;
  reloaded = false;
  service = true;
  socket = done;
  state = done;
  forget = true;
  config = done;
  program = done;
}

abbrev machine : Machine
machine = record {
  lock = generated;
  binding = bindings ++ (Binding.block ++ newline ∷ []);
  menu = menu_text;
  socket = true;
  state = true;
  config = true;
  program = true;
}

uninstall-Reports_example : Reports removal machine (uninstall removal machine)
uninstall-Reports_example = uninstall-Reports removal machine

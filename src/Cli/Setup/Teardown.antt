-- ===== src/Cli/Setup/Teardown.antt =====
-- crates/cli/src/setup/teardown.rs: `uninstall`. A machine is the lock plugin's place, the texts of the
-- key bindings and of the menu, and which paths of the program are there; the step of the service stands
-- by its answer.
use omarchy_presence_unlock.Base.{
  ◌≡◌, refl, sym, ◌∙◌, Bool, true, false, not, ◌&&◌, List, [], ◌∷◌, ◌++◌, all, some, Str,
  if◌then◌else◌, if_cases, arith,
}
use omarchy_presence_unlock.Cli.Setup.Binding
use omarchy_presence_unlock.Cli.Setup.Menu
use omarchy_presence_unlock.Cli.Setup.Parts.{
  Plugin, absent, foreign, generated, LockCall, remove_plugin, remove_lock, Write, edit_file,
  edit_file_made,
}

pub data Label : Type 0 where
  access lock menu binding hyprland service socket state enrollment program : Label

pub record Step : Type 0 where
  pub label : Label
  pub ok : Bool
  -- whether it says why it failed
  pub detail : Bool

abbrev pub step : Label → Bool → Step
step label ok = record { label = label; ok = ok; detail = not ok }

pub record Machine : Type 0 where
  pub lock : Plugin
  pub binding : Str
  pub menu : Str
  pub socket : Bool
  pub state : Bool
  pub config : Bool
  pub program : Bool

-- A removal of a path, which is gone if it succeeds; a failure can leave it either way.
pub record Removal : Type 0 where
  pub ok : Bool
  pub residue : Bool

abbrev pub after_removal : Removal → Bool
after_removal r = if r.ok then false else r.residue

pub record Uninstall : Type 0 where
  pub authenticated : Bool
  pub lock : LockCall
  pub menu : Write
  pub baseline : Bool
  pub binding : Write
  pub reloaded : Bool
  pub service : Bool
  -- `remove_if_present` of the socket's directory, the state's and the configuration
  pub socket : Removal
  pub state : Removal
  -- `Enrollment::Forget`
  pub forget : Bool
  pub config : Removal
  pub program : Removal

-- The reload of Hyprland is never a failure, and says why it did not happen.
abbrev pub reload_step : Uninstall → Step
reload_step u = record { label = hyprland; ok = true; detail = not (u.baseline && u.reloaded) }

abbrev pub forget_steps : Uninstall → List Step
forget_steps u = if u.forget then step enrollment u.config.ok ∷ [] else []

-- The steps before the removal of the package.
unfoldable pub cleanup_steps : Uninstall → Machine → List Step
cleanup_steps u m =
    step access u.authenticated
    ∷ step Label.lock (remove_lock u.lock m.lock).1
    ∷ step Label.menu (edit_file Menu.render_removal u.menu m.menu).1
    ∷ step Label.binding (edit_file Binding.remove u.binding m.binding).1
    ∷ reload_step u
    ∷ step Label.service u.service
    ∷ step Label.socket u.socket.ok
    ∷ step Label.state u.state.ok
    ∷ forget_steps u

unfoldable pub clean_up : Uninstall → Machine → Machine
clean_up u m = record m {
  lock = (remove_lock u.lock m.lock).0;
  binding = (edit_file Binding.remove u.binding m.binding).0;
  menu = (edit_file Menu.render_removal u.menu m.menu).0;
  socket = after_removal u.socket;
  state = after_removal u.state;
  config = if u.forget then after_removal u.config else m.config;
}

unfoldable pub uninstall : Uninstall → Machine → Machine × List Step
unfolding cleanup_steps clean_up
uninstall u m =
    let steps = cleanup_steps u m in
    let cleaned = clean_up u m in
    let removed = record cleaned { program = after_removal u.program } in
    if not u.authenticated
    then (m, step access false ∷ [])
    else if all (λ (s : Step). s.ok) steps
    then (removed, steps ++ step Label.program u.program.ok ∷ [])
    else (cleaned, steps ++ step Label.program false ∷ [])

-- What the cleanup promises of the lock plugin: the generated one is gone, and the user's own stays.
abbrev pub IsHandedBack : Plugin → Plugin → Type 0
IsHandedBack absent now = now ≡ absent
IsHandedBack foreign now = now ≡ foreign
IsHandedBack generated now = now ≡ absent

-- A cleaned machine: each text is what the removal of the block makes of it.
pub record IsClean (u : Uninstall) (before now : Machine) : Type 0 where
  pub lock : IsHandedBack before.lock now.lock
  pub binding : Binding.remove before.binding ≡ some now.binding
  pub menu : Menu.render_removal before.menu ≡ some now.menu
  pub socket : now.socket ≡ false
  pub state : now.state ≡ false
  pub config : now.config ≡ (if u.forget then false else before.config)

-- The machine and the report of a run.
abbrev pub Reports : Uninstall → Machine → Machine × List Step → Type 0
Reports u before (now, steps) =
    (before.program ≡ true → now.program ≡ false → IsClean u before now)
    × (all (λ (s : Step). s.ok) steps ≡ true → IsClean u before now × (now.program ≡ false))

ok-off : (r : Removal) → r.ok ≡ true → after_removal r ≡ false
ok-off r h = ground arith

-- A step on the lock plugin that succeeds.
removed_plugin :
    (c : LockCall) (p : Plugin)
    → (remove_plugin c p).1 ≡ true
    → IsHandedBack p (remove_plugin c p).0
removed_plugin c absent h = refl
removed_plugin c foreign h = refl
removed_plugin c generated h = ground arith

remove_lock-IsHandedBack :
    (c : LockCall) (p : Plugin) → (remove_lock c p).1 ≡ true → IsHandedBack p (remove_lock c p).0
remove_lock-IsHandedBack c p =
    if_cases (λ (r : Plugin × Bool). r.1 ≡ true → IsHandedBack p r.0) c.named _ _
      (λ named h. removed_plugin c p h) (λ unnamed h. absurd (cc h))

all-snoc :
    (steps : List Step) (s : Step) → all (λ (s : Step). s.ok) (steps ++ s ∷ []) ≡ true → s.ok ≡ true
all-snoc [] s h = ground arith
all-snoc (t ∷ steps) s h = all-snoc steps s (ground arith)

cleaned-IsClean :
    (u : Uninstall) (m : Machine)
    → all (λ (s : Step). s.ok) (cleanup_steps u m) ≡ true
    → (there : Bool) → IsClean u m (record (clean_up u m) { program = there })
unfolding cleanup_steps clean_up
cleaned-IsClean u m h there = record {
  lock = remove_lock-IsHandedBack u.lock m.lock (ground (arith, h));
  binding = edit_file_made Binding.remove u.binding m.binding (ground (arith, h));
  menu = edit_file_made Menu.render_removal u.menu m.menu (ground (arith, h));
  socket = ok-off u.socket (ground (arith, h));
  state = ok-off u.state (ground (arith, h));
  config = forgotten u.forget (ground (arith, h));
}
  where
    forgotten :
        (b : Bool)
        → (if b then u.config.ok else true) ≡ true
        → (if b then after_removal u.config else m.config) ≡ (if b then false else m.config)
    forgotten true e = ok-off u.config e
    forgotten false e = refl

-- The program is removed only from a machine that every cleanup step has left clean, and a run whose
-- steps are all reported as done has left it clean and removed the program. Clean means: a
-- generated lock plugin is gone and one of the user's own is still there; the bindings and the menu are
-- what the removal of the block makes of them, which is the text itself if a marker is missing; the
-- socket and the state are gone, and the configuration too exactly if it was to be forgotten.
pub uninstall-Reports : (u : Uninstall) (before : Machine) → Reports u before (uninstall u before)
unfolding uninstall
uninstall-Reports u before =
    if_cases (Reports u before) (not u.authenticated) _ _
      (λ e. (λ here gone. absurd (cc (sym here ∙ gone)), λ h. absurd (cc h)))
      (λ e.
        if_cases (Reports u before) (all (λ (s : Step). s.ok) (cleanup_steps u before)) _ _
          (λ clean. (
            λ here gone. cleaned-IsClean u before clean (after_removal u.program),
            λ h. (
              cleaned-IsClean u before clean (after_removal u.program),
              ok-off u.program
                  (all-snoc (cleanup_steps u before) (step Label.program u.program.ok) h),
            ),
          ))
          (λ left. (
            λ here gone. absurd (cc (sym here ∙ gone)),
            λ h. absurd (cc (all-snoc (cleanup_steps u before) (step Label.program false) h)),
          )))

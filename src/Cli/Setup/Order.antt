-- ===== src/Cli/Setup/Order.antt =====
-- crates/cli/src/setup.rs: `apply`, the steps of setup in their order, and the undoing of a first
-- install. What each call answers comes with the run. The state is what the steps write: the lock
-- plugin's place, the text of the key bindings and that of the menu. A missing text is the one that it is
-- read as.
use mathlib.Core.Path.{subst}
use omarchy_presence_unlock.Base.{
  ◌≡◌, ◌⊎◌, refl, sym, ap, ◌∙◌, inl, inr, Bool, true, false, not, ◌&&◌, ◌||◌, Option, some, Str,
  if◌then◌else◌, if_cases, arith,
}
use omarchy_presence_unlock.Cli.Setup.Parts.{
  Plugin, absent, foreign, generated, is_generated, LockCall, install_lock, remove_lock, Write,
  edit_file, IsEdited, edit_file-IsWritten, edit_file_made, remove_lock-absent,
}
use omarchy_presence_unlock.Cli.Setup.Binding
use omarchy_presence_unlock.Cli.Setup.Menu

-- What is in place of the user's integration.
pub record Integration : Type 0 where
  pub lock : Plugin
  pub binding : Str
  pub menu : Str

pub record Setup : Type 0 where
  pub plugin_named : Bool
  pub policy_installed : Bool
  pub rendered : Bool
  -- whether `is_installed` can tell
  pub located : Bool
  pub baseline_taken : Bool
  pub install_lock : LockCall
  pub install_binding : Write
  pub install_menu : Write
  pub reloaded : Bool
  pub remove_lock : LockCall
  pub remove_binding : Write
  pub remove_menu : Write
  pub reloaded_again : Bool
  -- the last two steps only warn
  pub code_reloaded : Bool
  pub service_enabled : Bool

pub data Applied : Type 0 where
  not_begun lock_failed kept undone undo_failed : Applied
  applied : Bool → Bool → Applied

-- `binding::install().and_then(menu::install).and_then(reload_hyprland)`
unfoldable pub integrate : Setup → Integration → Integration × Bool
integrate s i =
    let bound = edit_file Binding.render s.install_binding i.binding in
    let listed = edit_file Menu.render_entry s.install_menu i.menu in
    if not bound.1
    then (record i { binding = bound.0 }, false)
    else (record i { binding = bound.0; menu = listed.0 }, listed.1 && s.reloaded)

-- `lock::remove().and_then(binding::remove).and_then(menu::remove).and_then(reload_hyprland)`
unfoldable pub undo : Setup → Integration → Integration × Bool
undo s i =
    let unlocked = remove_lock s.remove_lock i.lock in
    let unbound = edit_file Binding.remove s.remove_binding i.binding in
    let unlisted = edit_file Menu.render_removal s.remove_menu i.menu in
    if not unlocked.1
    then (record i { lock = unlocked.0 }, false)
    else if not unbound.1
    then (record i { lock = unlocked.0; binding = unbound.0 }, false)
    else (
      record { lock = unlocked.0; binding = unbound.0; menu = unlisted.0 },
      unlisted.1 && s.reloaded_again,
    )

abbrev pub undone_if : Bool → Applied
undone_if true = undone
undone_if false = undo_failed

-- Behind the installed lock.
unfoldable pub finish : Setup → Bool → Integration → Integration × Applied
unfolding integrate undo
finish s first_install locked =
    let integrated = integrate s locked in
    let removed = undo s integrated.0 in
    if integrated.1
    then (integrated.0, applied s.code_reloaded s.service_enabled)
    else if not first_install
    then (integrated.0, kept)
    else (removed.0, undone_if removed.1)

unfoldable pub apply : Setup → Integration → Integration × Applied
unfolding finish
apply s i =
    let installed = install_lock s.install_lock i.lock in
    let locked = record i { lock = installed.0 } in
    let finished = finish s (not (is_generated i.lock)) locked in
    if not s.plugin_named || not s.policy_installed || not s.rendered || not s.located
    then (i, not_begun)
    else if not s.baseline_taken
    then (i, not_begun)
    else if not installed.1
    then (locked, lock_failed)
    else finished

-- The user's own directory is still there, if it was.
abbrev pub IsSpared : Plugin → Plugin → Type 0
IsSpared absent now = Unit
IsSpared foreign now = now ≡ foreign
IsSpared generated now = Unit

-- A text that the installation edited, or left, and that the undoing has edited back.
abbrev pub IsTakenBack : (Str → Option Str) → (Str → Option Str) → Str → Str → Type 0
IsTakenBack put take was now =
    (between : Str) × IsEdited put was between × (take between ≡ some now)

-- What each way of ending says of the integration.
abbrev pub Holds : Integration → Integration × Applied → Type 0
Holds before (now, not_begun) = now ≡ before
Holds before (now, lock_failed) =
    (now.binding ≡ before.binding) × (now.menu ≡ before.menu) × IsSpared before.lock now.lock
Holds before (now, kept) =
    (before.lock ≡ generated)
    × (now.lock ≡ generated)
    × IsEdited Binding.render before.binding now.binding
    × IsEdited Menu.render_entry before.menu now.menu
Holds before (now, undone) =
    (before.lock ≡ absent)
    × (now.lock ≡ absent)
    × IsTakenBack Binding.render Binding.remove before.binding now.binding
    × IsTakenBack Menu.render_entry Menu.render_removal before.menu now.menu
Holds before (now, undo_failed) = before.lock ≡ absent
Holds before (now, applied code service) =
    (now.lock ≡ generated)
    × (Binding.render before.binding ≡ some now.binding)
    × (Menu.render_entry before.menu ≡ some now.menu)

-- A lock that was installed: it is generated now, and was absent if it was not before.
installed_generated :
    (c : LockCall) (p : Plugin)
    → (install_lock c p).1 ≡ true
    → ((install_lock c p).0 ≡ generated)
      × (((p ≡ generated) × (is_generated p ≡ true)) ⊎ ((p ≡ absent) × (is_generated p ≡ false)))
installed_generated c absent h = (ground arith, inr (refl, refl))
installed_generated c foreign h = absurd (cc h)
installed_generated c generated h = (ground arith, inl (refl, refl))

refused-IsSpared :
    (c : LockCall) (p : Plugin) → (install_lock c p).1 ≡ false → IsSpared p (install_lock c p).0
refused-IsSpared c absent h = tt
refused-IsSpared c foreign h = refl
refused-IsSpared c generated h = tt

module _ (s : Setup) where
  record IsIntegrated (i : Integration) (r : Integration × Bool) : Type 0 where
    lock : r.0.lock ≡ i.lock
    binding : IsEdited Binding.render i.binding r.0.binding
    menu : IsEdited Menu.render_entry i.menu r.0.menu
    success :
        r.1 ≡ true
        → (Binding.render i.binding ≡ some r.0.binding) × (Menu.render_entry i.menu ≡ some r.0.menu)

  integrate-IsIntegrated : (i : Integration) → IsIntegrated i (integrate s i)
  unfolding integrate
  integrate-IsIntegrated i =
      let b = edit_file-IsWritten Binding.render s.install_binding i.binding in
      let m = edit_file-IsWritten Menu.render_entry s.install_menu i.menu in
      if_cases (IsIntegrated i) (not (edit_file Binding.render s.install_binding i.binding).1) _ _
        (λ unbound. record {
          lock = refl;
          binding = b.left;
          menu = inl refl;
          success = λ e. absurd (cc e);
        })
        (λ bound. record {
          lock = refl;
          binding = b.left;
          menu = m.left;
          success = λ e. (b.success (ground (arith, bound)), m.success (ground (arith, e)));
        })

  -- An undoing that succeeds behind an installed lock.
  IsUndone : Integration → Integration × Bool → Type 0
  IsUndone i r =
      r.1 ≡ true
      → (r.0.lock ≡ absent)
        × (Binding.remove i.binding ≡ some r.0.binding)
        × (Menu.render_removal i.menu ≡ some r.0.menu)

  undo-IsUndone : (i : Integration) → i.lock ≡ generated → IsUndone i (undo s i)
  unfolding undo IsUndone
  undo-IsUndone i locked =
      if_cases (IsUndone i) (not (remove_lock s.remove_lock i.lock).1) _ _
        (λ stuck e. absurd (cc e))
        (λ unlocked.
          if_cases (IsUndone i) (not (edit_file Binding.remove s.remove_binding i.binding).1) _ _
            (λ bound e. absurd (cc e))
            (λ unbound e. (
              remove_lock-absent s.remove_lock i.lock locked (ground (arith, unlocked)),
              edit_file_made Binding.remove s.remove_binding i.binding (ground (arith, unbound)),
              edit_file_made Menu.render_removal s.remove_menu i.menu (ground (arith, e)),
            )))

module _ (s : Setup) (before : Integration) where
  Ended : Integration × Applied → Type 0
  Ended = Holds before

  undo-Holds :
      (i : Integration)
      → before.lock ≡ absent
      → i.lock ≡ generated
      → IsEdited Binding.render before.binding i.binding
      → IsEdited Menu.render_entry before.menu i.menu
      → (r : Integration × Bool) → IsUndone s i r
      → Ended (r.0, undone_if r.1)
  unfolding Ended IsUndone
  undo-Holds i first locked bound listed (now, false) h = first
  undo-Holds i first locked bound listed (now, true) h =
      let (gone, unbound, unlisted) = h refl in
      (first, gone, (i.binding, bound, unbound), (i.menu, listed, unlisted))

  finish-Holds :
      (i : Integration)
      → i.lock ≡ generated
      → i.binding ≡ before.binding
      → i.menu ≡ before.menu
      → ((before.lock ≡ generated) × (is_generated before.lock ≡ true))
        ⊎ ((before.lock ≡ absent) × (is_generated before.lock ≡ false))
      → Ended (finish s (not (is_generated before.lock)) i)
  unfolding finish Ended
  finish-Holds i locked same_binding same_menu known =
      let done = integrate-IsIntegrated s i in
      let still : (integrate s i).0.lock ≡ generated = done.lock ∙ locked in
      let bound : IsEdited Binding.render before.binding (integrate s i).0.binding =
        subst (λ text. IsEdited Binding.render text (integrate s i).0.binding) same_binding
          done.binding in
      let listed : IsEdited Menu.render_entry before.menu (integrate s i).0.menu =
        subst (λ text. IsEdited Menu.render_entry text (integrate s i).0.menu) same_menu
          done.menu in
      if_cases Ended (integrate s i).1 _ _
        (λ h.
          let (b, m) = done.success h in
          (
            still,
            ap Binding.render (sym same_binding) ∙ b,
            ap Menu.render_entry (sym same_menu) ∙ m,
          ))
        (λ h. elim known [
          | inl (was, again) ↦ rw again (was, still, bound, listed)
          | inr (was, first) ↦ rw first (
              undo-Holds (integrate s i).0 was still bound listed (undo s (integrate s i).0)
                (undo-IsUndone s (integrate s i).0 still))
        ])

-- How setup leaves the lock plugin, the bindings and the menu. If it did not begin, nothing has changed.
-- If the lock could not be installed, both texts are as they were, and a lock directory of the user's
-- own is still there. If it kept what there was, the lock plugin was generated before and is now,
-- and each text is as it was or with the block put in. If it was undone, there was no lock plugin before
-- and there is none, and each text is what the removal of the block makes of it, as it was before or
-- with the block put in. If the undoing failed, there was no lock plugin before. If it was applied, the
-- lock plugin is generated and each text is what putting the block in makes of it.
pub apply-Holds : (s : Setup) (before : Integration) → Holds before (apply s before)
unfolding apply Ended
apply-Holds s before =
    if_cases (Holds before)
      (not s.plugin_named || not s.policy_installed || not s.rendered || not s.located) _ _
      (λ e. refl)
      (λ e.
        if_cases (Holds before) (not s.baseline_taken) _ _ (λ e'. refl)
          (λ e'.
            let installed = install_lock s.install_lock before.lock in
            if_cases (Holds before) (not installed.1) _ _
              (λ failed.
                (refl, refl, refused-IsSpared s.install_lock before.lock (ground (arith, failed))))
              (λ worked.
                let (now, was) =
                  installed_generated s.install_lock before.lock (ground (arith, worked)) in
                finish-Holds s before (record before { lock = installed.0 }) now refl refl was)))

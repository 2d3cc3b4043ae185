-- ===== src/Cli/Setup/Swap.antt =====
-- crates/cli/src/setup/lock.rs: `write_clone`, the exchange of the lock plugin's directory. The three
-- paths that it works on hold a directory or nothing; what its calls answer comes with each run.
use omarchy_presence_unlock.Base.{
  ◌≡◌, ◌⊎◌, refl, inl, inr, Bool, true, false, not, ◌&&◌, ◌||◌, List, [], ◌∷◌, ◌++◌, Option, none,
  some, Str, Bytes, All, All-map, is_some, if◌then◌else◌, if_cases, arith,
}

-- A directory is its files.
abbrev pub Dir : Type 0
Dir = List (Str × Bytes)

pub record Dirs : Type 0 where
  pub stage : Option Dir
  pub rollback : Option Dir
  pub target : Option Dir

-- How `remove_if_present` ends; a removal that fails may leave anything.
pub data Removal : Type 0 where
  removed : Removal
  stuck : Option Dir → Removal

abbrev pub left_by : Removal → Option Dir
left_by removed = none
left_by (stuck rest) = rest

abbrev pub is_removed : Removal → Bool
is_removed removed = true
is_removed (stuck rest) = false

-- How the building of the new directory ends.
pub data Build : Type 0 where
  built : Dir → Build
  broken : Option Dir → Build

pub record Calls : Type 0 where
  -- `is_generated` of the target
  pub generated : Bool
  pub plugins_made : Bool
  pub clear_stage : Removal
  pub clear_rollback : Removal
  pub build : Build
  pub moved_away : Bool
  pub moved_in : Bool
  pub moved_back : Bool
  -- of the stage, on a failure
  pub drop_stage : Removal
  -- of the old directory, at the end
  pub drop_rollback : Removal

-- What the paths held after each change, the oldest first, and whether the clone is installed.
pub record Run : Type 0 where
  pub states : List Dirs
  pub success : Bool

abbrev pub stopped : List Dirs → Run
stopped states = record { states = states; success = false }

abbrev pub dropped : Calls → Dirs → Dirs
dropped c s = record s { stage = left_by c.drop_stage }

-- The old directory is out of the way, at `s`; the new one comes in.
unfoldable pub move_in : Bool → Calls → Dir → Dirs → List Dirs → Run
move_in previous c new s states =
    let failed = dropped c s in
    let back = record failed { rollback = none; target = failed.rollback } in
    let installed = record s { stage = none; target = some new } in
    let cleaned = record installed { rollback = left_by c.drop_rollback } in
    if not c.moved_in
    then (if previous && c.moved_back
        then stopped (states ++ failed ∷ back ∷ [])
        else stopped (states ++ failed ∷ []))
    else if previous
    then record {
      states = states ++ installed ∷ cleaned ∷ [];
      success = is_removed c.drop_rollback;
    }
    else record { states = states ++ installed ∷ []; success = true }

-- The new directory stands at the stage.
unfoldable pub swap : Calls → Dir → Dirs → List Dirs → Run
unfolding move_in
swap c new s states =
    let away = record s { rollback = s.target; target = none } in
    if not (is_some s.target)
    then move_in false c new s states
    else if not c.moved_away
    then stopped (states ++ dropped c s ∷ [])
    else move_in true c new away (states ++ away ∷ [])

abbrev pub build_stage : Calls → Build → Dirs → List Dirs → Run
build_stage c (broken rest) s states =
    stopped (states ++ record s { stage = rest } ∷ dropped c s ∷ [])
build_stage c (built new) s states =
    swap c new (record s { stage = some new }) (states ++ record s { stage = some new } ∷ [])

unfoldable pub write_clone : Calls → Dirs → Run
unfolding swap
write_clone c s =
    let unstaged = record s { stage = left_by c.clear_stage } in
    let cleared = record unstaged { rollback = left_by c.clear_rollback } in
    if is_some s.target && not c.generated || not c.plugins_made
    then stopped []
    else if not (is_removed c.clear_stage)
    then stopped (unstaged ∷ [])
    else if not (is_removed c.clear_rollback)
    then stopped (unstaged ∷ cleared ∷ [])
    else build_stage c c.build cleared (unstaged ∷ cleared ∷ [])

-- The lock that was there can be found: it is at its place, or moved aside, or a whole new one is at
-- its place.
abbrev pub IsSafe : Option Dir → Build → Dirs → Type 0
IsSafe old build s =
    (s.target ≡ old)
    ⊎ (((s.target ≡ none) × (s.rollback ≡ old))
        ⊎ ((new : Dir) × (build ≡ built new) × (s.target ≡ some new)))

-- The newest state, or the first one if there is none.
abbrev pub newest : Dirs → List Dirs → Dirs
newest s [] = s
newest s (t ∷ states) = newest t states

-- A run, with the old directory and what was built.
pub record IsSwap (old : Option Dir) (c : Calls) (s : Dirs) (r : Run) : Type 0 where
  pub always : All (IsSafe old c.build) r.states
  pub on_success :
      r.success ≡ true
      → (new : Dir) × (c.build ≡ built new)
        × (newest s r.states ≡ record { stage = none; rollback = none; target = some new })
  pub on_failure :
      r.success ≡ false
      → ((newest s r.states).target ≡ old)
        ⊎ (((c.moved_in ≡ false) × (c.moved_back ≡ false) × ((newest s r.states).rollback ≡ old))
            ⊎ ((c.moved_in ≡ true)
                × (is_removed c.drop_rollback ≡ false)
                × ((new : Dir) × (c.build ≡ built new) × ((newest s r.states).target ≡ some new))))

kept_newest :
    (old : Option Dir) (s : Dirs) (states : List Dirs)
    → s.target ≡ old
    → All (λ (t : Dirs). t.target ≡ old) states
    → (newest s states).target ≡ old
kept_newest old s [] first h = first
kept_newest old s (t ∷ states) first (same, h) = kept_newest old t states same h

-- A run that stops and never touched the target.
kept-IsSwap :
    (c : Calls) (s : Dirs) (states : List Dirs)
    → All (λ (t : Dirs). t.target ≡ s.target) states
    → IsSwap s.target c s (stopped states)
kept-IsSwap c s states h = record {
  always =
      All-map (λ (t : Dirs). t.target ≡ s.target) (IsSafe s.target c.build) states
        (λ t same. inl same) h;
  on_success = λ e. absurd (cc e);
  on_failure = λ e. inl (kept_newest s.target s states refl h);
}

-- The states of a run up to the new directory at the stage.
module _ (c : Calls) (s : Dirs) (new : Dir) (is_built : c.build ≡ built new) where
  abbrev unstaged : Dirs
  unstaged = record s { stage = none }

  abbrev cleared : Dirs
  cleared = record unstaged { rollback = none }

  abbrev staged : Dirs
  staged = record cleared { stage = some new }

  abbrev begun : List Dirs
  begun = unstaged ∷ cleared ∷ staged ∷ []

  is_new : (t : Dirs) → t.target ≡ some new → IsSafe s.target c.build t
  is_new t same = inr (inr (new, is_built, same))

  abbrev final : Option Dir → Dirs
  final rest = record { stage = none; rollback = rest; target = some new }

  abbrev Swapped : Run → Type 0
  Swapped = IsSwap s.target c s

  move_in-empty : Swapped (move_in false c new staged begun)
  unfolding move_in
  move_in-empty =
      if_cases Swapped (not c.moved_in) _ _
        (λ lost.
          kept-IsSwap c s (begun ++ dropped c staged ∷ []) (refl, (refl, (refl, (refl, tt)))))
        (λ arrived. record {
          always = (inl refl, (inl refl, (inl refl, (is_new (final none) refl, tt))));
          on_success = λ e. (new, is_built, refl);
          on_failure = λ e. absurd (cc e);
        })

  abbrev away : Dirs
  away = record staged { rollback = s.target; target = none }

  aside : (t : Dirs) → t.target ≡ none → t.rollback ≡ s.target → IsSafe s.target c.build t
  aside t gone kept = inr (inl (gone, kept))

  clean : (r : Removal) → is_removed r ≡ true → final (left_by r) ≡ final none
  clean removed e = refl
  clean (stuck rest) e = absurd (cc e)

  move_in-previous : Swapped (move_in true c new away (begun ++ away ∷ []))
  unfolding move_in
  move_in-previous =
      if_cases Swapped (not c.moved_in) _ _
        (λ lost.
          if_cases Swapped c.moved_back _ _
            (λ back. record {
              always = (
                inl refl,
                (
                  inl refl,
                  (
                    inl refl,
                    (aside away refl refl, (aside (dropped c away) refl refl, (inl refl, tt))),
                  ),
                ),
              );
              on_success = λ e. absurd (cc e);
              on_failure = λ e. inl refl;
            })
            (λ stays. record {
              always = (
                inl refl,
                (
                  inl refl,
                  (inl refl, (aside away refl refl, (aside (dropped c away) refl refl, tt))),
                ),
              );
              on_success = λ e. absurd (cc e);
              on_failure = λ e. inr (inl (ground (arith, lost), stays, refl));
            }))
        (λ arrived. record {
          always = (
            inl refl,
            (
              inl refl,
              (
                inl refl,
                (
                  aside away refl refl,
                  (
                    is_new (final s.target) refl,
                    (is_new (final (left_by c.drop_rollback)) refl, tt),
                  ),
                ),
              ),
            ),
          );
          on_success = λ e. (new, is_built, clean c.drop_rollback e);
          on_failure = λ e. inr (inr (ground (arith, arrived), e, (new, is_built, refl)));
        })

  swap-IsSwap : Swapped (swap c new staged begun)
  unfolding swap
  swap-IsSwap =
      if_cases Swapped (not (is_some s.target)) _ _ (λ empty. move_in-empty)
        (λ there.
          if_cases Swapped (not c.moved_away) _ _
            (λ stays.
              kept-IsSwap c s (begun ++ dropped c staged ∷ []) (refl, (refl, (refl, (refl, tt)))))
            (λ moved. move_in-previous))

-- Writing the clone never loses the lock plugin: at every instant the old directory is at its place, or
-- moved aside with nothing at its place, or a whole new directory is at its place. A run that succeeds
-- has put the new directory there, and left neither of the other two. A run that fails has the old
-- directory at its place; or, if the new one could not be moved in nor the old one back, the old one
-- aside; or, if the new one was moved in and only the removal of the old one failed, the new one at its
-- place.
pub write_clone-IsSwap : (c : Calls) (s : Dirs) → IsSwap s.target c s (write_clone c s)
unfolding write_clone
write_clone-IsSwap c s =
    if_cases (IsSwap s.target c s) (is_some s.target && not c.generated || not c.plugins_made) _ _
      (λ refused. kept-IsSwap c s [] tt)
      (λ claimed. clearing c.clear_stage c.clear_rollback c.build refl)
  where
    clearing :
        (stage rollback : Removal) (b : Build)
        → c.build ≡ b
        → IsSwap s.target c s (
            if not (is_removed stage)
            then stopped (record s { stage = left_by stage } ∷ [])
            else if not (is_removed rollback)
            then stopped (
                record s { stage = left_by stage }
                ∷ record s { stage = left_by stage; rollback = left_by rollback }
                ∷ [])
            else build_stage c b
                (record s { stage = left_by stage; rollback = left_by rollback })
                (record s { stage = left_by stage }
                  ∷ record s { stage = left_by stage; rollback = left_by rollback }
                  ∷ []))
    clearing (stuck rest) rollback b e = kept-IsSwap c s _ (refl, tt)
    clearing removed (stuck rest) b e = kept-IsSwap c s _ (refl, (refl, tt))
    clearing removed removed (broken rest) e = kept-IsSwap c s _ (refl, (refl, (refl, (refl, tt))))
    clearing removed removed (built new) e = swap-IsSwap c s new e

-- ===== src/Cli/Atomic/Whole.antt =====
-- A replacement is whole at every instant.
use mathlib.Core.Path.{subst}
use omarchy_presence_unlock.Base.{
  ℕ, ◌≡◌, ◌≢◌, ◌⊎◌, inl, inr, refl, sym, ap, ◌∙◌, Bool, true, false, ◌||◌, List, [], ◌∷◌, ◌++◌,
  append_assoc, none, some, Str, codes, str_eq, str_eq_refl, str_eq_sound, length, length-append,
  arith, Bool-cases, All, All-append,
}
use omarchy_presence_unlock.Numbers.{decimal}
use omarchy_presence_unlock.Cli.Atomic.{
  File, Files, Action, create, append, set_permissions, rename, remove, act, act_all, Target,
  path_of, temporary_path, Replacement, failed,
}

-- The predicate holds of the files now and after each of the actions: at whatever instant a crash comes.
abbrev pub Always : (Files → Type 0) → Files → List Action → Type 0
Always P files [] = P files
Always P files (a ∷ actions) = P files × Always P (act files a) actions

abbrev temporary_tail : ℕ → ℕ → Str
temporary_tail pid counter = codes ".tmp-" ++ (decimal pid ++ (codes "-" ++ decimal counter))

longer : (t : Target) (tail : Str) → path_of t ≢ t.parent ++ (codes "." ++ (t.name ++ tail))
longer t tail h = omega (
  arith,
  ap length h,
  length-append t.parent t.name,
  length-append t.parent (codes "." ++ (t.name ++ tail)),
  length-append t.name tail,
)

-- A temporary path is longer than the path itself.
pub temporary-ne-path :
    (t : Target) (pid counter : ℕ) → str_eq (path_of t) (temporary_path t pid counter) ≡ false
unfolding temporary_path
temporary-ne-path t pid counter =
    elim (Bool-cases (str_eq (path_of t) (temporary_path t pid counter))) [
      | inl same ↦ absurd (
          longer t (temporary_tail pid counter)
            (str_eq_sound (path_of t) (temporary_path t pid counter) same))
      | inr other ↦ other
    ]

module _ (path temporary : Str) (apart : str_eq path temporary ≡ false) where
  abbrev pub is_local : Action → Bool
  is_local (create at inode mode) = str_eq at temporary
  is_local (append at bytes) = str_eq at temporary
  is_local (set_permissions at mode) = str_eq at temporary
  is_local (rename from to) = false
  is_local (remove at) = str_eq at temporary

  abbrev pub IsLocal : Action → Type 0
  IsLocal a = is_local a ≡ true

  -- What is done to the temporary file leaves the target as it is.
  local_act : (files : Files) (a : Action) → is_local a ≡ true → act files a path ≡ files path
  unfolding act
  local_act files (create at inode mode) h = rw (str_eq_sound at temporary h, apart) refl
  local_act files (append at bytes) h = rw (str_eq_sound at temporary h, apart) refl
  local_act files (set_permissions at mode) h = rw (str_eq_sound at temporary h, apart) refl
  local_act files (rename from to) h = absurd (cc h)
  local_act files (remove at) h = rw (str_eq_sound at temporary h, apart) refl

  moved_act : (files : Files) → act files (rename temporary path) path ≡ files temporary
  unfolding act
  moved_act files = rw (apart, str_eq_refl path) refl

  module _ (files : Files) (new : File) where
    -- The target is as it was, or it is the new file.
    abbrev pub IsWhole : Files → Type 0
    IsWhole now = (now path ≡ files path) ⊎ (now path ≡ some new)

    local_IsWhole :
        (now : Files) (a : Action) → is_local a ≡ true → IsWhole now → IsWhole (act now a)
    local_IsWhole now a h (inl old) = inl (local_act now a h ∙ old)
    local_IsWhole now a h (inr done) = inr (local_act now a h ∙ done)

    Always-local :
        (now : Files) (actions : List Action)
        → All IsLocal actions
        → IsWhole now
        → Always IsWhole now actions
    Always-local now [] h whole = whole
    Always-local now (a ∷ actions) (l, h) whole =
        (whole, Always-local (act now a) actions h (local_IsWhole now a l whole))

    Always-moved :
        (now : Files) (before after : List Action)
        → All IsLocal before
        → All IsLocal after
        → act_all now before temporary ≡ some new
        → IsWhole now
        → Always IsWhole now (before ++ rename temporary path ∷ after)
    unfolding act_all
    Always-moved now [] after h k ready whole = (
      whole,
      Always-local (act now (rename temporary path)) after k (inr (moved_act now ∙ ready)),
    )
    Always-moved now (a ∷ before) after (l, h) k ready whole =
        (whole, Always-moved (act now a) before after h k ready (local_IsWhole now a l whole))

act_all-append :
    (files : Files) (xs ys : List Action) → act_all files (xs ++ ys) ≡ act_all (act_all files xs) ys
unfolding act_all
act_all-append files [] ys = refl
act_all-append files (a ∷ xs) ys = act_all-append (act files a) xs ys

all_local_act :
    (path temporary : Str) (apart : str_eq path temporary ≡ false) (files : Files)
    (actions : List Action)
    → All (IsLocal path temporary apart) actions
    → act_all files actions path ≡ files path
unfolding act_all
all_local_act path temporary apart files [] h = refl
all_local_act path temporary apart files (a ∷ actions) (l, h) =
    all_local_act path temporary apart (act files a) actions h
    ∙ local_act path temporary apart files a l

remove_last :
    (files : Files) (actions : List Action) (path : Str)
    → act_all files (actions ++ remove path ∷ []) path ≡ none
unfolding act_all act
remove_last files actions path =
    rw (act_all-append files actions (remove path ∷ []), act_all, str_eq_refl path) refl

-- What is done to a file leaves every other path as it is.
untouched_act :
    (path temporary : Str) (apart : str_eq path temporary ≡ false) (files : Files) (a : Action)
    (at : Str)
    → is_local path temporary apart a ≡ true
    → str_eq at temporary ≡ false
    → act files a at ≡ files at
unfolding act
untouched_act path temporary apart files (create p inode mode) at h other =
    rw (str_eq_sound p temporary h, other) refl
untouched_act path temporary apart files (append p bytes) at h other =
    rw (str_eq_sound p temporary h, other) refl
untouched_act path temporary apart files (set_permissions p mode) at h other =
    rw (str_eq_sound p temporary h, other) refl
untouched_act path temporary apart files (rename from to) at h other = absurd (cc h)
untouched_act path temporary apart files (remove p) at h other =
    rw (str_eq_sound p temporary h, other) refl

untouched_all :
    (path temporary : Str) (apart : str_eq path temporary ≡ false) (files : Files)
    (actions : List Action) (at : Str)
    → All (IsLocal path temporary apart) actions
    → str_eq at temporary ≡ false
    → act_all files actions at ≡ files at
unfolding act_all
untouched_all path temporary apart files [] at h other = refl
untouched_all path temporary apart files (a ∷ actions) at (l, h) other =
    untouched_all path temporary apart (act files a) actions at h other
    ∙ untouched_act path temporary apart files a at l other

-- What a replacement of the file at `path` by `new`, through the temporary file, is at every instant,
-- and what it leaves: of the target, of the temporary file, and of everything else.
pub record IsAtomic (path temporary : Str) (files : Files) (new : File) (kept removed : Bool)
    (r : Replacement) : Type 0 where
  pub always : Always (λ now. (now path ≡ files path) ⊎ (now path ≡ some new)) files r.actions
  pub on_success : r.success ≡ true → act_all files r.actions path ≡ some new
  pub on_failure :
      r.success ≡ false
      → ((kept ≡ true) × (act_all files r.actions path ≡ files path))
        ⊎ ((kept ≡ false) × (act_all files r.actions path ≡ some new))
  pub cleaned : r.success || removed ≡ true → act_all files r.actions temporary ≡ none
  pub untouched :
      (at : Str)
      → str_eq at path ≡ false
      → str_eq at temporary ≡ false
      → act_all files r.actions at ≡ files at

module _ (path temporary : Str) (apart : str_eq path temporary ≡ false) (files : Files)
    (new : File) where
  abbrev pub Local : List Action → Type 0
  Local = All (IsLocal path temporary apart)

  -- Actions that stop short of the rename.
  stopped-IsAtomic :
      (removed : Bool) (actions : List Action)
      → Local actions
      → (removed ≡ true → act_all files actions temporary ≡ none)
      → IsAtomic path temporary files new true removed
          (record { actions = actions; success = false })
  stopped-IsAtomic removed actions h gone = record {
    always = Always-local path temporary apart files new files actions h (inl refl);
    on_success = λ e. absurd (cc e);
    on_failure = λ e. inl (refl, all_local_act path temporary apart files actions h);
    cleaned = λ e. gone e;
    untouched = λ at elsewhere other. untouched_all path temporary apart files actions at h other;
  }

  pub failed-IsAtomic :
      (kept removed : Bool) (actions : List Action)
      → kept ≡ true
      → Local actions
      → IsAtomic path temporary files new kept removed (failed removed temporary actions)
  failed-IsAtomic kept removed actions keeps h =
      subst (λ b. IsAtomic path temporary files new b removed (failed removed temporary actions))
        (sym keeps) (go removed)
    where
      go : (b : Bool) → IsAtomic path temporary files new true b (failed b temporary actions)
      go true =
          stopped-IsAtomic true (actions ++ remove temporary ∷ [])
            (All-append _ actions (remove temporary ∷ []) h (str_eq_refl temporary, tt))
            (λ e. remove_last files actions temporary)
      go false = stopped-IsAtomic false actions h (λ e. absurd (cc e))

  -- The target behind the rename, and what is done to the temporary file after it.
  moved_path :
      (before after : List Action)
      → Local after
      → act_all files before temporary ≡ some new
      → act_all files (before ++ rename temporary path ∷ after) path ≡ some new
  unfolding act_all
  moved_path before after k ready =
      ap (λ (now : Files). now path) (act_all-append files before (rename temporary path ∷ after))
      ∙ (all_local_act path temporary apart (act (act_all files before) (rename temporary path))
            after k
          ∙ (moved_act path temporary apart (act_all files before) ∙ ready))

  -- The other paths behind it.
  moved_untouched :
      (before after : List Action) (at : Str)
      → Local before
      → Local after
      → str_eq at path ≡ false
      → str_eq at temporary ≡ false
      → act_all files (before ++ rename temporary path ∷ after) at ≡ files at
  unfolding act_all act
  moved_untouched before after at h k elsewhere other =
      let now = act_all files before in
      let renamed : act now (rename temporary path) at ≡ now at = rw (elsewhere, other) refl in
      ap (λ (now : Files). now at) (act_all-append files before (rename temporary path ∷ after))
      ∙ untouched_all path temporary apart (act now (rename temporary path)) after at k other
      ∙ renamed
      ∙ untouched_all path temporary apart files before at h other

  -- Nothing is left at the temporary path behind it.
  moved_temporary :
      (before : List Action) → act_all files (before ++ rename temporary path ∷ []) temporary ≡ none
  unfolding act_all act
  moved_temporary before =
      rw
        (
          act_all-append files before (rename temporary path ∷ []),
          act_all,
          act,
          str_eq_refl temporary,
        )
        refl

  -- A failure behind the rename: `after` is the removal, if it was one.
  late-IsAtomic :
      (removed : Bool) (before after : List Action)
      → Local before
      → Local after
      → act_all files before temporary ≡ some new
      → act_all files (before ++ rename temporary path ∷ after) temporary ≡ none
      → IsAtomic path temporary files new false removed
          (record { actions = before ++ rename temporary path ∷ after; success = false })
  late-IsAtomic removed before after h k ready gone = record {
    always = Always-moved path temporary apart files new files before after h k ready (inl refl);
    on_success = λ e. absurd (cc e);
    on_failure = λ e. inr (refl, moved_path before after k ready);
    cleaned = λ e. gone;
    untouched = λ at elsewhere other. moved_untouched before after at h k elsewhere other;
  }

  pub unsynced-IsAtomic :
      (removed : Bool) (before : List Action)
      → Local before
      → act_all files before temporary ≡ some new
      → IsAtomic path temporary files new false removed
          (failed removed temporary (before ++ rename temporary path ∷ []))
  unsynced-IsAtomic false before h ready =
      late-IsAtomic false before [] h tt ready (moved_temporary before)
  unsynced-IsAtomic true before h ready =
      let shape : (before ++ rename temporary path ∷ []) ++ remove temporary ∷ []
          ≡ before ++ rename temporary path ∷ remove temporary ∷ [] =
        append_assoc before (rename temporary path ∷ []) (remove temporary ∷ []) in
      subst
        (λ l.
          IsAtomic path temporary files new false true (record { actions = l; success = false }))
        (sym shape)
        (late-IsAtomic true before (remove temporary ∷ []) h (str_eq_refl temporary, tt) ready
          (ap (λ l. act_all files l temporary) (sym shape)
            ∙ remove_last files (before ++ rename temporary path ∷ []) temporary))

  pub done-IsAtomic :
      (kept removed : Bool) (before : List Action)
      → Local before
      → act_all files before temporary ≡ some new
      → IsAtomic path temporary files new kept removed
          (record { actions = before ++ rename temporary path ∷ []; success = true })
  done-IsAtomic kept removed before h ready = record {
    always = Always-moved path temporary apart files new files before [] h tt ready (inl refl);
    on_success = λ e. moved_path before [] tt ready;
    on_failure = λ e. absurd (cc e);
    cleaned = λ e. moved_temporary before;
    untouched = λ at elsewhere other. moved_untouched before [] at h tt elsewhere other;
  }

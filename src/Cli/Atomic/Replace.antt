-- ===== src/Cli/Atomic/Replace.antt =====
-- `write_atomic` as a whole: every way in which its calls can end.
use mathlib.Core.Path.{subst}
use omarchy_presence_unlock.Base.{
  ℕ, zero, suc, ◌+◌, ◌<◌, ◌≡◌, ◌⊎◌, inl, inr, refl, ap, ◌∙◌, Bool, true, false, is_some, not, ◌||◌,
  List, [], ◌∷◌, ◌++◌, none, some, Str, Bytes, str_eq, str_eq_refl, take, arith, if_cases, All,
}
use omarchy_presence_unlock.Cli.Atomic.{
  File, Files, Action, create, append, set_permissions, rename, act, act_all, Target, path_of,
  temporary_path, Opening, opened, already_exists, open_error, Calls, Staged, staged, not_staged,
  stage, Replacement, failed, fill, replace,
}
use omarchy_presence_unlock.Cli.Atomic.Whole.{
  temporary-ne-path, IsAtomic, IsLocal, failed-IsAtomic, unsynced-IsAtomic, done-IsAtomic,
}

-- A call before the end fails: the write, the mode, the sync of the file, the check or the rename.
abbrev pub is_kept : Calls → Bool
is_kept c =
    is_some c.written || not c.permissions_set || not c.synced || not c.check || not c.renamed

-- What `stage` opens is a temporary path.
stage-ne-path :
    (t : Target) (pid counter attempts : ℕ) (openings : List Opening) (temporary : Str) (inode : ℕ)
    → stage t pid counter attempts openings ≡ staged temporary inode
    → str_eq (path_of t) temporary ≡ false
unfolding stage
stage-ne-path t pid counter zero openings temporary inode h = absurd (cc h)
stage-ne-path t pid counter (suc n) [] temporary inode h = absurd (cc h)
stage-ne-path t pid counter (suc n) (opened i ∷ openings) temporary inode h =
    let same : temporary_path t pid counter ≡ temporary = cc h in
    subst (λ at. str_eq (path_of t) at ≡ false) same (temporary-ne-path t pid counter)
stage-ne-path t pid counter (suc n) (already_exists ∷ openings) temporary inode h =
    stage-ne-path t pid (counter + 1) n openings temporary inode h
stage-ne-path t pid counter (suc n) (open_error ∷ openings) temporary inode h = absurd (cc h)

-- It is one of the first paths that the counter gives.
stage-temporary_path :
    (t : Target) (pid counter attempts : ℕ) (openings : List Opening) (temporary : Str) (inode : ℕ)
    → stage t pid counter attempts openings ≡ staged temporary inode
    → (k : ℕ) × (k < attempts) × (temporary_path t pid (counter + k) ≡ temporary)
unfolding stage
stage-temporary_path t pid counter zero openings temporary inode h = absurd (cc h)
stage-temporary_path t pid counter (suc n) [] temporary inode h = absurd (cc h)
stage-temporary_path t pid counter (suc n) (opened i ∷ openings) temporary inode h =
    let first : counter + 0 ≡ counter = omega arith in
    (0, omega arith, ap (temporary_path t pid) first ∙ cc h)
stage-temporary_path t pid counter (suc n) (already_exists ∷ openings) temporary inode h =
    let (k, le, same) = stage-temporary_path t pid (counter + 1) n openings temporary inode h in
    let next : counter + suc k ≡ counter + 1 + k = omega arith in
    (suc k, omega (arith, le), ap (temporary_path t pid) next ∙ same)
stage-temporary_path t pid counter (suc n) (open_error ∷ openings) temporary inode h = absurd (cc h)

module _ (t : Target) (contents : Bytes) (mode : ℕ) (temporary : Str) (inode : ℕ) (files : Files)
    (apart : str_eq (path_of t) temporary ≡ false) where
  new : File
  new = record { inode = inode; mode = mode; contents = contents }

  created : Action
  created = create temporary inode mode

  ready :
      act_all files
        (created ∷ append temporary contents ∷ set_permissions temporary mode ∷ [])
        temporary
      ≡ some new
  unfolding act act_all new created
  ready = rw (str_eq_refl temporary) refl

  abbrev written : List Action
  written = created ∷ append temporary contents ∷ []

  abbrev permitted : List Action
  permitted = created ∷ append temporary contents ∷ set_permissions temporary mode ∷ []

  two : All (IsLocal (path_of t) temporary apart) written
  unfolding created
  two = (str_eq_refl temporary, (str_eq_refl temporary, tt))

  three : All (IsLocal (path_of t) temporary apart) permitted
  unfolding created
  three = (str_eq_refl temporary, (str_eq_refl temporary, (str_eq_refl temporary, tt)))

  Made : Bool → Bool → Replacement → Type 0
  Made = IsAtomic (path_of t) temporary files new

  fill-IsAtomic :
      (c : Calls) → Made (is_kept c) c.removed (fill t contents mode temporary c (created ∷ []))
  unfolding fill Made created
  fill-IsAtomic c =
      elim c.written
        as (λ w.
          Made (is_kept (record c { written = w })) c.removed
            (fill t contents mode temporary (record c { written = w }) (created ∷ []))) [
              | some n ↦
                  failed-IsAtomic (path_of t) temporary apart files new true c.removed
                    (created ∷ append temporary (take n contents) ∷ []) refl
                    (str_eq_refl temporary, (str_eq_refl temporary, tt))
              | none ↦
                  let kept =
                    not c.permissions_set || not c.synced || not c.check || not c.renamed in
                  let here = Made kept c.removed in
                  if_cases here (not c.permissions_set) _ _
                    (λ e.
                      failed-IsAtomic (path_of t) temporary apart files new kept c.removed written
                        (ground (arith, e)) two)
                    (λ e.
                      if_cases here (not c.synced || not c.check || not c.renamed) _ _
                        (λ e'.
                          failed-IsAtomic (path_of t) temporary apart files new kept c.removed
                            permitted (ground (arith, e')) three)
                        (λ e'.
                          if_cases here (not c.directory_synced) _ _
                            (λ d.
                              let lost : false ≡ kept = ground (arith, e, e') in
                              subst
                                (λ b. Made b c.removed (
                                  failed c.removed temporary
                                    (permitted ++ rename temporary (path_of t) ∷ [])))
                                lost
                                (unsynced-IsAtomic (path_of t) temporary apart files new c.removed
                                  permitted three ready))
                            (λ d.
                              done-IsAtomic (path_of t) temporary apart files new kept c.removed
                                permitted three ready)))
            ]

-- What is at the target after a replacement that could stage its file: the text, with the mode.
abbrev pub replaced_by : Bytes → ℕ → ℕ → File
replaced_by contents mode inode = record { inode = inode; mode = mode; contents = contents }

-- A replacement that got a file: the temporary path, which is the one it opened, and what is done
-- through it.
pub record IsReplaced (t : Target) (contents : Bytes) (mode pid counter : ℕ) (c : Calls)
    (files : Files) : Type 0 where
  pub temporary : Str
  pub inode : ℕ
  pub found : stage t pid counter 128 c.openings ≡ staged temporary inode
  pub own : (k : ℕ) × (k < 128) × (temporary_path t pid (counter + k) ≡ temporary)
  pub apart : str_eq (path_of t) temporary ≡ false
  pub atomic :
      IsAtomic
        (path_of t)
        temporary
        files
        (replaced_by contents mode inode)
        (is_kept c)
        c.removed
        (replace t contents mode pid counter c)

-- A replacement either could not open a temporary file, and did nothing; or it opened one of its own
-- 128 temporary paths, which is not the target, and is atomic. At every instant the target is the old
-- file or the whole new one. It is the new one if the replacement succeeds; if it fails, it is the old
-- one if a call before the sync of the directory failed, and the new one if only that sync did. No
-- file is left at the temporary path that was opened, unless the replacement fails and so does the
-- removal, whose error is ignored. Every other path holds what it did.
pub replace-IsAtomic :
    (t : Target) (contents : Bytes) (mode pid counter : ℕ) (c : Calls) (files : Files)
    → (replace t contents mode pid counter c ≡ record { actions = []; success = false })
      ⊎ IsReplaced t contents mode pid counter c files
unfolding replace Made new created
replace-IsAtomic t contents mode pid counter c files = go (stage t pid counter 128 c.openings) refl
  where
    go :
        (s : Staged)
        → stage t pid counter 128 c.openings ≡ s
        → (replace t contents mode pid counter c ≡ record { actions = []; success = false })
          ⊎ IsReplaced t contents mode pid counter c files
    go not_staged e = inl (rw (replace, e) refl)
    go (staged temporary inode) e =
        let apart = stage-ne-path t pid counter 128 c.openings temporary inode e in
        inr (record {
          temporary = temporary;
          inode = inode;
          found = e;
          own = stage-temporary_path t pid counter 128 c.openings temporary inode e;
          apart = apart;
          atomic =
              subst
                (IsAtomic (path_of t) temporary files (replaced_by contents mode inode) (is_kept c)
                  c.removed)
                (rw (replace, e) refl)
                (fill-IsAtomic t contents mode temporary inode files apart c);
        })

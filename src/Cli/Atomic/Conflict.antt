-- ===== src/Cli/Atomic/Conflict.antt =====
-- An edit is never written over another that came before the check.
use mathlib.Core.Path.{subst}
use omarchy_presence_unlock.Base.{
  ℕ, ◌≡◌, inl, inr, refl, sym, ap, ◌∙◌, true, false, ◌&&◌, [], ◌∷◌, List, Option, none, some, Str,
  Bytes, str_eq, str_eq_sound, utf8, ==_iff, arith, Bool-cases,
}
use omarchy_presence_unlock.Cli.Atomic.{
  Files, Action, create, act_all, Target, path_of, Calls, Staged, staged, not_staged, stage,
  Replacement, failed, fill, replace,
}
use omarchy_presence_unlock.Cli.Atomic.Replace.{replaced_by, replace-IsAtomic}
use omarchy_presence_unlock.Cli.Atomic.Update.{
  Snapshot, missing, present, snapshot, same_snapshot, is_unchanged, source_of, Attempt, replaced,
  checked, write_rendered, render_snapshot, update,
}

same_snapshot_sound : (s u : Snapshot) → same_snapshot s u ≡ true → s ≡ u
same_snapshot_sound missing missing h = refl
same_snapshot_sound missing (present i x) h = absurd (cc h)
same_snapshot_sound (present i x) missing h = absurd (cc h)
same_snapshot_sound (present i x) (present j y) h =
    let inodes : i ≡ j = (==_iff i j).0 (ground arith) in
    let texts : x ≡ y = str_eq_sound x y (ground arith) in cc (inodes, texts)

unchanged_sound : (now : Option Snapshot) (s : Snapshot) → is_unchanged now s ≡ true → now ≡ some s
unchanged_sound none s h = absurd (cc h)
unchanged_sound (some now) s h = ap some (same_snapshot_sound now s h)

fill-check :
    (t : Target) (contents : Bytes) (mode : ℕ) (temporary : Str) (c : Calls) (done : List Action)
    → (fill t contents mode temporary c done).success ≡ true
    → c.check ≡ true
unfolding fill
fill-check t contents mode temporary c done h = ground arith

replace-check :
    (t : Target) (contents : Bytes) (mode pid counter : ℕ) (c : Calls)
    → (replace t contents mode pid counter c).success ≡ true
    → c.check ≡ true
unfolding replace
replace-check t contents mode pid counter c h = go (stage t pid counter 128 c.openings) refl
  where
    go : (s : Staged) → stage t pid counter 128 c.openings ≡ s → c.check ≡ true
    go not_staged e = absurd (cc (rw (replace, e) at h))
    go (staged temporary inode) e =
        fill-check t contents mode temporary c (create temporary inode mode ∷ [])
          (rw (replace, e) at h)

-- What a call that got to the replacement went through.
record Rendered (render : Str → Option Str) (a : Attempt) (r : Replacement) : Type 0 where
  first : Snapshot
  seen : snapshot a.readable_before (a.before (path_of a.target)) ≡ some first
  rendered : Str
  made : render (source_of a.missing_text first) ≡ some rendered
  shape : replace a.target (utf8 rendered) a.mode a.pid a.counter (checked a first) ≡ r

write_rendered-replaced :
    (render : Str → Option Str) (a : Attempt) (s : Snapshot) (o : Option Str) (r : Replacement)
    → snapshot a.readable_before (a.before (path_of a.target)) ≡ some s
    → render (source_of a.missing_text s) ≡ o
    → write_rendered a s o ≡ replaced r
    → Rendered render a r
write_rendered-replaced render a s none r seen made h = absurd (cc h)
write_rendered-replaced render a s (some text) r seen made h =
    elim (Bool-cases (str_eq text (source_of a.missing_text s))) [
      | inl same ↦ absurd (cc (rw same at h))
      | inr changed ↦ record {
        first = s;
        seen = seen;
        rendered = text;
        made = made;
        shape = cc (rw changed at h);
      }
    ]

render_snapshot-replaced :
    (render : Str → Option Str) (a : Attempt) (o : Option Snapshot) (r : Replacement)
    → snapshot a.readable_before (a.before (path_of a.target)) ≡ o
    → render_snapshot render a o ≡ replaced r
    → Rendered render a r
render_snapshot-replaced render a none r seen h = absurd (cc h)
render_snapshot-replaced render a (some s) r seen h =
    write_rendered-replaced render a s (render (source_of a.missing_text s)) r seen refl h

update-replaced :
    (render : Str → Option Str) (a : Attempt) (r : Replacement)
    → update render a ≡ replaced r
    → Rendered render a r
unfolding update
update-replaced render a r h = elim (Bool-cases (a.directory_made && a.locked)) [
  | inl begun ↦
      render_snapshot-replaced render a (snapshot a.readable_before (a.before (path_of a.target))) r
        refl (rw begun at h)
  | inr stuck ↦ absurd (cc (rw stuck at h))
]

-- What an update that reports success has done: it rendered the text that was there, found the same
-- file with the same text again behind the rendering, and put the rendered text in its place.
pub record IsCommitted (render : Str → Option Str) (a : Attempt) (r : Replacement) : Type 0 where
  pub first : Snapshot
  pub seen : snapshot a.readable_before (a.before (path_of a.target)) ≡ some first
  pub seen_again : snapshot a.readable_now (a.now (path_of a.target)) ≡ some first
  pub rendered : Str
  pub made : render (source_of a.missing_text first) ≡ some rendered
  pub inode : ℕ
  pub result :
      act_all a.now r.actions (path_of a.target) ≡ some (replaced_by (utf8 rendered) a.mode inode)

-- An update that replaces the file and reports success is committed, whatever other programs did
-- between its two snapshots.
pub update-IsCommitted :
    (render : Str → Option Str) (a : Attempt) (r : Replacement)
    → update render a ≡ replaced r
    → r.success ≡ true
    → IsCommitted render a r
update-IsCommitted render a r h success =
    let u = update-replaced render a r h in
    let c = checked a u.first in
    let worked : (replace a.target (utf8 u.rendered) a.mode a.pid a.counter c).success ≡ true =
      ap (λ (x : Replacement). x.success) u.shape ∙ success in
    let again =
      unchanged_sound (snapshot a.readable_now (a.now (path_of a.target))) u.first
        (replace-check a.target (utf8 u.rendered) a.mode a.pid a.counter c worked) in
    elim (replace-IsAtomic a.target (utf8 u.rendered) a.mode a.pid a.counter c a.now) [
      | inl nothing ↦ absurd (cc (sym worked ∙ ap (λ (x : Replacement). x.success) nothing))
      | inr made_so ↦ record {
        first = u.first;
        seen = u.seen;
        seen_again = again;
        rendered = u.rendered;
        made = u.made;
        inode = made_so.inode;
        result =
            ap (λ (x : Replacement). act_all a.now x.actions (path_of a.target)) (sym u.shape)
            ∙ made_so.atomic.on_success worked;
      }
    ]

unchecked_failure :
    (t : Target) (contents : Bytes) (mode pid counter : ℕ) (c : Calls)
    → c.check ≡ false
    → (replace t contents mode pid counter c).success ≡ false
unchecked_failure t contents mode pid counter c h =
    elim (Bool-cases (replace t contents mode pid counter c).success) [
      | inl worked ↦ absurd (cc (sym h ∙ replace-check t contents mode pid counter c worked))
      | inr failed ↦ failed
    ]

unchecked_kept :
    (t : Target) (contents : Bytes) (mode pid counter : ℕ) (c : Calls) (files : Files)
    → c.check ≡ false
    → act_all files (replace t contents mode pid counter c).actions (path_of t) ≡ files (path_of t)
unfolding act_all
unchecked_kept t contents mode pid counter c files h =
    elim (replace-IsAtomic t contents mode pid counter c files) [
      | inl nothing ↦ ap (λ (x : Replacement). act_all files x.actions (path_of t)) nothing
      | inr written ↦
          elim (written.atomic.on_failure (unchecked_failure t contents mode pid counter c h)) [
            | inl (stays, old) ↦ old
            | inr (lost, moved) ↦ absurd (ground (arith, h, lost))
          ]
    ]

-- An update that finds another file or another text behind its rendering fails, and leaves at the
-- target what is there, on whatever files it acts.
pub update_conflict :
    (render : Str → Option Str) (a : Attempt) (r : Replacement) (first : Snapshot) (files : Files)
    → update render a ≡ replaced r
    → snapshot a.readable_before (a.before (path_of a.target)) ≡ some first
    → is_unchanged (snapshot a.readable_now (a.now (path_of a.target))) first ≡ false
    → (r.success ≡ false) × (act_all files r.actions (path_of a.target) ≡ files (path_of a.target))
update_conflict render a r first files h seen differs =
    let u = update-replaced render a r h in
    let c = checked a u.first in
    let same : u.first ≡ first = cc (u.seen, seen) in
    let unchecked : c.check ≡ false =
      subst (λ s. is_unchanged (snapshot a.readable_now (a.now (path_of a.target))) s ≡ false)
        (sym same) differs in
    let failed : (replace a.target (utf8 u.rendered) a.mode a.pid a.counter c).success ≡ false =
      unchecked_failure a.target (utf8 u.rendered) a.mode a.pid a.counter c unchecked in
    subst
      (λ (x : Replacement).
        (x.success ≡ false)
        × (act_all files x.actions (path_of a.target) ≡ files (path_of a.target)))
      u.shape
      (failed, unchecked_kept a.target (utf8 u.rendered) a.mode a.pid a.counter c files unchecked)

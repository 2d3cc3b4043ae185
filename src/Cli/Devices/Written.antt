-- ===== src/Cli/Devices/Written.antt =====
-- What `update_config` writes.
use omarchy_presence_unlock.Base.{
  ℕ, ◌≡◌, refl, sym, ap, ◌∙◌, inl, inr, Bool, true, false, not, ◌||◌, Option, some, Str, utf8,
  Bool-cases, Option-cases, arith,
}
use omarchy_presence_unlock.Config.{ConfigFile, Settings, Result, ok, err, ◌>>=◌}
use omarchy_presence_unlock.Config.Device.{Crates}
use omarchy_presence_unlock.Config.Resolve.{check_schema, resolve}
use omarchy_presence_unlock.Cli.Atomic.{Replacement, act_all, path_of}
use omarchy_presence_unlock.Cli.Atomic.Replace.{replaced_by}
use omarchy_presence_unlock.Cli.Atomic.Update.{Attempt, replaced, source_of}
use omarchy_presence_unlock.Cli.Atomic.Conflict.{update-IsCommitted}
use omarchy_presence_unlock.Cli.Devices.Document.{Tables, Document, Texts}
use omarchy_presence_unlock.Cli.Devices.Edit.{
  is_ok, is_usable, printed_if, render, config_attempt, update_config,
}

-- A text that the daemon can start with: it is read, has the current schema and resolves.
pub record IsUsable (c : Crates) {T : Type 0} (t : Texts T) (source : Str) : Type 0 where
  pub file : ConfigFile
  pub read : t.read source ≡ some file
  pub settings : Settings
  pub resolved : check_schema file >>= resolve c ≡ ok settings

ok_of {ℓ} : {A : Type ℓ} (r : Result A) → is_ok r ≡ true → (a : A) × (r ≡ ok a)
ok_of (ok a) h = (a, refl)
ok_of (err e) h = absurd (cc h)

pub usable :
    (c : Crates) (k : Tables) (t : Texts k.Table) (source : Str)
    → is_usable c k t source ≡ true
    → IsUsable c t source
unfolding is_usable
usable c k t source h = elim (Option-cases (t.read source)) [
  | inl unread ↦ absurd (cc (rw unread at h))
  | inr (file, read) ↦
      let found = ok_of (check_schema file >>= resolve c) (rw read at h) in
      record { file = file; read = read; settings = found.0; resolved = found.1 }
]

-- What was rendered is the print of a document that the edit made of the parsed text.
pub record IsEdited (c : Crates) (k : Tables) (t : Texts k.Table)
    (edit : Document k.Table → Option (Document k.Table)) (source out : Str) : Type 0 where
  pub document : Document k.Table
  pub parsed : t.parse source ≡ some document
  pub edited : Document k.Table
  pub made : edit document ≡ some edited
  pub printed : t.print edited ≡ out

printed-some :
    (c : Crates) (k : Tables) (t : Texts k.Table) (allow_empty : Bool) (document : Document k.Table)
    (out : Str)
    → printed_if c k t allow_empty (some document) ≡ some out
    → (t.print document ≡ out) × (allow_empty ≡ false → is_usable c k t out ≡ true)
printed-some c k t allow_empty document out h =
    elim (Bool-cases (allow_empty || is_usable c k t (t.print document))) [
      | inl passed ↦
          let same : t.print document ≡ out = cc (rw passed at h) in
          (same, λ strict. ap (is_usable c k t) (sym same) ∙ ground (arith, passed, strict))
      | inr refused ↦ absurd (cc (rw refused at h))
    ]

pub render-some :
    (c : Crates) (k : Tables) (t : Texts k.Table) (allow_empty : Bool)
    (edit : Document k.Table → Option (Document k.Table)) (source out : Str)
    → render c k t allow_empty edit source ≡ some out
    → IsEdited c k t edit source out × (allow_empty ≡ false → IsUsable c t out)
unfolding render
render-some c k t allow_empty edit source out h = elim (Option-cases (t.parse source)) [
  | inl unread ↦ absurd (cc (rw unread at h))
  | inr (document, parsed) ↦ elim (Option-cases (edit document)) [
    | inl refused ↦ absurd (cc (rw (parsed, refused) at h))
    | inr (edited, made) ↦
        let printed = printed-some c k t allow_empty edited out (rw (parsed, made) at h) in
        (
          record {
            document = document;
            parsed = parsed;
            edited = edited;
            made = made;
            printed = printed.0;
          },
          λ strict. usable c k t out (printed.1 strict),
        )
  ]
]

-- What an edit of the configuration has left at the file: a text with the private mode, which is the
-- edit of the text that was there.
pub record Saved (c : Crates) (k : Tables) (t : Texts k.Table) (strict : Bool)
    (edit : Document k.Table → Option (Document k.Table)) (a : Attempt) (r : Replacement)
    : Type 0 where
  pub source : Str
  pub out : Str
  pub edited : IsEdited c k t edit source out
  pub usable : strict ≡ true → IsUsable c t out
  pub inode : ℕ
  pub result :
      act_all a.now r.actions (path_of a.target) ≡ some (replaced_by (utf8 out) 0x180 inode)

-- An edit of the configuration that replaces the file and reports success has left the whole edited
-- text there with mode 0600; and if an empty configuration is not allowed, the daemon can read that text and
-- resolves it to settings.
pub update_config-Saved :
    (c : Crates) (k : Tables) (t : Texts k.Table) (prepared allow_empty : Bool)
    (edit : Document k.Table → Option (Document k.Table)) (a : Attempt) (r : Replacement)
    → update_config c k t prepared allow_empty edit a ≡ replaced r
    → r.success ≡ true
    → Saved c k t (not allow_empty) edit a r
unfolding update_config
update_config-Saved c k t false allow_empty edit a r h success = absurd (cc h)
update_config-Saved c k t true allow_empty edit a r h success =
    let attempt = config_attempt c k t a in
    let done = update-IsCommitted (render c k t allow_empty edit) attempt r h success in
    let from = source_of attempt.missing_text done.first in
    let rendered = render-some c k t allow_empty edit from done.rendered done.made in
    record {
      source = from;
      out = done.rendered;
      edited = rendered.0;
      usable = λ strict. rendered.1 (ground (arith, strict));
      inode = done.inode;
      result = done.result;
    }

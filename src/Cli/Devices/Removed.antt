-- ===== src/Cli/Devices/Removed.antt =====
-- What the removal of a device leaves.
use omarchy_presence_unlock.Base.{
  ◌≡◌, ◌⊎◌, refl, sym, ap, ◌∙◌, inl, inr, true, false, not, List, [], ◌∷◌, Option, none, some, Str,
  All, All-map, retain, retain-All, length, length-retain-le, ◌<◌, ◌==◌, ==_iff, Bool-cases, arith,
}
use omarchy_presence_unlock.Config.Device.{Crates}
use omarchy_presence_unlock.Cli.Devices.Document.{Tables, tables, Document, Texts}
use omarchy_presence_unlock.Cli.Devices.Edit.{
  device_array, has_id, with_devices, is_absent, is_usable, remove_from, remove_checked,
  remove_device,
}
use omarchy_presence_unlock.Cli.Devices.Written.{IsUsable, usable}

-- The devices behind a removal are those without the id, and there was one with it; the rest of the
-- document is as it was, and it is usable unless no device is left.
pub record IsRemoved (c : Crates) (k : Tables) (t : Texts k.Table) (id : Str)
    (document out : Document k.Table) : Type 0 where
  pub was : List k.Table
  pub array : device_array document.device ≡ some was
  pub now : List k.Table
  pub edited : out.device ≡ tables now
  pub root : out.root ≡ document.root
  pub gone : All (λ table. has_id k id table ≡ false) now
  pub kept : now ≡ retain (λ table. not (has_id k id table)) was
  pub fewer : length now < length was
  pub usable : (now ≡ []) ⊎ IsUsable c t (t.print out)

empty_of_length : {A : Type 0} (xs : List A) → length xs ≡ 0 → xs ≡ []
empty_of_length [] h = refl
empty_of_length (x ∷ xs) h = absurd (omega (arith, h))

module _ (c : Crates) (k : Tables) (t : Texts k.Table) (id : Str)
    (document out : Document k.Table) where
  abbrev others : List k.Table → List k.Table
  others = retain (λ table. not (has_id k id table))

  removed :
      (ts : List k.Table)
      → device_array document.device ≡ some ts
      → (length (others ts) == length ts) ≡ false
      → with_devices k document (others ts) ≡ out
      → (others ts ≡ []) ⊎ IsUsable c t (t.print out)
      → IsRemoved c k t id document out
  removed ts array some_gone made usable =
      let none_has = retain-All (λ table. not (has_id k id table)) ts in
      let at_most = length-retain-le (λ table. not (has_id k id table)) ts in
      record {
        was = ts;
        array = array;
        now = others ts;
        edited = sym (ap (λ (d : Document k.Table). d.device) made);
        root = sym (ap (λ (d : Document k.Table). d.root) made);
        gone =
            All-map (λ table. not (has_id k id table) ≡ true) (λ table. has_id k id table ≡ false)
              (others ts) (λ table h. ground (arith, h)) none_has;
        kept = refl;
        fewer = ground (arith, some_gone, at_most);
        usable = usable;
      }

  remove_from-IsRemoved :
      (ts : List k.Table)
      → device_array document.device ≡ some ts
      → remove_from c k t id document ts ≡ some out
      → IsRemoved c k t id document out
  remove_from-IsRemoved ts array h =
      let edited = with_devices k document (others ts) in
      elim (Bool-cases (length (others ts) == length ts)) [
        | inl all ↦ absurd (cc (rw all at h))
        | inr some_gone ↦ elim (Bool-cases (length (others ts) == 0)) [
          | inl none_left ↦
              removed ts array some_gone (cc (rw (some_gone, none_left) at h))
                (inl (empty_of_length (others ts) ((==_iff (length (others ts)) 0).0 none_left)))
          | inr left ↦ elim (Bool-cases (is_usable c k t (t.print edited))) [
            | inl passed ↦
                let made : edited ≡ out = cc (rw (some_gone, left, passed) at h) in
                removed ts array some_gone made (
                  inr (
                    usable c k t (t.print out)
                      (ap (λ d. is_usable c k t (t.print d)) (sym made) ∙ passed)))
            | inr refused ↦ absurd (cc (rw (some_gone, left, refused) at h))
          ]
        ]
      ]

  remove_checked-IsRemoved :
      (o : Option (List k.Table))
      → device_array document.device ≡ o
      → remove_checked c k t id document o ≡ some out
      → IsRemoved c k t id document out
  remove_checked-IsRemoved none array h = absurd (cc h)
  remove_checked-IsRemoved (some ts) array h = remove_from-IsRemoved ts array h

-- A removal that is not refused leaves no device with the id and every other device as it was, there
-- was a device with the id, and what is left is usable, or it has no device.
pub remove_device-IsRemoved :
    (c : Crates) (k : Tables) (t : Texts k.Table) (id : Str) (document out : Document k.Table)
    → remove_device c k t id document ≡ some out
    → IsRemoved c k t id document out
unfolding remove_device
remove_device-IsRemoved c k t id document out h =
    elim (Bool-cases (is_absent c k t document.device)) [
      | inl missing ↦ absurd (cc (rw missing at h))
      | inr there ↦
          remove_checked-IsRemoved c k t id document out (device_array document.device) refl
            (rw there at h)
    ]

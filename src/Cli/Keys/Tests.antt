-- ===== src/Cli/Keys/Tests.antt =====
-- An arrow key cut in two.
use omarchy_presence_unlock.Base.{◌≡◌, refl, true, false, [], ◌∷◌, ◌++◌, Bytes, arith}
use omarchy_presence_unlock.Cli.Keys.{
  esc, undecided, verdict, bytes, nothing, wait, Press, pressed, wait_for_press,
}
use omarchy_presence_unlock.Cli.Keys.Split.{wait-bytes}

abbrev head : Bytes
head = esc ∷ []

abbrev tail : Bytes
tail = b'[' ∷ b'A' ∷ []

waiting : verdict head ≡ undecided
unfolding verdict
waiting = refl

wait-bytes_example :
    wait false (bytes head ∷ bytes tail ∷ nothing ∷ [])
    ≡ wait false (bytes (head ++ tail) ∷ nothing ∷ [])
wait-bytes_example = wait-bytes head tail (nothing ∷ []) waiting refl (omega arith)

arrow_press : wait_for_press true true (bytes head ∷ bytes tail ∷ []) ≡ pressed
unfolding verdict wait wait_for_press
arrow_press = refl

lone_esc : wait_for_press true true (bytes head ∷ nothing ∷ []) ≡ Press.cancel
unfolding verdict wait wait_for_press
lone_esc = refl

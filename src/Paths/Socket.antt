-- ===== src/Paths/Socket.antt =====
-- The socket belongs to one user.
use mathlib.Core.List.{append_cancel_left, append_cancel_right}
use omarchy_presence_unlock.Base.{
  ℕ, ◌≡◌, refl, sym, ap, ◌∙◌, [], ◌∷◌, ◌++◌, append_assoc, Str, codes,
}
use omarchy_presence_unlock.Numbers.{decimal}
use omarchy_presence_unlock.Numbers.RoundTrip.{decimal_injective}
use omarchy_presence_unlock.Paths.{with_separator, join, socket_dir, socket_path}

-- The separator goes behind the last part.
with_separator-append :
    (p : Str) (c : ℕ) (s : Str) → with_separator (p ++ c ∷ s) ≡ p ++ with_separator (c ∷ s)
unfolding with_separator
with_separator-append [] c s = refl
with_separator-append (d ∷ []) c s = refl
with_separator-append (d ∷ e ∷ p) c s = ap (◌∷◌ d) (with_separator-append (e ∷ p) c s)

abbrev socket_tail : Str
socket_tail = codes "/omarchy-presence-unlock/control.sock"

socket_path_parts : (uid : ℕ) → socket_path uid ≡ codes "/run/user/" ++ (decimal uid ++ socket_tail)
unfolding socket_path socket_dir join with_separator
socket_path_parts uid =
    ap (λ l. codes "/run/user" ++ (l ++ codes "control.sock"))
      (with_separator-append (codes "/" ++ decimal uid) b'/' (codes "omarchy-presence-unlock"))
    ∙ ap (λ l. codes "/run/user/" ++ l)
        (append_assoc (decimal uid) (codes "/omarchy-presence-unlock/") (codes "control.sock"))

-- Two users never have the same socket.
pub socket_path_injective : (m n : ℕ) → socket_path m ≡ socket_path n → m ≡ n
socket_path_injective m n e =
    let parts = sym (socket_path_parts m) ∙ (e ∙ socket_path_parts n) in
    decimal_injective m n (
      append_cancel_right (decimal m) (decimal n) socket_tail (
        append_cancel_left (codes "/run/user/") (decimal m ++ socket_tail)
          (decimal n ++ socket_tail) parts))

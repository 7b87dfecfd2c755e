-- ===== src/Common/Prefixes.antt =====
-- Texts that begin with another one.
use mathlib.Core.Path.{◌≡◌, refl}
use mathlib.Core.Bool.{true}
use mathlib.Core.List.{[], ◌∷◌, ◌++◌}
use native.Mathlib.Omega.{arith}
use you_tube_gradian_devin.Common.Lists.{drop, length}
use you_tube_gradian_devin.Common.Texts.{Text, starts_with}

pub starts_with-drop :
    (prefix value : Text)
    → starts_with prefix value ≡ true
    → value ≡ prefix ++ drop (length prefix) value
unfolding starts_with
starts_with-drop [] value h = refl
starts_with-drop (p ∷ prefix) [] h = cc
starts_with-drop (p ∷ prefix) (c ∷ value) h = ground (arith, starts_with-drop prefix value)

pub starts_with-append : (prefix value : Text) → starts_with prefix (prefix ++ value) ≡ true
unfolding starts_with
starts_with-append [] value = refl
starts_with-append (p ∷ prefix) value = ground (arith, starts_with-append prefix value)

pub drop-append : (w t : Text) → drop (length w) (w ++ t) ≡ t
drop-append [] t = refl
drop-append (c ∷ w) t = drop-append w t

-- ===== src/Print/Widths.antt =====
-- The width of the drawing, in characters. The boxes' borders count bytes, and the blanks
-- beside them characters, so that the names must be ASCII.
use mathlib.Core.Path.{ap₂}
use k_mesh.Base.{
  ℕ, ◌+◌, ◌<◌, ◌≡◌, refl, ap, Bool, true, false, some, List, [], ◌∷◌, ◌++◌, arith, All, ltb, map,
  ◌==◌, ◌/◌, length, length-append, Bool-cases, inl, inr, ◌∙◌, suc, zero,
}
use k_mesh.Base.Text.{Text, text, byte_len, rune_count, repeat}
use k_mesh.Print.{new_cell_top, new_cell_text, new_cell_lower, sp_rows}
use k_mesh.Print.Picture.{trunk, arrow, beside, picture, sp_rows-picture}

abbrev pub IsAscii : Text → Type 0
IsAscii = All (λ c. c < 128)

-- The width of each row: the parent's box, the joint, the child's box.
abbrev pub widths : Text → List Text → List ℕ
widths parent [] = []
widths parent (c ∷ cs) =
    let w = (rune_count parent + 6) + (5 + (rune_count c + 6)) in w ∷ w ∷ w ∷ widths parent cs

byte_len-IsAscii : (t : Text) → IsAscii t → byte_len t ≡ rune_count t
unfolding byte_len
byte_len-IsAscii [] h = refl
byte_len-IsAscii (c ∷ t) (h, hs) = ground (arith, byte_len-IsAscii t hs)

rune_count-repeat : (c n : ℕ) → rune_count (repeat (c ∷ []) n) ≡ n
rune_count-repeat c zero = refl
rune_count-repeat c (suc n) = ap suc (rune_count-repeat c n)

rune_count-top : (t : Text) → IsAscii t → rune_count (new_cell_top t) ≡ rune_count t + 6
unfolding new_cell_top
rune_count-top t h = omega (
  arith,
  length-append {0} (repeat (text "━") (byte_len t + 4)) (text "┓"),
  rune_count-repeat 0x2501 (byte_len t + 4),
  byte_len-IsAscii t h,
)

rune_count-text : (t : Text) → rune_count (new_cell_text t) ≡ rune_count t + 6
unfolding new_cell_text
rune_count-text t = omega (arith, length-append {0} t (text "  ┃"))

rune_count-lower : (t : Text) → IsAscii t → rune_count (new_cell_lower t) ≡ rune_count t + 6
unfolding new_cell_lower
rune_count-lower t h = omega (
  arith,
  length-append {0} (repeat (text "━") (byte_len t + 4)) (text "┛"),
  rune_count-repeat 0x2501 (byte_len t + 4),
  byte_len-IsAscii t h,
)

rune_count-beside : (n i : ℕ) (l : Text) → rune_count (beside n i l) ≡ rune_count l
rune_count-beside n i l = elim (Bool-cases (i == n / 2)) [
  | inl e ↦ rw e
  | inr e ↦ rw e (rune_count-repeat 0x20 (rune_count l))
]

rune_count-trunk : (b : Bool) → rune_count (trunk b ++ text "   ") ≡ 5
rune_count-trunk true = refl
rune_count-trunk false = refl

rune_count-arrow : (n i : ℕ) → rune_count (arrow n i) ≡ 5
rune_count-arrow n i = ground arith

rune_count-row :
    (left joint line : Text) (a b : ℕ)
    → rune_count left ≡ a
    → rune_count joint ≡ 5
    → rune_count line ≡ b
    → rune_count (left ++ (joint ++ line)) ≡ a + (5 + b)
rune_count-row left joint line a b p q r =
    omega (arith, length-append {0} left (joint ++ line), length-append {0} joint line)

picture-widths :
    (parent : Text) (n i : ℕ) (children : List Text)
    → IsAscii parent
    → All IsAscii children
    → map rune_count (picture parent n i children) ≡ widths parent children
picture-widths parent n i [] p h = refl
picture-widths parent n i (c ∷ cs) p (h, hs) =
    let a = rune_count parent + 6 in
    let b = rune_count c + 6 in
    let top : rune_count (beside n i (new_cell_top parent)) ≡ a =
      rune_count-beside n i _ ∙ rune_count-top parent p in
    let middle : rune_count (beside n i (new_cell_text parent)) ≡ a =
      rune_count-beside n i _ ∙ rune_count-text parent in
    let lower : rune_count (beside n i (new_cell_lower parent)) ≡ a =
      rune_count-beside n i _ ∙ rune_count-lower parent p in
    ap₂ ◌∷◌ (rune_count-row _ _ _ a b top (rune_count-trunk (ltb 0 i)) (rune_count-top c h)) (
      ap₂ ◌∷◌ (rune_count-row _ _ _ a b middle (rune_count-arrow n i) (rune_count-text c)) (
        ap₂ ◌∷◌
          (rune_count-row _ _ _ a b lower (rune_count-trunk (ltb (i + 1) n)) (rune_count-lower c h))
          (picture-widths parent n (i + 1) cs p hs)))

-- With ASCII names the drawing ends without a fault, and its rows fit together: every row is as
-- wide as the parent's box, a joint of five characters, and the box of its child.
pub sp_rows-widths :
    (parent : Text) (children : List Text)
    → IsAscii parent
    → All IsAscii children
    → (rows : List Text) × (sp_rows parent children ≡ some rows)
      × (map rune_count rows ≡ widths parent children)
sp_rows-widths parent children p h = (
  picture parent (length children) 0 children,
  sp_rows-picture parent children,
  picture-widths parent (length children) 0 children p h,
)

-- ===== src/Log/Header.antt =====
-- The header block of kernel/log.c: what `write_head` writes, `read_head` reads back.
use mit_operating_system_eng.Base.{
  ℕ, suc, ◌≤◌, ◌<◌, ◌≡◌, refl, ap, List, [], ◌∷◌, length, take, arith,
}
use mit_operating_system_eng.Log.{Block, overlay, header_blocks}

pub length-overlay : (xs : List ℕ) (ys : Block) → length (overlay xs ys) ≡ length ys
unfolding overlay
length-overlay [] ys = refl
length-overlay (x ∷ xs) [] = refl
length-overlay (x ∷ xs) (y ∷ ys) = ap suc (length-overlay xs ys)

take-overlay :
    (xs : List ℕ) (ys : Block) → length xs ≤ length ys → take (length xs) (overlay xs ys) ≡ xs
unfolding overlay
take-overlay [] ys h = refl
take-overlay (x ∷ xs) [] h = absurd (omega arith)
take-overlay (x ∷ xs) (y ∷ ys) h = ap (λ t. x ∷ t) (take-overlay xs ys (omega arith))

pub header_blocks-overlay :
    (bs : List ℕ) (h : Block)
    → length bs < length h
    → header_blocks (overlay (length bs ∷ bs) h) ≡ bs
unfolding header_blocks overlay
header_blocks-overlay bs [] h = absurd (omega arith)
header_blocks-overlay bs (w ∷ ws) h = take-overlay bs ws (omega arith)

pub header_blocks-clear : (h : Block) → header_blocks (overlay (0 ∷ []) h) ≡ []
unfolding header_blocks overlay
header_blocks-clear [] = refl
header_blocks-clear (w ∷ ws) = refl

-- ===== src/App/Queue/Slices.antt =====
-- The notes on the "kill surplus of workers" algorithm, app/queue.go.
use zackup.Base.{
  ℕ, zero, ◌+◌, ◌≤◌, none, List, [], ◌∷◌, ◌++◌, length, take, drop, replicate, ◌≡◌, refl, arith,
  length-drop, ap, sym, ◌∙◌,
}
use zackup.App.Queue.{Cell, copy, clear_from, shrink}

copy-append :
    (dst src : List Cell) → length src ≤ length dst → copy dst src ≡ src ++ drop (length src) dst
unfolding copy
copy-append [] [] h = refl
copy-append [] (s ∷ src) h = absurd (omega arith)
copy-append (d ∷ dst) [] h = refl
copy-append (d ∷ dst) (s ∷ src) h = ap (λ r. s ∷ r) (copy-append dst src (omega arith))

clear_all : (cells : List Cell) → clear_from zero cells ≡ replicate (length cells) none
unfolding clear_from
clear_all [] = refl
clear_all (c ∷ cs) = ap (λ r. none ∷ r) (clear_all cs)

clear_from-append :
    (xs ys : List Cell) → clear_from (length xs) (xs ++ ys) ≡ xs ++ replicate (length ys) none
unfolding clear_from
clear_from-append [] ys = clear_all ys
clear_from-append (x ∷ xs) ys = ap (λ r. x ∷ r) (clear_from-append xs ys)

pub take-append : (xs ys : List Cell) → take (length xs) (xs ++ ys) ≡ xs
take-append [] ys = refl
take-append (x ∷ xs) ys = ap (λ r. x ∷ r) (take-append xs ys)

-- Removing `diff` workers from the front leaves the later ones in their order, as the slice, and
-- behind them in the array nothing but nil, `diff` times: no removed channel is kept alive. There
-- are at least `diff` workers.
pub shrink_lem :
    (diff new_size : ℕ) (cells : List Cell)
    → diff + new_size ≡ length cells
    → (shrink diff new_size cells ≡ drop diff cells ++ replicate diff none)
      × (take new_size (shrink diff new_size cells) ≡ drop diff cells)
unfolding shrink
shrink_lem diff new_size cells h =
    let kept = drop diff cells in
    let size : length kept ≡ new_size = omega (arith, length-drop diff cells) in
    let removed : length (drop (length kept) cells) ≡ diff =
      omega (arith, length-drop (length kept) cells, length-drop diff cells) in
    let array : shrink diff new_size cells ≡ kept ++ replicate diff none =
      rw (copy-append cells kept (omega (arith, length-drop diff cells))) (
        rw (sym size) (
          clear_from-append kept (drop (length kept) cells)
          ∙ ap (λ n. kept ++ replicate n none) removed)) in
    (array, rw array (rw (sym size) (take-append kept (replicate diff none))))

-- ===== src/Trees/Target.antt =====
-- The target of a read (`_doReadBytes` of DataTree.cpp), which is filled from left to right.
use libcryfs.Common.{
  ℕ, ◌+◌, ◌-◌, ◌*◌, ◌≤◌, ◌≡◌, ◌∙◌, sym, ap, ◌++◌, length, length-append, arith, take, drop,
  length-take, length-drop, drop-drop,
}
use libcryfs.Common.Result.{ok}
use libcryfs.Common.Bytes.{Data}
use libcryfs.Common.Memory.{write_memory, write_memory-at}
use libcryfs.Trees.Content.{take-leaf}

-- The bytes of the range that are read when `n` leaves are behind.
abbrev pub progress : ℕ → ℕ → ℕ → ℕ → ℕ
progress most offset count n = (n * most - offset) - ((n * most - offset) - count)

-- The target with those bytes.
abbrev pub target_at : Data → Data → ℕ → ℕ → Data
target_at bytes target offset position = take position (drop offset bytes) ++ drop position target

-- The next bytes are written behind those that are there.
pub target_at-step :
    (pre bytes post target : Data) (offset position first count : ℕ)
    → offset + position ≡ length pre + first
    → first + count ≤ length bytes
    → position + count ≤ length target
    → write_memory
        (target_at (pre ++ (bytes ++ post)) target offset position)
        position
        (take count (drop first bytes))
      ≡ ok (target_at (pre ++ (bytes ++ post)) target offset (position + count))
target_at-step pre bytes post target offset position first count place inside room =
    let whole = pre ++ (bytes ++ post) in
    let long : length whole ≡ length pre + (length bytes + length post) =
      length-append pre (bytes ++ post) ∙ ap (λ n. length pre + n) (length-append bytes post) in
    let front : position ≡ length (take position (drop offset whole)) = omega (
      arith,
      length-take position (drop offset whole),
      length-drop offset whole,
      long,
      place,
      inside,
    ) in
    let size : length (take count (drop first bytes)) ≡ count =
      omega (arith, length-take count (drop first bytes), length-drop first bytes, inside) in
    let held = take position (drop offset whole) ++ take count (drop first bytes) in
    let fill : ℕ → Data = λ n. held ++ drop n (drop position target) in
    write_memory-at (take position (drop offset whole)) (take count (drop first bytes))
      (drop position target) position front (omega (arith, size, length-drop position target, room))
    ∙ ap (λ n. ok (fill n)) size
    ∙ ap (λ l. ok (held ++ l)) (drop-drop count position target)
    ∙ ap (λ l. ok (l ++ drop (position + count) target))
        (sym (take-leaf pre bytes post offset position first count place inside))

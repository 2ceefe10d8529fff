-- ===== src/Directory/Serialized/Cursors.antt =====
-- The pointers with which the bytes of a directory are written (DirEntry.cpp).
use libcryfs.Common.{
  ℕ, ◌+◌, ◌%◌, ◌^◌, ◌∙◌, sym, ap, ◌≤◌, ◌<◌, ◌≡◌, refl, [], ◌++◌, arith, length, drop, length-append,
  append_assoc,
}
use libcryfs.Common.Equality.{nat_eq}
use libcryfs.Common.Result.{ok}
use libcryfs.Common.Bytes.{Data}
use libcryfs.Common.Memory.{write_memory, write_memory-at}
use libcryfs.Directory.Serialized.{Cursor, call_at, after_call, put}

-- The cursor behind `front` that has written `before` and has `junk` to overwrite.
abbrev pub at : Data → Data → Data → Cursor
at front before junk = record {
  dest = length front;
  offset = length before;
  memory = front ++ (before ++ junk);
}

cursor-eq :
    (dest offset offset' : ℕ) (memory memory' : Data)
    → offset ≡ offset'
    → memory ≡ memory'
    → ◌≡◌ {A = Cursor}
        (record { dest = dest; offset = offset; memory = memory })
        (record { dest = dest; offset = offset'; memory = memory' })
cursor-eq dest offset offset' memory memory' e f =
    λ i. record { dest = dest; offset = e i; memory = f i }

put-run :
    (c : Cursor) (bytes memory : Data)
    → write_memory c.memory (c.dest + c.offset) bytes ≡ ok memory
    → put bytes c
      ≡ ok (record { dest = c.dest; offset = (c.offset + length bytes) % 2 ^ 32; memory = memory })
unfolding put
put-run c bytes memory run = rw run refl

pub put-at :
    (front before junk bytes : Data) (n : ℕ)
    → length bytes ≡ n
    → n ≤ length junk
    → length before + n < 2 ^ 32
    → put bytes (at front before junk) ≡ ok (at front (before ++ bytes) (drop n junk))
put-at front before junk bytes n e h small =
    put-run (at front before junk) bytes _ (
      ap (λ m. write_memory m (length front + length before) bytes)
        (sym (append_assoc front before junk))
      ∙ write_memory-at (front ++ before) bytes junk (length front + length before)
          (sym (length-append front before)) (omega (arith, e, h)))
    ∙ ap ok (
        cursor-eq (length front) _ _ _ _ (omega (arith, length-append before bytes, e, small)) (
          append_assoc (front ++ before) bytes (drop (length bytes) junk)
          ∙ append_assoc front before (bytes ++ drop (length bytes) junk)
          ∙ ap (λ l. front ++ l) (sym (append_assoc before bytes (drop (length bytes) junk)))
          ∙ ap (λ k. front ++ ((before ++ bytes) ++ drop k junk)) e))

-- A call that is given the pointer and the offset added up.
pub call_at-at :
    (front before junk : Data) → call_at (at front before junk) ≡ at (front ++ before) [] junk
call_at-at front before junk = λ i. record {
  dest = sym (length-append front before) i;
  offset = 0;
  memory = sym (append_assoc front before junk) i;
}

pub after_call-at :
    (front before junk bytes rest : Data) (n : ℕ)
    → length bytes ≡ n
    → length before + n < 2 ^ 32
    → after_call (at front before junk) n (at (front ++ before) bytes rest)
      ≡ at front (before ++ bytes) rest
after_call-at front before junk bytes rest n e small =
    cursor-eq (length front) _ _ _ _ (omega (arith, length-append before bytes, e, small)) (
      append_assoc front before (bytes ++ rest)
      ∙ ap (λ l. front ++ l) (sym (append_assoc before bytes rest)))

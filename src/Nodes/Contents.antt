-- ===== src/Nodes/Contents.antt =====
-- The file of fs/fskit/node.go over a run of calls: its offset, and what is read back.
use wanix.Base.{
  ℕ, zero, suc, ◌+◌, ◌-◌, ◌≤◌, Bytes, ◌≡◌, refl, sym, ap, ◌∙◌, true, false, inl, inr, none, some,
  List, [], ◌∷◌, ◌++◌, arith, ltb, length, take, drop, Bool-cases, length-append, length-take,
  length-drop, drop-drop, drop-length, take-append_length, drop-append_length, ℤ, pos, negsuc,
  Option-cases,
}
use wanix.Errors.{bare, eof}
use wanix.Nodes.{NodeFile, read, seek, write, write_at, written, zeros, in_range, seek_target}
use wanix.Nodes.Splice.{written_lem, length-zeros}

-- The calls that move the offset of a file or change its data, and what a file is after each.
pub data Call : Type 0 where
  reading : ℕ → Call
  seeking : ℤ → ℕ → Call
  writing : Bytes → ℕ → Call
  writing_at : Bytes → ℤ → ℕ → Call

-- The offset is not behind the end of the data.
abbrev pub IsInside : NodeFile → Type 0
IsInside f = f.offset ≤ length f.bytes

length-before : (cur : ℕ) (old : Bytes) → length (take cur (old ++ zeros (cur - length old))) ≡ cur
length-before cur old = omega (
  arith,
  length-take cur (old ++ zeros (cur - length old)),
  length-append old (zeros (cur - length old)),
  length-zeros (cur - length old),
)

length-written : (cur : ℕ) (b old : Bytes) → cur + length b ≤ length (written cur b old)
length-written cur b old =
    let before = take cur (old ++ zeros (cur - length old)) in
    let rest = drop (cur + length b) old in
    rw (written_lem cur b old)
      (omega (arith, length-append before (b ++ rest), length-append b rest, length-before cur old))

-- What was written is what stands at its place.
drop-written :
    (cur : ℕ) (b old : Bytes) → drop cur (written cur b old) ≡ b ++ drop (cur + length b) old
drop-written cur b old =
    let before = take cur (old ++ zeros (cur - length old)) in
    rw (written_lem cur b old) (
      ap (λ n. drop n (before ++ (b ++ drop (cur + length b) old))) (sym (length-before cur old))
      ∙ drop-append_length before (b ++ drop (cur + length b) old))

in_range-at : (n : ℕ) (z : ℤ) (at : ℕ) → in_range n z ≡ some at → at ≤ n
in_range-at n (negsuc k) at h = absurd (ground arith)
in_range-at n (pos k) at h = ground arith

module _ (max_int : ℕ) (name : Bytes) where
  unfoldable pub call : Call → NodeFile → NodeFile
  unfolding read seek write write_at
  call (reading n) f = (read max_int name none n f).1
  call (seeking offset whence) f = (seek max_int name offset whence f).1
  call (writing b now) f = (write max_int name none b now f).1
  call (writing_at b offset now) f = (write_at max_int name none b offset now f).1

  unfoldable pub run : List Call → NodeFile → NodeFile
  unfolding call
  run [] f = f
  run (c ∷ cs) f = run cs (call c f)

  write-IsInside :
      (b : Bytes) (now : ℕ) (f : NodeFile)
      → IsInside f
      → IsInside (write max_int name none b now f).1
  unfolding write
  write-IsInside b now f h = ground (arith, length-written f.offset b f.bytes)

  call-IsInside : (c : Call) (f : NodeFile) → IsInside f → IsInside (call c f)
  unfolding call
  call-IsInside (reading n) f h =
      unfold read in
      ground (arith, length-take n (drop f.offset f.bytes), length-drop f.offset f.bytes)
  call-IsInside (seeking offset whence) f h =
      elim (Option-cases (in_range (length f.bytes) (seek_target offset whence f))) [
        | inl out ↦ rw (call, seek, out) (ground arith)
        | inr (at, there) ↦
            rw (call, seek, there)
              (ground (arith, in_range-at (length f.bytes) (seek_target offset whence f) at there))
      ]
  call-IsInside (writing b now) f h = write-IsInside b now f h
  call-IsInside (writing_at b offset now) f h =
      elim (Option-cases (in_range (length f.bytes) offset)) [
        | inl out ↦ rw (call, write_at, out) (ground arith)
        | inr (at, there) ↦
            let moved =
              write-IsInside b now (record f { offset = at; dirty = true })
                (in_range-at (length f.bytes) offset at there) in
            rw (call, write_at, there) (ground (arith, moved))
      ]

  -- Whatever is called on a file whose offset is not behind the end of its data, reads, seeks and
  -- writes in any order, its offset never comes to be behind that end.
  pub run-IsInside : (cs : List Call) (f : NodeFile) → IsInside f → IsInside (run cs f)
  unfolding run
  run-IsInside [] f h = h
  run-IsInside (c ∷ cs) f h = run-IsInside cs (call c f) (call-IsInside c f h)

  -- What is written to an open file is read back at the offset where it was written, and the file
  -- is then where it was after the write; for a write of at least one byte that ends within the
  -- integers of the machine.
  pub read-write :
      (c : ℕ) (bs : Bytes) (now : ℕ) (f : NodeFile)
      → f.closed ≡ false
      → f.offset + length (c ∷ bs) ≤ max_int
      → read max_int name none
          (length (c ∷ bs))
          (record (write max_int name none (c ∷ bs) now f).1 { offset = f.offset })
        ≡ ((c ∷ bs, none), (write max_int name none (c ∷ bs) now f).1)
  unfolding read write
  read-write c bs now f opened fits =
      let b = c ∷ bs in
      let new = written f.offset b f.bytes in
      let e1 : ltb max_int f.offset ≡ false = ground arith in
      let e2 : ltb max_int (f.offset + length b) ≡ false = ground arith in
      let e3 : ltb f.offset (length new) ≡ true =
        ground (arith, length-written f.offset b f.bytes) in
      rw (
        opened,
        e1,
        e2,
        e3,
        drop-written f.offset b f.bytes,
        take-append_length bs (drop (f.offset + length b) f.bytes),
      )

  -- WriteAt within the data of an open file, and within the integers of the machine, succeeds and
  -- leaves the offset behind what it wrote, wherever the offset was before.
  pub write_at-offset :
      (b : Bytes) (at now : ℕ) (f : NodeFile)
      → f.closed ≡ false
      → at ≤ length f.bytes
      → at + length b ≤ max_int
      → ((write_at max_int name none b (pos at) now f).0 ≡ (length b, none))
        × ((write_at max_int name none b (pos at) now f).1.offset ≡ at + length b)
  unfolding write_at write
  write_at-offset b at now f opened inside fits =
      let e0 : ltb (length f.bytes) at ≡ false = ground arith in
      let e1 : ltb max_int at ≡ false = ground arith in
      let e2 : ltb max_int (at + length b) ≡ false = ground arith in
      rw (opened, e0, opened, e1, e2) (refl, refl)

  read-over :
      (n : ℕ) (f : NodeFile)
      → f.closed ≡ false
      → ltb f.offset (length f.bytes) ≡ false
      → read max_int name none n f ≡ (([], some (bare eof)), f)
  unfolding read
  read-over n f opened over = rw (opened, over)

  read-more :
      (n : ℕ) (f : NodeFile)
      → f.closed ≡ false
      → length f.bytes ≤ max_int
      → ltb f.offset (length f.bytes) ≡ true
      → read max_int name none n f ≡ (
        (take n (drop f.offset f.bytes), none),
        record f { offset = f.offset + length (take n (drop f.offset f.bytes)) },
      )
  unfolding read
  read-more n f opened fits more =
      let small : ltb max_int f.offset ≡ false = ground arith in rw (opened, more, small)

  -- The bytes that so many reads of `n` bytes give.
  unfoldable pub read_all : ℕ → ℕ → NodeFile → Bytes
  unfolding read
  read_all zero n f = []
  read_all (suc rounds) n f =
      (read max_int name none n f).0.0 ++ read_all rounds n (read max_int name none n f).1

  -- Reads of any positive size give the data from the offset on, each byte once and in order, in
  -- at most as many rounds as there are bytes; for an open file whose size is within the integers
  -- of the machine.
  pub read_all_lem :
      (rounds n : ℕ) (f : NodeFile)
      → f.closed ≡ false
      → length f.bytes ≤ max_int
      → length f.bytes - f.offset ≤ rounds
      → read_all rounds (suc n) f ≡ drop f.offset f.bytes
  unfolding read_all
  read_all_lem zero n f opened fits enough = sym (drop-length f.offset f.bytes (omega arith))
  read_all_lem (suc rounds) n f opened fits enough =
      elim (Bool-cases (ltb f.offset (length f.bytes))) [
        | inr over ↦
            rw (read-over (suc n) f opened over)
              (read_all_lem rounds n f opened fits (ground arith))
        | inl more ↦
            let rest = drop f.offset f.bytes in
            let b = take (suc n) rest in
            let less : length f.bytes - (f.offset + length b) ≤ rounds =
              ground (arith, length-take (suc n) rest, length-drop f.offset f.bytes) in
            rw
              (
                read-more (suc n) f opened fits more,
                read_all_lem rounds n (record f { offset = f.offset + length b }) opened fits less,
              )
              (joined f.offset (suc n) f.bytes)
      ]
    where
      joined :
          (at k : ℕ) (xs : Bytes)
          → take k (drop at xs) ++ drop (at + length (take k (drop at xs))) xs ≡ drop at xs
      joined at k xs = rw (drop-drop at (length (take k (drop at xs))) xs) (rejoined k (drop at xs))
        where
          rejoined : (k : ℕ) (ys : Bytes) → take k ys ++ drop (length (take k ys)) ys ≡ ys
          rejoined zero ys = refl
          rejoined (suc k) [] = refl
          rejoined (suc k) (y ∷ ys) = rw (rejoined k ys)

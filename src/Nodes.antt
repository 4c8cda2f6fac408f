-- ===== src/Nodes.antt =====
-- fs/fskit/node.go: a node, which is the information and the data of a file, and the file that is
-- opened on it. The value of Sys and the logger of a node are left out, and a reader or writer of
-- its own is what it answers to the call in question. Each method of a file is one step.
-- The offset of a file is never negative (`seek` and `write_at` refuse it), so it is a number, and
-- the code's tests for a negative one are left out; `max_int` is the largest int of the machine.
pub mod Splice
pub mod Contents
pub mod Tests
use wanix.Base.{
  ℕ, zero, suc, ◌+◌, ◌-◌, ◌/◌, ◌%◌, ◌^◌, ◌*◌, Bytes, codes, Bool, true, false, not, ◌&&◌, Option,
  none, some, List, [], ◌∷◌, ◌++◌, if◌then◌else◌, eq_nat, ltb, length, take, drop, replicate, ℤ,
  pos, negsuc, add_ℕ, int64,
}
use wanix.Errors.{Error, bare, path_error, invalid, closed, eof}

-- A bit of an fs.FileMode, by its weight.
abbrev pub has_bit : ℕ → ℕ → Bool
has_bit w mode = eq_nat (mode / w % 2) 1

-- `v | w` for one bit.
abbrev pub with_bit : ℕ → ℕ → ℕ
with_bit w mode = if has_bit w mode then mode else mode + w

abbrev pub mode_dir : ℕ
mode_dir = 2 ^ 31

abbrev pub mode_symlink : ℕ
mode_symlink = 2 ^ 27

pub record Node : Type 0 where
  pub path : Bytes
  pub mode : ℕ
  pub mod_time : ℕ
  pub size : ℤ
  pub uid : ℤ
  pub gid : ℤ
  pub bytes : Bytes

-- An fs.FileInfo that is not a node.
pub record FileInfo : Type 0 where
  pub name : Bytes
  pub mode : ℕ
  pub size : ℤ
  pub mod_time : ℕ

pub data Attr : Type 0 where
  a_node : Node → Attr
  a_size : ℤ → Attr
  a_time : ℕ → Attr
  a_data : Bytes → Attr
  a_path : Bytes → Attr
  a_mode : ℕ → Attr
  a_info : FileInfo → Attr

abbrev pub empty_node : Node
empty_node = record {
  path = [];
  mode = 0;
  mod_time = 0;
  size = pos 0;
  uid = pos 0;
  gid = pos 0;
  bytes = [];
}

-- 2 for "." and "..", where a directory has no size.
abbrev or_two : Bool → ℤ → ℤ
or_two true (pos zero) = pos 2
or_two _ size = size

abbrev pub with_attr : Node → Attr → Node
with_attr n (a_node m) = m
with_attr n (a_size size) = record n { size = size }
with_attr n (a_time t) = record n { mod_time = t }
with_attr n (a_data bs) = record n { bytes = bs }
with_attr n (a_path p) = record n { path = p }
with_attr n (a_mode mode) = record n { mode = mode; size = or_two (has_bit mode_dir mode) n.size }
with_attr n (a_info fi) = record n {
  path = fi.name;
  mode = fi.mode;
  size = or_two (has_bit mode_dir fi.mode) fi.size;
  mod_time = fi.mod_time;
}

abbrev pub with_attrs : Node → List Attr → Node
with_attrs n [] = n
with_attrs n (a ∷ attrs) = with_attrs (with_attr n a) attrs

unfoldable pub raw_node : List Attr → Node
raw_node attrs = with_attrs empty_node attrs

unfoldable pub entry : Bytes → ℕ → List Attr → Node
unfolding raw_node
entry name mode more = record (raw_node more) { path = name; mode = mode }

abbrev pub is_dir : Node → Bool
is_dir n = has_bit mode_dir n.mode

-- The method Size.
unfoldable pub size : Node → ℤ
size n = elim n.size [ negsuc k ↦ pos 0 | pos k ↦ if ltb 0 k then pos k else pos (length n.bytes) ]

pub record NodeFile : Type 0 where
  pub bytes : Bytes
  pub dirty : Bool
  pub offset : ℕ
  pub closed : Bool
  pub mod_time : ℕ

unfoldable pub open_file : Node → NodeFile
open_file n = record { bytes = n.bytes; dirty = false; offset = 0; closed = false; mod_time = 0 }

abbrev pub close_error : NodeFile → Option Error
close_error f = if f.closed then some (bare closed) else none

-- The data goes back to the node, if it was written to.
unfoldable pub close : NodeFile → Node → Option Error × (NodeFile × Node)
close f n = if f.closed then (some (bare closed), (f, n)) else (
  none,
  (
    record f { closed = true },
    if f.dirty then record n { bytes = f.bytes; mod_time = f.mod_time } else n,
  ),
)

-- `copy(dst, src)`, and `copy(dst[i:], src)`: what `dst` is after it.
abbrev pub copy : Bytes → Bytes → Bytes
copy dst src = take (length dst) src ++ drop (length src) dst

abbrev pub copy_at : ℕ → Bytes → Bytes → Bytes
copy_at i dst src = take i dst ++ copy (drop i dst) src

abbrev pub zeros : ℕ → Bytes
zeros n = replicate n 0

-- The data after `b` is written at `cur`.
unfoldable pub written : ℕ → Bytes → Bytes → Bytes
written cur b old =
    let end = cur + length b in
    if ltb (length old) cur
    then copy_at cur (copy (zeros end) old) b
    else if ltb (length old) end
    then copy_at cur (copy (zeros end) old) b
    else copy_at cur old b

-- The bytes read and the error; the number of bytes written and the error.
abbrev pub Read : Type 0
Read = Bytes × Option Error

abbrev pub Written : Type 0
Written = ℕ × Option Error

-- The name that `Seek` comes to, for the three ways to count it.
unfoldable pub seek_target : ℤ → ℕ → NodeFile → ℤ
seek_target offset (suc zero) f = int64 (add_ℕ offset f.offset)
seek_target offset (suc (suc zero)) f = int64 (add_ℕ offset (length f.bytes))
seek_target offset _ f = offset

-- A number of at most `n`, or none.
abbrev pub in_range : ℕ → ℤ → Option ℕ
in_range n (negsuc k) = none
in_range n (pos k) = if ltb n k then none else some k

module _ (max_int : ℕ) (name : Bytes) where
  -- `reader` is what the reader of the node answers, if the node has one.
  unfoldable pub read : Option Read → ℕ → NodeFile → Read × NodeFile
  read (some answer) n f = (answer, f)
  read none n f =
      if f.closed
      then (([], some (bare closed)), f)
      else if not (ltb f.offset (length f.bytes))
      then (([], some (bare eof)), f)
      else if ltb max_int f.offset
      then (([], some (path_error "read" name invalid)), f)
      else let b = take n (drop f.offset f.bytes) in
        ((b, none), record f { offset = f.offset + length b })

  unfoldable pub seek : ℤ → ℕ → NodeFile → (ℕ × Option Error) × NodeFile
  unfolding seek_target
  seek offset whence f =
      if f.closed
      then ((0, some (bare closed)), f)
      else elim (in_range (length f.bytes) (seek_target offset whence f)) [
        | none ↦ ((0, some (path_error "seek" name invalid)), f)
        | some at ↦ ((at, none), record f { offset = at })
      ]

  abbrev pub read_from : ℕ → ℕ → NodeFile → Read
  read_from n at f =
      if ltb max_int at
      then ([], some (path_error "read" name invalid))
      else let b = take n (drop at f.bytes) in
        (b, if ltb (length b) n then some (bare eof) else none)

  -- A reader of the node is not told the offset.
  unfoldable pub read_at : Option Read → ℕ → ℤ → NodeFile → Read × NodeFile
  read_at (some answer) n offset f = (answer, f)
  read_at none n offset f =
      if f.closed then (([], some (bare closed)), f) else elim (in_range (length f.bytes) offset) [
        | none ↦ (([], some (path_error "read" name invalid)), f)
        | some at ↦ (read_from n at f, f)
      ]

  unfoldable pub write : Option Written → Bytes → ℕ → NodeFile → Written × NodeFile
  unfolding written
  write (some answer) b now f = (answer, f)
  write none b now f =
      if f.closed
      then ((0, some (bare closed)), f)
      else if ltb max_int f.offset
      then ((0, some (path_error "write" name invalid)), f)
      else if ltb max_int (f.offset + length b)
      then ((0, some (path_error "write" name invalid)), f)
      else (
        (length b, none),
        record f {
          bytes = written f.offset b f.bytes;
          mod_time = now;
          dirty = true;
          offset = f.offset + length b;
        },
      )

  -- The offset of the file moves with the write.
  unfoldable pub write_at : Option Written → Bytes → ℤ → ℕ → NodeFile → Written × NodeFile
  unfolding write
  write_at (some answer) b offset now f = (answer, f)
  write_at none b offset now f =
      if f.closed then ((0, some (bare closed)), f) else elim (in_range (length f.bytes) offset) [
        | none ↦ ((0, some (path_error "write" name invalid)), f)
        | some at ↦ write none b now (record f { offset = at; dirty = true })
      ]

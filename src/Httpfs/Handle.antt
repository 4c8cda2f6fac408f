-- ===== src/Httpfs/Handle.antt =====
-- fs/httpfs/fs_node.go: the methods of an open node. The position of a file is never negative
-- (`Seek` refuses it), so it is a number. What `Close` asks of the file systems is a record.
use wanix.Base.{
  ℕ, zero, suc, ◌+◌, Bytes, Bool, true, not, ◌&&◌, Option, none, some, [], if◌then◌else◌, ltb, leb,
  length, take, drop, ℤ, pos, negsuc, add_ℕ, int64,
}
use wanix.Errors.{Error, bare, closed, invalid, eof, other, Result, ok, err}
use wanix.Actions.{Action}
use wanix.Nodes.{copy, copy_at, zeros}

pub record Handle : Type 0 where
  pub path : Bytes
  pub content : Bytes
  pub size : ℕ
  pub mode : ℕ
  pub mod_time : ℕ
  pub position : ℕ
  pub is_dir : Bool
  pub is_closed : Bool
  pub is_dirty : Bool

-- What is read, and the error that comes with it.
abbrev pub Answer : Type 0
Answer = Bytes × Option Error

unfoldable pub read : ℕ → Handle → Answer × Handle
read n h =
    if h.is_closed
    then (([], some (bare closed)), h)
    else if h.is_dir
    then (([], some (bare invalid)), h)
    else if leb (length h.content) h.position
    then (([], some (bare eof)), h)
    else let b = take n (drop h.position h.content) in
      ((b, none), record h { position = h.position + length b })

-- `newLen`, which wraps as an int64 does.
unfoldable pub new_len : ℕ → Bytes → ℤ
new_len at p = int64 (add_ℕ (pos at) (length p))

-- The content, which is made longer for `p` to end at `newLen`.
abbrev pub extended : ℤ → Bytes → Bytes
extended (pos n) old = if ltb (length old) n then copy (zeros n) old else old
extended (negsuc k) old = old

-- `p` is written at a position. A position behind the end of the content is a slice out of range.
unfoldable pub written : ℕ → Bytes → Bytes → Option Bytes
unfolding new_len
written at p old =
    let b = extended (new_len at p) old in if ltb (length b) at then none else some (copy_at at b p)

-- The bytes that `copy` copies, as many as there is room for.
abbrev pub copied : ℕ → Bytes → Bytes → ℕ
copied at p b = length (take (length (drop at b)) p)

-- `none` is a panic. Memory has no bound.
unfoldable pub write : ℕ → Bytes → Handle → Option ((ℕ × Option Error) × Handle)
unfolding written
write now p h =
    if h.is_closed
    then some ((0, some (bare closed)), h)
    else elim (written h.position p h.content) [
      | none ↦ none
      | some b ↦
          let n = copied h.position p b in
          some (
            (n, none),
            record h {
              content = b;
              position = h.position + n;
              is_dirty = true;
              size = length b;
              mod_time = now;
            },
          )
    ]

abbrev pub invalid_whence : Error
invalid_whence = bare (other 2)

abbrev pub negative_position : Error
negative_position = bare (other 3)

-- The position that `Seek` comes to, for the three ways to count it.
unfoldable pub seek_target : ℤ → ℕ → Handle → Option ℤ
seek_target offset zero h = some offset
seek_target offset (suc zero) h = some (int64 (add_ℕ offset h.position))
seek_target offset (suc (suc zero)) h = some (int64 (add_ℕ offset (length h.content)))
seek_target offset _ h = none

unfoldable pub seek : ℤ → ℕ → Handle → (ℕ × Option Error) × Handle
unfolding seek_target
seek offset whence h =
    if h.is_closed then ((0, some (bare closed)), h) else moved (seek_target offset whence h)
  where
    moved : Option ℤ → (ℕ × Option Error) × Handle
    moved none = ((0, some invalid_whence), h)
    moved (some (negsuc k)) = ((0, some negative_position), h)
    moved (some (pos k)) = ((k, none), record h { position = k })

-- `fs.Stat` of the file system of the node, and `WriteFileContext` of the one under the cache.
pub record Upload (W : Type 0) : Type 0 where
  pub stat : Bytes → Action W (ℕ × ℕ)
  pub write_file : Bytes → Bytes → ℕ → ℕ → Action W (Unit {0})

module _ {W : Type 0} (upload : Upload W) where
  -- The mode and the time are those of the server, unless it cannot be asked.
  unfoldable pub put_back : Handle → Result (ℕ × ℕ) × W → Result (Unit {0}) × W
  put_back h (ok (mode, mod_time), w) = upload.write_file h.path h.content mode mod_time w
  put_back h (err e, w) = upload.write_file h.path h.content h.mode h.mod_time w

  -- A file that was written to is sent to the server; it may be closed again, and is sent again.
  unfoldable pub close : Handle → W → Result (Unit {0}) × (Handle × W)
  unfolding put_back
  close h w =
      if h.is_dirty && not h.is_dir
      then sent (put_back h (upload.stat h.path w))
      else (ok tt, (record h { is_closed = true }, w))
    where
      sent : Result (Unit {0}) × W → Result (Unit {0}) × (Handle × W)
      sent (r, w') = (r, (record h { is_closed = true }, w'))

-- ===== src/Backends.antt =====
-- What the code asks of a file system that it holds as an interface value (`fs.FS`): the helpers of
-- fs/*.go (`fs.Lstat`, `fs.Mkdir`, `fs.OpenFile` and the others), which dispatch to the methods of
-- that value. `W` is the state that all the file systems of a program share and `H` an open file.
-- Reading leaves the state as it is. A time is a number of nanoseconds since 1970.
use wanix.Base.{ℕ, ◌/◌, Bytes, Bool, true, false, List, Option}
use wanix.Errors.{Error, Result}
use wanix.Actions.{Action}

-- The type bits of a mode, `mode & fs.ModeType`: none for a file, and `irregular` for devices,
-- pipes and sockets.
pub data Kind : Type 0 where
  regular_file directory symbolic_link irregular : Kind

pub record Info : Type 0 where
  pub kind : Kind
  pub perm : ℕ
  pub mod_time : ℕ

abbrev pub is_dir : Kind → Bool
is_dir directory = true
is_dir _ = false

abbrev pub is_link : Kind → Bool
is_link symbolic_link = true
is_link _ = false

abbrev pub is_regular : Kind → Bool
is_regular regular_file = true
is_regular _ = false

-- `t.Unix()`
abbrev pub unix : ℕ → ℕ
unix t = t / 1000000000

-- A directory entry: its name, and what `entry.Info()` gives.
pub record Entry : Type 0 where
  pub name : Bytes
  pub info : Result Info

pub record FileSystem (W H : Type 0) : Type 0 where
  pub stat : Bytes → W → Result Info
  pub lstat : Bytes → W → Result Info
  pub read_dir : Bytes → W → Result (List Entry)
  pub readlink : Bytes → W → Result Bytes
  pub open_read : Bytes → W → Result H
  pub open_file : Bytes → ℕ → ℕ → Action W H
  pub create : Bytes → Action W H
  pub mkdir : Bytes → ℕ → Action W (Unit {0})
  pub mkdir_all : Bytes → ℕ → Action W (Unit {0})
  pub remove : Bytes → Action W (Unit {0})
  pub rename : Bytes → Bytes → Action W (Unit {0})
  pub symlink : Bytes → Bytes → Action W (Unit {0})
  pub chmod : Bytes → ℕ → Action W (Unit {0})
  pub chown : Bytes → ℕ → ℕ → Action W (Unit {0})
  pub chtimes : Bytes → ℕ → ℕ → Action W (Unit {0})
  pub file_stat : H → W → Result Info
  pub is_writer : H → Bool
  pub file_read_all : H → W → Result Bytes
  pub file_write : H → Bytes → W → (ℕ × Option Error) × W
  pub file_write_at : H → Bytes → ℕ → W → (ℕ × Option Error) × W
  pub file_close : H → Action W (Unit {0})

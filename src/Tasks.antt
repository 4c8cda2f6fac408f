-- ===== src/Tasks.antt =====
-- task.go: tasks, their open files, and the table of tasks. A task is known by its number, and the
-- other tasks refer to it by that. Logging and locks are left out. What a task asks of its
-- namespace is the record `Calls`.
pub mod Descriptors
pub mod Table
pub mod Tests
use wanix.Base.{
  ℕ, zero, suc, ◌+◌, ◌/◌, ◌%◌, Bytes, codes, Bool, true, false, not, ◌||◌, ◌&&◌, Option, none, some,
  List, [], ◌∷◌, ◌++◌, if◌then◌else◌, ◌==◌, ltb, nat_eq, bytes_eq, eq_bytes, is_empty, length, Map,
  lookup, put, delete, trim_space, split_on,
}
use wanix.Errors.{Error, bare, not_exist, invalid, Result, ok, err}

-- `Ns` is a namespace and `F` an open file.
pub record Calls (Ns F : Type 0) : Type 0 where
  pub new : Ns
  pub clone : Ns → Ns
  pub open_in : Ns → Bytes → Result F
  pub close : F → Result (Unit {0})

pub record OpenFile (F : Type 0) : Type 0 where
  pub file : F
  pub path : Bytes

pub record Task (Ns F D : Type 0) : Type 0 where
  pub driver : D
  pub parent : Option ℕ
  pub ns : Ns
  pub id : ℕ
  pub alias : Bytes
  pub kind : Bytes
  pub cmd : Bytes
  pub env : List Bytes
  pub exit : Bytes
  pub dir : Bytes
  pub fds : Map ℕ (OpenFile F)
  pub fd_idx : ℕ

-- `aliases` has the numbers of the tasks.
pub record TaskFs (Ns F D : Type 0) : Type 0 where
  pub types : Map Bytes D
  pub resources : Map Bytes (Task Ns F D)
  pub aliases : Map Bytes ℕ
  pub next_id : ℕ

-- strconv.Itoa of a number: one more round than the number is enough.
unfoldable pub digits : ℕ → ℕ → Bytes
digits zero n = []
digits (suc rounds) n =
    let rest = digits rounds (n / 10) in
    if ltb n 10 then (48 + n) ∷ [] else rest ++ (48 + n % 10) ∷ []

unfoldable pub itoa : ℕ → Bytes
unfolding digits
itoa n = digits (suc n) n

abbrev nth : List Bytes → ℕ → Bytes
nth [] i = []
nth (s ∷ ss) zero = s
nth (s ∷ ss) (suc i) = nth ss i

module _ {Ns F D : Type 0} where
  -- strings.Split and an index; one below zero does not occur.
  unfoldable pub arg : ℕ → Task Ns F D → Bytes
  unfolding split_on
  arg idx t = nth (split_on 32 t.cmd) idx

  unfoldable pub open_fd : F → Bytes → Task Ns F D → ℕ × Task Ns F D
  unfolding put
  open_fd file path t =
      let fd = t.fd_idx + 1 in
      (fd, record t { fd_idx = fd; fds = put fd (record { file = file; path = path }) t.fds })

module _ {F : Type 0} where
  abbrev pub found : Option (OpenFile F) → Result (F × Bytes)
  found none = err (bare invalid)
  found (some f) = ok (f.file, f.path)

module _ {Ns F D : Type 0} where
  abbrev pub std_opened : ℕ → Bytes → Result F → Task Ns F D → Result (F × Bytes) × Task Ns F D
  std_opened fd name (err e) t = (err e, t)
  std_opened fd name (ok file) t =
      let fds = put fd (record { file = file; path = name }) t.fds in
      (found (lookup fd fds), record t { fds = fds })

module _ {Ns F D : Type 0} (c : Calls Ns F) where
  abbrev pub close_found : ℕ → Option (OpenFile F) → Task Ns F D → Result (Unit {0}) × Task Ns F D
  close_found fd none t = (err (bare invalid), t)
  close_found fd (some f) t = (c.close f.file, record t { fds = delete fd t.fds })

  unfoldable pub close_fd : ℕ → Task Ns F D → Result (Unit {0}) × Task Ns F D
  unfolding lookup delete
  close_fd fd t =
      if ltb t.fd_idx fd then (err (bare invalid), t) else close_found fd (lookup fd t.fds) t

  -- The name of a standard file of the task.
  unfoldable pub fd_name : ℕ → Task Ns F D → Bytes
  unfolding itoa
  fd_name fd t = codes "#task/" ++ itoa t.id ++ codes "/fd/" ++ itoa fd

  unfoldable pub fd_file : ℕ → Task Ns F D → Result (F × Bytes) × Task Ns F D
  unfolding lookup put
  fd_file fd t =
      if ltb t.fd_idx fd
      then (err (bare invalid), t)
      else if ltb fd 3
      then std_opened fd (fd_name fd t) (c.open_in t.ns (fd_name fd t)) t
      else (found (lookup fd t.fds), t)

module _ {Ns F D : Type 0} where
  abbrev or_missing : Option (Task Ns F D) → Result (Task Ns F D)
  or_missing none = err (bare not_exist)
  or_missing (some t) = ok t

  unfoldable pub lookup_task : Bytes → TaskFs Ns F D → Result (Task Ns F D)
  lookup_task rid d = or_missing (lookup rid d.resources)

  unfoldable pub register : Bytes → D → TaskFs Ns F D → TaskFs Ns F D
  unfolding put
  register kind driver d = record d { types = put kind driver d.types }

  -- What is written to the file alias of a task, which is in the table.
  abbrev renamed : Bytes → Task Ns F D → TaskFs Ns F D → TaskFs Ns F D
  renamed alias t d = record d {
    resources = put (itoa t.id) (record t { alias = alias }) d.resources;
    aliases = put alias t.id (if is_empty t.alias then d.aliases else delete t.alias d.aliases);
  }

  unfoldable pub set_alias : Bytes → Task Ns F D → TaskFs Ns F D → TaskFs Ns F D
  set_alias written t d = if is_empty written then d else renamed (trim_space written) t d

module _ {Ns F D : Type 0} (c : Calls Ns F) where
  abbrev ns_of : Option (Task Ns F D) → Ns
  ns_of none = c.new
  ns_of (some parent) = c.clone parent.ns

  abbrev id_of : Option (Task Ns F D) → Option ℕ
  id_of none = none
  id_of (some parent) = some parent.id

  abbrev pub made : Bytes → D → ℕ → Option (Task Ns F D) → Task Ns F D
  made kind driver id parent = record {
    driver = driver;
    parent = id_of parent;
    ns = ns_of parent;
    id = id;
    alias = [];
    kind = kind;
    cmd = [];
    env = [];
    exit = [];
    dir = [];
    fds = [];
    fd_idx = 3;
  }

  abbrev with_driver :
      Bytes → Option D → Option (Task Ns F D) → TaskFs Ns F D → Result (Task Ns F D) × TaskFs Ns F D
  with_driver kind none parent d = (err (bare not_exist), d)
  with_driver kind (some driver) parent d =
      let id = d.next_id + 1 in
      let t = made kind driver id parent in
      (ok t, record d { next_id = id; resources = put (itoa id) t d.resources })

  unfoldable pub alloc :
      Bytes → Option (Task Ns F D) → TaskFs Ns F D → Result (Task Ns F D) × TaskFs Ns F D
  alloc kind parent d = with_driver kind (lookup kind d.types) parent d

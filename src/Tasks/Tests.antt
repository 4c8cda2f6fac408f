-- ===== src/Tasks/Tests.antt =====
-- Runs over a table of one kind of tasks. A namespace is a number, and a file is the name that it was
-- opened by.
use wanix.Base.{
  ℕ, ◌+◌, Bytes, codes, ◌≡◌, refl, none, List, [], ◌∷◌, if◌then◌else◌, ◌==◌, eq_bytes, lookup, put,
  delete, trim_space, arith, bytes_eq, nat_eq,
}
use wanix.Errors.{bare, not_exist, ok, err}
use wanix.Tasks.{
  Calls, Task, TaskFs, alloc, lookup_task, itoa, open_fd, fd_file, fd_name, set_alias, arg,
}
use wanix.Tasks.Descriptors.{IsNumbered, run, run-open_fd, opening, closing, asking}
use wanix.Tasks.Table.{IsTable, lookup_task-alloc}

abbrev calls : Calls ℕ Bytes
calls = record {
  new = 0;
  clone = λ ns. ns + 1;
  open_in = λ ns name. ok name;
  close = λ file. ok tt;
}

abbrev table : TaskFs ℕ Bytes ℕ
table = record { types = (codes "auto", 7) ∷ []; resources = []; aliases = []; next_id = 0 }

abbrev first : Task ℕ Bytes ℕ
first = record {
  driver = 7;
  parent = none;
  ns = 0;
  id = 1;
  alias = [];
  kind = codes "auto";
  cmd = [];
  env = [];
  exit = [];
  dir = [];
  fds = [];
  fd_idx = 3;
}

abbrev table_of_one : TaskFs ℕ Bytes ℕ
table_of_one = record table { resources = (codes "1", first) ∷ []; next_id = 1 }

first_task : alloc calls (codes "auto") none table ≡ (ok first, table_of_one)
unfolding alloc lookup put itoa eq_bytes
first_task = refl

abbrev files : List Bytes
files = itoa 0 ∷ itoa 10 ∷ itoa 207 ∷ []

itoa_digits : files ≡ codes "0" ∷ codes "10" ∷ codes "207" ∷ []
unfolding itoa
itoa_digits = refl

-- A standard file is opened anew each time, and the one before is not closed.
fd_twice :
    (fd_file calls 1 (fd_file calls 1 first).1).0 ≡ ok (codes "#task/1/fd/1", codes "#task/1/fd/1")
unfolding fd_file fd_name
fd_twice = refl

arg_second : arg 1 (record first { cmd = codes "ls -l" }) ≡ codes "-l"
unfolding arg
arg_second = refl

-- Two tasks of one alias: a new alias of the first takes that of the second.
abbrev second : Task ℕ Bytes ℕ
second = record first { id = 2; alias = codes "sh" }

abbrev named_first : Task ℕ Bytes ℕ
named_first = record first { alias = codes "sh" }

alias_taken :
    (set_alias (codes "ls") named_first (set_alias (codes "sh") second table_of_one)).aliases
    ≡ (codes "ls", 1) ∷ []
unfolding set_alias trim_space put delete lookup eq_bytes
alias_taken = refl

first-IsNumbered : IsNumbered first
unfolding lookup
first-IsNumbered = record { beyond = λ fd far. refl; standard = omega arith }

table-IsTable : IsTable table
unfolding lookup
table-IsTable = λ id far. refl

run-open_fd_example :
    (lookup (open_fd (codes "f") (codes "p") first).0 first.fds ≡ none)
    × ((fd_file calls (open_fd (codes "f") (codes "p") first).0 (
          run calls
            (opening (codes "g") (codes "q") ∷ closing 5 ∷ asking 1 ∷ [])
            (open_fd (codes "f") (codes "p") first).1)).0
        ≡ ok (codes "f", codes "p"))
unfolding open_fd
run-open_fd_example =
    run-open_fd calls (codes "f") (codes "p")
      (opening (codes "g") (codes "q") ∷ closing 5 ∷ asking 1 ∷ []) first first-IsNumbered refl

lookup_task-alloc_example :
    (lookup_task (itoa 1) table ≡ err (bare not_exist))
    × ((rid : Bytes)
        → lookup_task rid table_of_one
          ≡ (if itoa 1 == rid then ok first else lookup_task rid table))
    × IsTable table_of_one
lookup_task-alloc_example =
    lookup_task-alloc calls (codes "auto") none table table_of_one first table-IsTable first_task

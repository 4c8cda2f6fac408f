-- ===== src/Syncfs/Tracking.antt =====
-- fs/syncfs/syncfs.go: the operations between two syncs, in any order.
use wanix.Base.{
  ℕ, ◌≡◌, refl, Bytes, Bool, true, false, not, ◌&&◌, Option, none, some, List, [], ◌∷◌, arith,
  if◌then◌else◌, bytes_eq, ◌==◌, Map, eq_iff, Bool-cases, inl, inr,
}
use wanix.Errors.{Result, ok, err, succeeded}
use wanix.Backends.{FileSystem}
use wanix.Syncfs.{
  Syncfs, File, clean_name, changed, then_return, create, open_file, creates, mkdir, remove, chmod,
  chown, chtimes, symlink, rename_file, write, write_at, close, after_create, after_open,
  after_rename, then_both,
}
use wanix.Syncfs.Agreement.{
  has, Sets, AsBefore, Moves, AgreesOn, Agrees, AgreesOn-same, then_return-Agrees,
  then_changed-Agrees, renamed-AgreesOn,
}

-- A method of the file system or of a file that it opened. `renaming` is of what is no directory.
pub data Op (H : Type 0) : Type 0 where
  creating removing : Bytes → Op H
  opening : Bytes → ℕ → ℕ → Op H
  making_dir changing_mode : Bytes → ℕ → Op H
  changing_owner changing_times : Bytes → ℕ → ℕ → Op H
  linking renaming : Bytes → Bytes → Op H
  writing : File H → Bytes → Op H
  writing_at : File H → Bytes → ℕ → Op H
  closing : File H → Op H

module _ {W H : Type 0} (local : FileSystem W H) where
  unfoldable pub perform : Op H → Syncfs W → Syncfs W
  unfolding create open_file mkdir remove chmod chown chtimes symlink rename_file write write_at
      close
  perform (creating name) s = (create local name s).1
  perform (removing name) s = (remove local name s).1
  perform (opening name flag perm) s = (open_file local name flag perm s).1
  perform (making_dir name perm) s = (mkdir local name perm s).1
  perform (changing_mode name mode) s = (chmod local name mode s).1
  perform (changing_owner name uid gid) s = (chown local name uid gid s).1
  perform (changing_times name atime mtime) s = (chtimes local name atime mtime s).1
  perform (linking old new) s = (symlink local old new s).1
  perform (renaming old new) s = (rename_file local (clean_name old) (clean_name new) s).1
  perform (writing f b) s = (write local b f s).1.1
  perform (writing_at f b off) s = (write_at local b off f s).1.1
  perform (closing f) s = (close local f s).1

  -- The call makes and removes what it says, and no other path comes or goes with it.
  abbrev pub Does : Op H → Syncfs W → Type 0
  Does (creating name) s =
      Sets local (clean_name name) true s.world (local.create (clean_name name) s.world)
  Does (removing name) s =
      Sets local (clean_name name) false s.world (local.remove (clean_name name) s.world)
  Does (opening name flag perm) s =
      (creates local flag ≡ true
        → Sets local (clean_name name) true s.world
            (local.open_file (clean_name name) flag perm s.world))
      × (creates local flag ≡ false
          → AsBefore local s.world (local.open_file (clean_name name) flag perm s.world).1)
  Does (making_dir name perm) s =
      Sets local (clean_name name) true s.world (local.mkdir (clean_name name) perm s.world)
  Does (changing_mode name mode) s =
      Sets local (clean_name name) true s.world (local.chmod (clean_name name) mode s.world)
  Does (changing_owner name uid gid) s =
      Sets local (clean_name name) true s.world (local.chown (clean_name name) uid gid s.world)
  Does (changing_times name atime mtime) s =
      Sets local (clean_name name) true s.world
        (local.chtimes (clean_name name) atime mtime s.world)
  Does (linking old new) s =
      Sets local (clean_name new) true s.world
        (local.symlink (clean_name old) (clean_name new) s.world)
  Does (renaming old new) s =
      Moves local (clean_name old) (clean_name new) s.world
        (local.rename (clean_name old) (clean_name new) s.world)
  Does (writing f b) s = AsBefore local s.world (local.file_write f.handle b s.world).1
  Does (writing_at f b off) s =
      AsBefore local s.world (local.file_write_at f.handle b off s.world).1
  Does (closing f) s = AsBefore local s.world (local.file_close f.handle s.world).1

  -- What the code does not check: that a creation succeeded, and that a file which was written
  -- still has its name when it is closed.
  abbrev pub IsSound : Op H → Syncfs W → Type 0
  IsSound (creating name) s = succeeded (local.create (clean_name name) s.world).0 ≡ true
  IsSound (closing f) s = (f.modified && not f.is_dir) ≡ true → has local f.path s.world ≡ true
  IsSound op s = Unit {0}

  AsBefore-Agrees :
      (s : Syncfs W) (w : W)
      → AsBefore local s.world w
      → Agrees local s
      → AgreesOn local s.changes w
  AsBefore-Agrees s w same agrees = AgreesOn-same local s.changes s.world w agrees same

  after_create-Agrees :
      (name : Bytes) (s : Syncfs W) (r : Result H × W)
      → Sets local name true s.world r
      → succeeded r.0 ≡ true
      → Agrees local s
      → Agrees local (after_create local name (r.0, record s { world = r.1 })).1
  unfolding after_create
  after_create-Agrees name s (err e, w) sets made agrees = cc
  after_create-Agrees name s (ok f, w) sets made agrees =
      then_return-Agrees local name true _ (record s { world = w }) s.world agrees
        (sets.done f refl)

  -- A file opened without O_CREATE leaves the paths as they are.
  after_open-Agrees :
      (name : Bytes) (created : Bool) (s : Syncfs W) (r : Result H × W)
      → (created ≡ true → Sets local name true s.world r)
      → (created ≡ false → AsBefore local s.world r.1)
      → Agrees local s
      → Agrees local (after_open local name created (r.0, record s { world = r.1 })).1
  unfolding after_open
  after_open-Agrees name true s (ok f, w) sets same agrees =
      then_return-Agrees local name true _ (record s { world = w }) s.world agrees
        ((sets refl).done f refl)
  after_open-Agrees name false s (ok f, w) sets same agrees =
      AgreesOn-same local s.changes s.world w agrees (same refl)
  after_open-Agrees name true s (err e, w) sets same agrees =
      AgreesOn-same local s.changes s.world w agrees ((sets refl).failed e refl)
  after_open-Agrees name false s (err e, w) sets same agrees =
      AgreesOn-same local s.changes s.world w agrees (same refl)

  after_rename-Agrees :
      (old new : Bytes) (s : Syncfs W) (r : Result (Unit {0}) × W)
      → Moves local old new s.world r
      → Agrees local s
      → Agrees local (after_rename local old new (r.0, record s { world = r.1 })).1
  unfolding after_rename
  after_rename-Agrees old new s (err e, w) moves agrees =
      AgreesOn-same local s.changes s.world w agrees (moves.unmoved e refl)
  after_rename-Agrees old new s (ok u, w) moves agrees = go s.changes refl agrees (moves.moved refl)
    where
      go :
          (o : Option (Map Bytes Bool))
          → s.changes ≡ o
          → AgreesOn local o s.world
          → ((p : Bytes)
              → has local p w
                ≡ (if new == p then true else if old == p then false else has local p s.world))
          → Agrees local (after_rename local old new (ok tt, record s { world = w })).1
      go none e a moved = rw (changed, then_both, e) tt
      go (some m) e a moved =
          rw (changed, e, then_both, then_return, changed)
            (renamed-AgreesOn local old new m s.world w a moved)

  close-Agrees :
      (f : File H) (s : Syncfs W)
      → ((f.modified && not f.is_dir) ≡ true → has local f.path s.world ≡ true)
      → AsBefore local s.world (local.file_close f.handle s.world).1
      → Agrees local s
      → Agrees local (close local f s).1
  unfolding close
  close-Agrees f s there same agrees = elim (Bool-cases (f.modified && not f.is_dir)) [
    | inl dirty ↦ rw dirty (
        then_return-Agrees local f.path true (local.file_close f.handle s.world).0 _ s.world agrees
          (λ p. ground (arith, there dirty, eq_iff f.path p, same p)))
    | inr clean ↦ rw clean (AsBefore-Agrees s _ same agrees)
  ]

  perform-Agrees :
      (op : Op H) (s : Syncfs W)
      → Does op s
      → IsSound op s
      → Agrees local s
      → Agrees local (perform op s)
  unfolding perform create open_file rename_file mkdir remove chmod chown chtimes symlink write
      write_at
  perform-Agrees (creating name) s does made agrees =
      after_create-Agrees (clean_name name) s _ does made agrees
  perform-Agrees (removing name) s does _ agrees =
      then_changed-Agrees local (clean_name name) false s _ agrees does
  perform-Agrees (opening name flag perm) s does _ agrees =
      after_open-Agrees (clean_name name) (creates local flag) s _ does.0 does.1 agrees
  perform-Agrees (making_dir name perm) s does _ agrees =
      then_changed-Agrees local (clean_name name) true s _ agrees does
  perform-Agrees (changing_mode name mode) s does _ agrees =
      then_changed-Agrees local (clean_name name) true s _ agrees does
  perform-Agrees (changing_owner name uid gid) s does _ agrees =
      then_changed-Agrees local (clean_name name) true s _ agrees does
  perform-Agrees (changing_times name atime mtime) s does _ agrees =
      then_changed-Agrees local (clean_name name) true s _ agrees does
  perform-Agrees (linking old new) s does _ agrees =
      then_changed-Agrees local (clean_name new) true s _ agrees does
  perform-Agrees (renaming old new) s does _ agrees =
      after_rename-Agrees (clean_name old) (clean_name new) s _ does agrees
  perform-Agrees (writing f b) s does _ agrees = AsBefore-Agrees s _ does agrees
  perform-Agrees (writing_at f b off) s does _ agrees = AsBefore-Agrees s _ does agrees
  perform-Agrees (closing f) s does there agrees = close-Agrees f s there does agrees

  unfoldable pub perform_all : List (Op H) → Syncfs W → Syncfs W
  perform_all [] s = s
  perform_all (op ∷ ops) s = perform_all ops (perform op s)

  -- Each operation does what it says and is sound when its turn comes.
  abbrev pub AllSound : List (Op H) → Syncfs W → Type 0
  AllSound [] s = Unit {0}
  AllSound (op ∷ ops) s = Does op s × IsSound op s × AllSound ops (perform op s)

  pub perform_all-Agrees :
      (ops : List (Op H)) (s : Syncfs W)
      → AllSound ops s
      → Agrees local s
      → Agrees local (perform_all ops s)
  unfolding perform_all
  perform_all-Agrees [] s sound agrees = agrees
  perform_all-Agrees (op ∷ ops) s (does, now, later) agrees =
      perform_all-Agrees ops (perform op s) later (perform-Agrees op s does now agrees)

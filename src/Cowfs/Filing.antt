-- ===== src/Cowfs/Filing.antt =====
-- The files that fs/cowfs/cowfs.go writes for deletions and moves, and Whiteout of them.
use wanix.Base.{ℕ, Bytes, codes, ◌≡◌, false, List, [], ◌∷◌, bytes_eq, ◌==◌, if◌then◌else◌}
use wanix.Errors.{Result, ok}
use wanix.Paths.{join}
use wanix.Cowfs.{Layers}
use wanix.Cowfs.Views.{Tracking}
use wanix.Cowfs.Records.{Entry, gone, became, HasPlainNames, IsBelow}

module _ {S Info H : Type 0} (l : Layers S Info H) (read : Bytes → S → Result Bytes) where
  -- A file that is written in the overlay is read as it was written, and the others as before.
  abbrev pub KeepsFiles : Type 0
  KeepsFiles =
      (path text : Bytes) (perm : ℕ) (s : S) (p : Bytes)
      → read p (l.write_file path text perm s).1 ≡ (if path == p then ok text else read p s)

  -- The file for an entry: below the directory of its kind, with the sum of its name.
  abbrev pub record_path : Bytes → Entry → Bytes
  record_path d (gone name) = join (join d (codes "deletes")) (l.sha1_hex name)
  record_path d (became old new) = join (join d (codes "renames")) (l.sha1_hex old)

  -- The files for the entries, as they are read.
  abbrev pub files_of : Bytes → List Entry → S → List Tracking
  files_of d [] s = []
  files_of d (e ∷ es) s = (record_path d e, read (record_path d e) s) ∷ files_of d es s

  abbrev pub IsOther : Bytes → Bytes → List Entry → Type 0
  IsOther d path [] = Unit {0}
  IsOther d path (e ∷ es) = (record_path d e == path ≡ false) × IsOther d path es

  -- Entries of names without spaces, each with a file of its own, in the directory of its kind.
  abbrev pub CanBeFiled : Bytes → List Entry → Type 0
  CanBeFiled d [] = Unit {0}
  CanBeFiled d (e ∷ es) =
      IsBelow d e (record_path d e)
      × HasPlainNames e
      × IsOther d (record_path d e) es
      × CanBeFiled d es

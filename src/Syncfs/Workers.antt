-- ===== src/Syncfs/Workers.antt =====
-- fs/syncfs/syncfs.go: the workers of the pull, and whether it ends.
use wanix.Base.{
  ◌+◌, ◌≤◌, ◌<◌, ◌≡◌, ◌≢◌, refl, Bytes, Option, none, some, List, [], ◌∷◌, ◌++◌, arith, inl, inr,
  Bool-cases, Option-cases, leb, length, length-append,
}
use wanix.Errors.{Error, Result, ok, err}
use wanix.Backends.{FileSystem}
use wanix.Copy.{Run}
use wanix.Syncfs.{returned}
use wanix.Syncfs.Scan.{Index, Pulls}
use wanix.Syncfs.Pull.{workers, sent, pull_file, pull_files, make_dirs, touch_dirs, send_last, pull}

module _ {W H : Type 0} (local : FileSystem W H) (index : Index) (copy : Bytes → Run W)
    (ends : (path : Bytes) (w : W) → copy path w ≢ none) where
  pull_file-ends : (path : Bytes) (w : W) → pull_file local index copy path w ≢ none
  unfolding pull_file
  pull_file-ends path w h = ground (arith, h, ends path w)

  length-sent :
      (f : Option Error) (errors : List Error) → length (sent f errors) ≤ length errors + 1
  length-sent none errors = omega arith
  length-sent (some e) errors = omega (arith, length-append errors (e ∷ []))

  -- There is at most one error for each worker and for each file.
  pub length-pull_files :
      (paths : List Bytes) (errors : List Error) (w : W)
      → length errors ≤ workers
      → (r : List Error × W) × (pull_files local index copy paths errors w ≡ some r)
        × (length r.0 ≤ workers)
        × (length r.0 ≤ length errors + length paths)
  unfolding pull_files
  length-pull_files [] errors w h = ((errors, w), refl, h, omega arith)
  length-pull_files (path ∷ paths) errors w h = elim (Bool-cases (leb workers (length errors))) [
    | inl dead ↦ ((errors, w), rw dead refl, h, omega arith)
    | inr alive ↦ elim (Option-cases (pull_file local index copy path w)) [
      | inl stuck ↦ absurd (pull_file-ends path w stuck)
      | inr ((f, w'), e) ↦
          let (r, found, few, bound) =
            length-pull_files paths (sent f errors) w'
              (ground (arith, alive, length-sent f errors)) in
          (r, rw (alive, e) found, few, omega (arith, bound, length-sent f errors))
    ]
  ]

  send_last-returns :
      (errors : List Error) (last : Option Error)
      → length errors < workers
      → (r : Result (Unit {0})) × (send_last local index copy errors last ≡ returned r)
  unfolding send_last
  send_last-returns [] none h = (ok tt, refl)
  send_last-returns [] (some e) h = (err e, refl)
  send_last-returns (e ∷ es) last h = (err e, ground (arith, h))

  -- With fewer files than workers, a pull comes to an end.
  pub pull-returns :
      (ps : Pulls) (w : W)
      → length ps.files < workers
      → (r : Result (Unit {0})) × ((pull local index copy ps w).0 ≡ returned r)
  unfolding pull
  pull-returns ps w few = go (make_dirs local index ps.dirs w) refl
    where
      go :
          (m : Option Error × W)
          → make_dirs local index ps.dirs w ≡ m
          → (r : Result (Unit {0})) × ((pull local index copy ps w).0 ≡ returned r)
      go (some e, w1) h = (err e, rw (pull, h) refl)
      go (none, w1) h =
          let ((errors, w2), found, _, bound) = length-pull_files ps.files [] w1 (omega arith) in
          let (r, sent_r) =
            send_last-returns errors (touch_dirs local index ps.dirs w2).0
              (omega (arith, bound, few)) in
          (r, rw (pull, h, found) sent_r)

  module _
      (fails : (path : Bytes) (w : W)
        → (e : Error) × (w' : W) × (pull_file local index copy path w ≡ some (some e, w'))) where
    -- Files that all fail use up the workers.
    pub pull_files-fails :
        (paths : List Bytes) (errors : List Error) (w : W)
        → length errors ≤ workers
        → workers ≤ length errors + length paths
        → (r : List Error × W) × (pull_files local index copy paths errors w ≡ some r)
          × (length r.0 ≡ workers)
    unfolding pull_files
    pull_files-fails [] errors w h enough = ((errors, w), refl, omega arith)
    pull_files-fails (path ∷ paths) errors w h enough =
        elim (Bool-cases (leb workers (length errors))) [
          | inl dead ↦ ((errors, w), rw dead refl, ground (arith, dead, h))
          | inr alive ↦
              let (e, w', failed) = fails path w in
              let size = length-append errors (e ∷ []) in
              let (r, found, full) =
                pull_files-fails paths (errors ++ (e ∷ [])) w' (ground (arith, alive, size))
                  (omega (arith, size, enough)) in
              (r, rw (alive, failed) found, full)
        ]

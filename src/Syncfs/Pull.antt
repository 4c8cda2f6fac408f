-- ===== src/Syncfs/Pull.antt =====
-- fs/syncfs/syncfs.go: the part of `Sync` that fetches what is newer in the remote.
-- The files are shared out among 32 workers. A worker ends at its first error, which it sends into a
-- channel with room for 32; the files that are left go to the other workers. Here the files are
-- pulled one after another, in the order of the list.
use wanix.Base.{ℕ, Bytes, Option, none, some, List, [], ◌∷◌, ◌++◌, length, if◌then◌else◌, leb}
use wanix.Errors.{Error, Result, ok, err}
use wanix.Backends.{FileSystem}
use wanix.Copy.{Run}
use wanix.Syncfs.{Outcome, returned, hangs}
use wanix.Syncfs.Scan.{Index, Pulls}

abbrev pub workers : ℕ
workers = 32

-- What a step on one path comes to: the error that it sends, if any. `none` is a call that does not
-- return.
abbrev pub Step : Type 0 → Type 0
Step W = Option (Option Error × W)

-- The errors in the channel, after a step that may have sent one.
abbrev pub sent : Option Error → List Error → List Error
sent none errors = errors
sent (some e) errors = errors ++ (e ∷ [])

module _ {W H : Type 0} (local : FileSystem W H) (index : Index) where
  unfoldable pub touch : Bytes → W → Option Error × W
  touch path w = elim (index.lstat path) [
    | err e ↦ (some e, w)
    | ok info ↦ noted (local.chtimes path info.mod_time info.mod_time w)
  ]
    where
      noted : Result (Unit {0}) × W → Option Error × W
      noted (err e, w') = (some e, w')
      noted (ok u, w') = (none, w')

  -- The first loop over the directories. An error ends the pull.
  unfoldable pub make_dirs : List Bytes → W → Option Error × W
  make_dirs [] w = (none, w)
  make_dirs (path ∷ paths) w = elim (index.stat path) [
    | err e ↦ (some e, w)
    | ok info ↦
        let (r, w') = local.mkdir_all path info.perm w in
        elim r [ err e ↦ (some e, w') | ok u ↦ make_dirs paths w' ]
  ]

  -- The last loop, which sets the times of the directories.
  unfoldable pub touch_dirs : List Bytes → W → Option Error × W
  unfolding touch
  touch_dirs [] w = (none, w)
  touch_dirs (path ∷ paths) w =
      let (failure, w') = touch path w in
      elim failure [ some e ↦ (some e, w') | none ↦ touch_dirs paths w' ]

  module _ (copy : Bytes → Run W) where
    -- The body of a worker's loop. A copy that fails is only logged.
    unfoldable pub pull_file : Bytes → W → Step W
    unfolding touch
    pull_file path w = elim (copy path w) [
      | none ↦ none
      | some (err e, w') ↦ some (none, w')
      | some (ok u, w') ↦ some (touch path w')
    ]

    -- The errors sent so far are one for each worker that has ended.
    unfoldable pub pull_files : List Bytes → List Error → W → Option (List Error × W)
    unfolding pull_file
    pull_files [] errors w = some (errors, w)
    pull_files (path ∷ paths) errors w =
        let rest = pull_files paths in
        if leb workers (length errors) then some (errors, w) else more rest (pull_file path w)
      where
        more : (List Error → W → Option (List Error × W)) → Step W → Option (List Error × W)
        more rest none = none
        more rest (some (failure, w')) = rest (sent failure errors) w'

    -- One more value into the channel, which blocks for ever if it is full, and the first value out.
    unfoldable pub send_last : List Error → Option Error → Outcome (Unit {0})
    send_last [] none = returned (ok tt)
    send_last [] (some e) = returned (err e)
    send_last (e ∷ es) last = if leb workers (length (e ∷ es)) then hangs else returned (err e)

    unfoldable pub pull : Pulls → W → Outcome (Unit {0}) × W
    unfolding make_dirs pull_files touch_dirs send_last
    pull ps w = made (make_dirs ps.dirs w)
      where
        files_pulled : W → Option (List Error × W) → Outcome (Unit {0}) × W
        files_pulled w1 none = (hangs, w1)
        files_pulled w1 (some (errors, w2)) =
            let (last, w3) = touch_dirs ps.dirs w2 in (send_last errors last, w3)

        made : Option Error × W → Outcome (Unit {0}) × W
        made (some e, w1) = (returned (err e), w1)
        made (none, w1) = files_pulled w1 (pull_files ps.files [] w1)

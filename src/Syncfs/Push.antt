-- ===== src/Syncfs/Push.antt =====
-- fs/syncfs/syncfs.go: the part of `Sync` that sends the changes as a tar archive.
-- `file_info_header` is `tar.FileInfoHeader`; `write_header` and `write_body` are what the tar
-- writer makes of a header and of the contents after it. `patch` is the method of the remote.
use wanix.Base.{
  Bytes, Bool, true, false, Option, none, some, List, [], ◌∷◌, if◌then◌else◌, Map, is_empty,
}
use wanix.Errors.{Result, ok, err}
use wanix.Actions.{Action}
use wanix.Backends.{Info, is_link, is_regular, FileSystem}
use wanix.Syncfs.{Syncfs}

-- A member of the archive: a deletion, or a header `T` with the target of a link and the contents.
pub data Member (T : Type 0) : Type 0 where
  deletion : Bytes → Member T
  entry : Bytes → T → Bytes → Bytes → Member T

abbrev pub name : {T : Type 0} → Member T → Bytes
name (deletion path) = path
name (entry path t link body) = path

abbrev pub is_deletion : {T : Type 0} → Member T → Bool
is_deletion (deletion path) = true
is_deletion (entry path t link body) = false

-- The archive so far, or the first error, with the files that are open until the end.
abbrev pub Packed : Type 0 → Type 0 → Type 0
Packed T H = Result (List (Member T)) × List H

module _ {H T : Type 0} where
  abbrev pub one : Result (Member T) → Option H → Packed T H → Packed T H
  one (err e) none rest = (err e, [])
  one (err e) (some h) rest = (err e, h ∷ [])
  one (ok x) none (err e, hs) = (err e, hs)
  one (ok x) none (ok xs, hs) = (ok (x ∷ xs), hs)
  one (ok x) (some h) (err e, hs) = (err e, h ∷ hs)
  one (ok x) (some h) (ok xs, hs) = (ok (x ∷ xs), h ∷ hs)

module _ {W H T : Type 0} (file_info_header : Info → Result T)
    (write_header : Bytes → Option T → Bytes → Result (Unit {0}))
    (write_body : T → Bytes → Result (Unit {0})) (local : FileSystem W H) where
  -- The target of a link, and nothing for what is none.
  abbrev link_name : Bytes → Info → W → Result Bytes
  link_name path info w = if is_link info.kind then local.readlink path w else ok []

  -- The contents of an open file, copied into the archive.
  unfoldable pub pack_body : Bytes → T → Bytes → H → W → Result (Member T)
  pack_body path t link h w = elim (local.file_read_all h w) [
    | err e ↦ err e
    | ok body ↦ elim (write_body t body) [ err e ↦ err e | ok u ↦ ok (entry path t link body) ]
  ]

  -- What comes after the header of an entry.
  unfoldable pub pack_rest : Bytes → Info → T → Bytes → W → Result (Member T) × Option H
  unfolding pack_body
  pack_rest path info t link w =
      if is_regular info.kind
      then opened (local.open_read path w)
      else (ok (entry path t link []), none)
    where
      opened : Result H → Result (Member T) × Option H
      opened (err e) = (err e, none)
      opened (ok h) = (pack_body path t link h w, some h)

  unfoldable pub pack_headed : Bytes → Info → T → Bytes → W → Result (Member T) × Option H
  unfolding pack_rest
  pack_headed path info t link w = elim (write_header path (some t) link) [
    | err e ↦ (err e, none)
    | ok u ↦ pack_rest path info t link w
  ]

  unfoldable pub pack_info : Bytes → Info → W → Result (Member T) × Option H
  unfolding pack_headed
  pack_info path info w = elim (file_info_header info) [
    | err e ↦ (err e, none)
    | ok t ↦ linked t (link_name path info w)
  ]
    where
      linked : T → Result Bytes → Result (Member T) × Option H
      linked t (err e) = (err e, none)
      linked t (ok link) = pack_headed path info t link w

  -- The body of the loop over the changes.
  unfoldable pub pack_change : Bytes → Bool → W → Result (Member T) × Option H
  unfolding pack_info
  pack_change path true w = elim (local.lstat path w) [
    | err e ↦ (err e, none)
    | ok info ↦ pack_info path info w
  ]
  pack_change path false w = elim (write_header path none []) [
    | err e ↦ (err e, none)
    | ok u ↦ (ok (deletion path), none)
  ]

  unfoldable pub pack : Map Bytes Bool → W → Packed T H
  unfolding pack_change
  pack [] w = (ok [], [])
  pack ((path, exists) ∷ m) w =
      let rest = pack m w in let (r, h) = pack_change path exists w in one r h rest

  -- The deferred `Close` of each opened file, the last one first.
  unfoldable pub close_all : List H → W → W
  close_all [] w = w
  close_all (h ∷ hs) w = (local.file_close h (close_all hs w)).1

  module _ (patch : List (Member T) → Action W (Unit {0})) where
    unfoldable pub send : Packed T H → Syncfs W → Result (Unit {0}) × Syncfs W
    unfolding close_all
    send (err e, hs) s = (err e, record s { world = close_all hs s.world })
    send (ok members, hs) s = go (patch members s.world)
      where
        go : Result (Unit {0}) × W → Result (Unit {0}) × Syncfs W
        go (err e, w) = (err e, record s { world = close_all hs w })
        go (ok u, w) = (ok tt, record s { world = close_all hs w; changes = some [] })

    -- The changes are sent if there are any, and forgotten when the remote has taken them.
    unfoldable pub push : Map Bytes Bool → Syncfs W → Result (Unit {0}) × Syncfs W
    unfolding pack send
    push m s = if is_empty m then (ok tt, s) else send (pack m s.world) s

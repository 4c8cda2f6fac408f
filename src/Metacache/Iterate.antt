-- ===== src/Metacache/Iterate.antt =====
-- Listing a directory in pieces through an open file (File.ReadDir of fs/metacache/metacache.go).
use wanix.Base.{
  ℕ, zero, suc, ◌+◌, ◌-◌, ◌<◌, ◌≡◌, List, [], ◌++◌, arith, if◌then◌else◌, ltb, length, take, drop,
  drop-length, take-append-drop, drop-drop, Bool-cases, inl, inr,
}
use wanix.Errors.{Result, ok, err}
use wanix.Metacache.{items}
use wanix.Metacache.Handle.{File, next_entries}

take-then_rest :
    {DirEntry : Type 0} (count off : ℕ) (xs rest : List DirEntry)
    → rest ≡ drop (off + count) xs
    → take count (drop off xs) ++ rest ≡ drop off xs
take-then_rest count off xs rest h =
    rw (h, drop-drop off count xs) (take-append-drop count (drop off xs))

module _ {H DirEntry : Type 0} where
  -- A client that calls `ReadDir(n)` until it fails, and keeps what it was given.
  abbrev continue :
      (File H DirEntry → List DirEntry) → Result (List DirEntry) × File H DirEntry → List DirEntry
  continue next (ok entries, wf) = entries ++ next wf
  continue next (err e, wf) = []

  pub read_pieces : ℕ → ℕ → File H DirEntry → List DirEntry
  read_pieces zero n wf = []
  read_pieces (suc rounds) n wf = continue (read_pieces rounds n) (next_entries n wf)

  -- The pieces that ReadDir of an open directory gives, of any positive size, put together, are
  -- the entries from its offset on, each once and in their order, once there are more rounds than
  -- entries left.
  pub read_pieces_lem :
      (rounds n : ℕ) (wf : File H DirEntry)
      → length (items wf.dir_entries) - wf.dir_offset < rounds
      → read_pieces rounds (suc n) wf ≡ drop wf.dir_offset (items wf.dir_entries)
  unfolding read_pieces next_entries
  read_pieces_lem zero n wf h = absurd (omega arith)
  read_pieces_lem (suc rounds) n wf h =
      elim (Bool-cases (ltb 0 (length (items wf.dir_entries) - wf.dir_offset))) [
        | inl more ↦
            let left = length (items wf.dir_entries) - wf.dir_offset in
            let count : ℕ = if ltb left (suc n) then left else suc n in
            rw more (
              take-then_rest count wf.dir_offset (items wf.dir_entries) _ (
                read_pieces_lem rounds n (record wf { dir_offset = wf.dir_offset + count })
                  (ground arith)))
        | inr over ↦ rw (over, drop-length wf.dir_offset (items wf.dir_entries) (ground arith))
      ]

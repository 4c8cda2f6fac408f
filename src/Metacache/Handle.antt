-- ===== src/Metacache/Handle.antt =====
-- The open files of fs/metacache/metacache.go (type File): reads of the metadata through the cache,
-- writes that are remembered, and the invalidation on close.
use wanix.Base.{
  ℕ, zero, ◌+◌, ◌-◌, Bytes, Bool, false, ◌||◌, Option, none, some, List, if◌then◌else◌, ltb, length,
  take, drop,
}
use wanix.Errors.{Error, Result, ok, err, bare, eof, permission}
use wanix.Metacache.{
  Slice, items, Action, Backing, Fs, Lookup, miss, hit, normalize_path, get_cached, set_cached,
  invalidate, invalidate_parent,
}
use wanix.Metacache.Ops.{lift, read_dir_context}

-- An open file, with the entries that `ReadDir` has loaded and how many of them it has returned.
pub record File (H DirEntry : Type 0) : Type 0 where
  pub handle : H
  pub name : Bytes
  pub written : Bool
  pub dir_entries : Slice DirEntry
  pub dir_offset : ℕ

unfoldable pub wrap_file : {H DirEntry : Type 0} → H → Bytes → File H DirEntry
wrap_file h name = record {
  handle = h;
  name = name;
  written = false;
  dir_entries = none;
  dir_offset = 0;
}

module _ {S Info DirEntry H : Type 0} (b : Backing S Info DirEntry H) where
  abbrev file_info : ℕ → Bytes → Result Info → Fs S Info DirEntry → Result Info × Fs S Info DirEntry
  file_info later key (ok info) f = (ok info, set_cached later key (some info) none none f)
  file_info later key (err e) f = (err e, f)

  -- The cached information, if there is an entry with one and with no error.
  abbrev usable : Lookup Info DirEntry → Option Info
  usable miss = none
  usable (hit entry due) = elim entry.error [ none ↦ entry.info | some _ ↦ none ]

  abbrev file_stat_found :
      ℕ → Bytes → H → Option Info → Fs S Info DirEntry → Result Info × Fs S Info DirEntry
  file_stat_found later key h (some info) f = (ok info, f)
  file_stat_found later key h none f =
      let (r, g) = lift (b.file_stat h) f in file_info later key r g

  unfoldable pub file_stat : ℕ → ℕ → File H DirEntry → Action (Fs S Info DirEntry) (Result Info)
  unfolding lift
  file_stat now later wf f =
      let key = normalize_path wf.name in
      let (found, g) = get_cached now key f in file_stat_found later key wf.handle (usable found) g

  -- A write that wrote something marks the file.
  abbrev mark_written : ℕ × Option Error → File H DirEntry → File H DirEntry
  mark_written (n, e) wf = record wf { written = wf.written || ltb 0 n }

  unfoldable pub file_write :
      Bytes
      → File H DirEntry
      → Fs S Info DirEntry
      → (ℕ × Option Error) × File H DirEntry × Fs S Info DirEntry
  unfolding lift
  file_write p wf f =
      if b.is_writer wf.handle
      then (let (r, g) = lift (b.file_write wf.handle p) f in (r, mark_written r wf, g))
      else ((0, some (bare permission)), wf, f)

  unfoldable pub file_write_at :
      Bytes
      → ℕ
      → File H DirEntry
      → Fs S Info DirEntry
      → (ℕ × Option Error) × File H DirEntry × Fs S Info DirEntry
  unfolding lift
  file_write_at p off wf f =
      if b.is_writer_at wf.handle
      then (let (r, g) = lift (b.file_write_at wf.handle p off) f in (r, mark_written r wf, g))
      else ((0, some (bare permission)), wf, f)

  unfoldable pub file_close : File H DirEntry → Action (Fs S Info DirEntry) (Option Error)
  unfolding lift
  file_close wf f =
      let (r, g) = lift (b.file_close wf.handle) f in
      (r, if wf.written then invalidate_parent wf.name (invalidate wf.name g) else g)

-- The part of `File.ReadDir` after the load. A count of zero stands for every n ≤ 0.
unfoldable pub next_entries :
    {H DirEntry : Type 0} → ℕ → File H DirEntry → Result (List DirEntry) × File H DirEntry
next_entries zero wf = (
  ok (drop wf.dir_offset (items wf.dir_entries)),
  record wf { dir_offset = length (items wf.dir_entries) },
)
next_entries n wf =
    let remaining = length (items wf.dir_entries) - wf.dir_offset in
    let count = if ltb remaining n then remaining else n in
    if ltb 0 remaining
    then (
      ok (take count (drop wf.dir_offset (items wf.dir_entries))),
      record wf { dir_offset = wf.dir_offset + count },
    )
    else (err (bare eof), wf)

module _ {S Info DirEntry H : Type 0} (b : Backing S Info DirEntry H) where
  abbrev loaded :
      ℕ
      → Result (Slice DirEntry)
      → File H DirEntry
      → Fs S Info DirEntry
      → Result (List DirEntry) × File H DirEntry × Fs S Info DirEntry
  loaded n (err e) wf f = (err e, wf, f)
  loaded n (ok entries) wf f =
      let (r, wf') = next_entries n (record wf { dir_entries = entries; dir_offset = 0 }) in
      (r, wf', f)

  abbrev with_entries :
      ℕ
      → ℕ
      → ℕ
      → Slice DirEntry
      → File H DirEntry
      → Fs S Info DirEntry
      → Result (List DirEntry) × File H DirEntry × Fs S Info DirEntry
  with_entries now later n none wf f =
      let (r, g) = read_dir_context b now later wf.name f in loaded n r wf g
  with_entries now later n (some _) wf f = let (r, wf') = next_entries n wf in (r, wf', f)

  unfoldable pub file_read_dir :
      ℕ
      → ℕ
      → ℕ
      → File H DirEntry
      → Fs S Info DirEntry
      → Result (List DirEntry) × File H DirEntry × Fs S Info DirEntry
  unfolding next_entries
  file_read_dir now later n wf f = with_entries now later n wf.dir_entries wf f

-- ===== src/Listings/Tests.antt =====
-- Directories of entries that carry the layer they come from.
use wanix.Base.{
  ℕ, Option, Bytes, codes, ◌≡◌, refl, Bool, none, some, List, [], ◌∷◌, if◌then◌else◌, eq_bytes,
  arith, has_prefix, ◌+◌, ◌++◌, ℤ, pos, negsuc, length, take, drop, ltb,
}
use wanix.Errors.{bare, eof, invalid, ok}
use wanix.Actions.{Action}
use wanix.Listings.{DirIter, overlay_entries, dir_file_entries, union_dir}
use wanix.Listings.Order.{IsSorted, named}
use wanix.Listings.Merge.{overlay_entries_lem, to_list, last_or}
use wanix.Listings.Duplicates.{dir_file_entries_lem}
use wanix.Listings.Layered.{
  Calls, Both, Counted, Taken, Whence, from_start, from_current, from_end, read_at,
}
use wanix.Listings.InStep.{Places}
use wanix.Listings.Pages.{pieces, pieces_lem}

abbrev Entry : Type 0
Entry = Bytes × ℕ

abbrev name : Entry → Bytes
name e = e.0

abbrev lower : List Entry
lower = (codes "c", 0) ∷ (codes "a", 0) ∷ (codes "#b", 0) ∷ []

abbrev upper : List Entry
upper = (codes "d", 1) ∷ (codes "a", 1) ∷ []

abbrev hide_c : Bytes → Bool
hide_c k = eq_bytes k (codes "c")

abbrev merged : List Entry
merged = (codes "#b", 0) ∷ (codes "a", 1) ∷ (codes "d", 1) ∷ []

overlay_merged : overlay_entries name hide_c (some (ok lower)) (some (ok upper)) ≡ ok merged
unfolding overlay_entries eq_bytes
overlay_merged = refl

dir_file_listed :
    dir_file_entries name ((codes "b", 0) ∷ (codes "#c", 0) ∷ (codes "a", 0) ∷ (codes "b", 1) ∷ [])
    ≡ (codes "a", 0) ∷ (codes "b", 1) ∷ []
unfolding dir_file_entries eq_bytes
dir_file_listed = refl

union_listed :
    union_dir name (some (ok lower) ∷ none ∷ some (ok upper) ∷ [])
    ≡ (codes "a", 1) ∷ (codes "c", 0) ∷ (codes "d", 1) ∷ []
unfolding union_dir eq_bytes
union_listed = refl

-- A directory that gives its entries once, and one that gives them always.
abbrev once : Action (List Entry) (Option (List Entry))
once es = (ok (some es), [])

abbrev fresh : DirIter Entry (List Entry)
fresh = record { entries = none; cursor = 0; source = upper }

overlay_entries_lem_example :
    IsSorted name merged
    × (named name (codes "a") merged ≡ (
        if hide_c (codes "a")
        then []
        else to_list (last_or name (codes "a") upper (last_or name (codes "a") lower none))))
overlay_entries_lem_example =
    overlay_entries_lem name hide_c (some (ok lower)) (some (ok upper)) (codes "a") merged
      overlay_merged

dir_file_entries_lem_example :
    IsSorted name (dir_file_entries name lower)
    × (named name (codes "#b") (dir_file_entries name lower) ≡ (
        if has_prefix (codes "#b") (codes "#")
        then []
        else to_list (last_or name (codes "#b") lower none)))
dir_file_entries_lem_example = dir_file_entries_lem name lower (codes "#b")

pieces_lem_example :
    ((pieces once 3 1 fresh).given ≡ upper)
    × ((pieces once 3 1 fresh).ended ≡ some (bare eof))
    × ((pieces once 3 1 fresh).after.entries ≡ none)
    × ((pieces once 3 1 fresh).after.source ≡ [])
pieces_lem_example = pieces_lem once 3 0 fresh (some upper) [] refl refl (omega arith)

-- An open file is its data and its offset.
abbrev Held : Type 0
Held = Bytes × ℕ

abbrev taken_from : Bytes → Held → Taken × Held
taken_from [] f = (([], some (bare eof)), f)
taken_from (b ∷ bs) f = ((b ∷ bs, none), (f.0, f.1 + length (b ∷ bs)))

abbrev moved_to : ℤ → Held → Counted × Held
moved_to (pos n) f = ((f.1 + n, none), (f.0, f.1 + n))
moved_to (negsuc n) f = ((0, some (bare invalid)), f)

abbrev set_to : ℤ → Held → Counted × Held
set_to (pos n) f = ((n, none), (f.0, n))
set_to (negsuc n) f = ((0, some (bare invalid)), f)

abbrev sought : ℤ → Whence → Held → Counted × Held
sought z from_start f = set_to z f
sought z from_current f = moved_to z f
sought z from_end f = ((0, some (bare invalid)), f)

abbrev held : Calls Held ℕ
held = record {
  stat = λ f. ok (length f.0);
  close = λ f. (none, f);
  read = λ n f. taken_from (take n (drop f.1 f.0)) f;
  read_at = λ n at f.
      ((take n (drop at f.0), if ltb (length f.0) (at + n) then some (bare eof) else none), f);
  seek = sought;
  write =
      λ s f. ((length s, none), (take f.1 f.0 ++ s ++ drop (f.1 + length s) f.0, f.1 + length s));
  write_at = λ s at f. ((length s, none), (take at f.0 ++ s ++ drop (at + length s) f.0, f.1));
  sync = λ f. (none, f);
}

abbrev held_places : Places held
held_places = record {
  offset = λ f. f.1;
  read_moves = λ n f. moves (take n (drop f.1 f.0)) f;
  seek_moves = λ n f h. refl;
  write_moves = λ s f h. refl;
}
  where
    moves : (bs : Bytes) (f : Held) → (taken_from bs f).1.1 ≡ f.1 + length (taken_from bs f).0.0
    moves [] f = omega arith
    moves (b ∷ bs) f = refl

abbrev pair : Both Held
pair = record { base = some (codes "abc", 1); overlay = some (codes "xyz", 1) }

-- The end of the overlay is not reported where the base can be moved.
read_at_end :
    read_at held 5 1 pair
    ≡ ((codes "yz", none), record { base = some (codes "abc", 3); overlay = some (codes "xyz", 1) })
unfolding read_at
read_at_end = refl

-- ===== src/Unions/First.antt =====
-- Which file system of a union answers for a name (fs/fskit/unionfs.go), and what its root lists.
use wanix.Base.{
  Bytes, codes, ◌≡◌, refl, sym, ap, ◌∙◌, true, false, none, List, [], ◌∷◌, ◌++◌, if◌then◌else◌,
  ◌==◌, bytes_eq, eq_bytes, has_prefix, inr,
}
use wanix.Errors.{Result, ok}
use wanix.Paths.{dot, valid_path}
use wanix.Contexts.{Ctx, is_read_only}
use wanix.Listings.{dir_file_entries}
use wanix.Listings.Order.{IsSorted, named}
use wanix.Listings.Merge.{last_or, to_list}
use wanix.Listings.Duplicates.{dir_file_entries_lem}
use wanix.Unions.{
  Members, ask, ask_all, stat_all, resolve_fs, all_entries, open_context, Opened, directory, stats,
}

module _ {F E H : Type 0} (m : Members F E H) (ctx : Ctx F) where
  -- The member has no say before it is asked for the name itself.
  abbrev pub Waits : Bytes → List F → Type 0
  Waits name [] = Unit {0}
  Waits name (f ∷ fs) = (ask m ctx name f ≡ stats) × Waits name fs

  -- Members that do not have the name.
  abbrev pub Lack : Bytes → List F → Type 0
  Lack name [] = Unit {0}
  Lack name (f ∷ fs) = (m.exists ctx f name ≡ false) × Lack name fs

  ask_all-Waits : (name : Bytes) (fs : List F) → Waits name fs → ask_all m ctx name fs ≡ inr fs
  unfolding ask_all
  ask_all-Waits name [] h = refl
  ask_all-Waits name (f ∷ fs) h = rw (h.0, ask_all-Waits name fs h.1) refl

  stat_all-first :
      (name : Bytes) (before after : List F) (f : F)
      → is_read_only ctx ≡ true
      → Lack name before
      → m.exists ctx f name ≡ true
      → stat_all m ctx name (before ++ f ∷ after) ≡ (f, name)
  unfolding stat_all
  stat_all-first name [] after f reads lack has = rw (has, reads) refl
  stat_all-first name (g ∷ before) after f reads lack has =
      rw lack.0 (stat_all-first name before after f reads lack.1 has)

  -- In a context that only reads, a name other than the root is resolved to the first member of a
  -- union that has it, where no member settles the name by its own ResolveFS; in a union of one
  -- member, to that.
  pub resolve_fs-first :
      (name : Bytes) (before after : List F) (f : F)
      → is_read_only ctx ≡ true
      → (name == dot) ≡ false
      → Waits name (before ++ f ∷ after)
      → Lack name before
      → m.exists ctx f name ≡ true
      → resolve_fs m ctx name (before ++ f ∷ after) ≡ ok (f, name)
  unfolding resolve_fs
  resolve_fs-first name [] [] f reads other waits lack has = refl
  resolve_fs-first name [] (g ∷ after) f reads other waits lack has =
      rw (other, ask_all-Waits name (f ∷ g ∷ after) waits)
        (rw (stat_all-first name [] (g ∷ after) f reads tt has) refl)
  resolve_fs-first name (g ∷ []) after f reads other waits lack has =
      rw (other, ask_all-Waits name (g ∷ f ∷ after) waits)
        (rw (stat_all-first name (g ∷ []) after f reads lack has) refl)
  resolve_fs-first name (g ∷ h ∷ before) after f reads other waits lack has =
      rw (other, ask_all-Waits name (g ∷ h ∷ (before ++ f ∷ after)) waits)
        (rw (stat_all-first name (g ∷ h ∷ before) after f reads lack has) refl)

  root_directory :
      (f g : F) (fs : List F)
      → is_read_only ctx ≡ true
      → m.same m.itself m.itself ≡ true
      → open_context m ctx dot (f ∷ g ∷ fs)
        ≡ ok (directory (dir_file_entries m.name_of (all_entries m ctx dot (f ∷ g ∷ fs))))
  unfolding open_context valid_path eq_bytes
  root_directory f g fs reads same = rw (reads, same) refl

  -- In a context that only reads, the root of a union lists the last entry of each name, sorted.
  pub open_context-root :
      (f g : F) (fs : List F) (k : Bytes) (listed : List E)
      → is_read_only ctx ≡ true
      → m.same m.itself m.itself ≡ true
      → open_context m ctx dot (f ∷ g ∷ fs) ≡ ok (directory listed)
      → IsSorted m.name_of listed
        × (named m.name_of k listed ≡ (
            if has_prefix k (codes "#")
            then []
            else to_list (last_or m.name_of k (all_entries m ctx dot (f ∷ g ∷ fs)) none)))
  open_context-root f g fs k listed reads same done =
      let all = all_entries m ctx dot (f ∷ g ∷ fs) in
      let is : dir_file_entries m.name_of all ≡ listed =
        ap entries (sym (root_directory f g fs reads same) ∙ done) in
      rw (← is) (dir_file_entries_lem m.name_of all k)
    where
      entries : Result (Opened E H) → List E
      entries (ok (directory es)) = es
      entries _ = []

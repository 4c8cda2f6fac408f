-- ===== src/Copy/Total.antt =====
-- fs/copy.go: `CopyFS` comes to an end.
use wanix.Base.{
  ℕ, zero, suc, ◌≡◌, ◌≢◌, refl, Bytes, true, false, Option, none, some, List, [], ◌∷◌, arith, inl,
  inr,
}
use wanix.Errors.{Result, ok, err, Result-cases}
use wanix.Actions.{Action}
use wanix.Paths.{join}
use wanix.Backends.{
  Kind, directory, regular_file, symbolic_link, irregular, Info, Entry, FileSystem,
}
use wanix.Copy.{
  Run, copy_fs, copy_as, copy_dir, copy_listed, with_0500, copy_entries, and_then, close_after,
}

abbrev pub Each : (Bytes → Type 0) → List Entry → Type 0
Each P [] = Unit {0}
Each P (x ∷ xs) = P x.name × Each P xs

module _ {W H : Type 0} (io_copy : H → H → Action W (Unit {0})) (src dst : FileSystem W H)
    (info_of : Bytes → Result Info) (entries_of : Bytes → Result (List Entry)) where
  -- Nothing that is written changes what is read of the source.
  pub record IsStill : Type 0 where
    pub lstat : (path : Bytes) (w : W) → src.lstat path w ≡ info_of path
    pub read_dir : (path : Bytes) (w : W) → src.read_dir path w ≡ entries_of path

  -- The tree under a path has less than `n` levels below it.
  unfoldable pub IsWithin : ℕ → Bytes → Type 0
  IsWithin zero path = true ≡ false
  IsWithin (suc n) path =
      (info : Info)
      → info_of path ≡ ok info
      → info.kind ≡ directory
      → (es : List Entry) → entries_of path ≡ ok es
      → Each (λ name. IsWithin n (join path name)) es

  and_then-total :
      (r : Option (Result (Unit {0}) × W)) (next : Run W)
      → r ≢ none
      → ((w : W) → next w ≢ none)
      → and_then r next ≢ none
  and_then-total none next h k = h
  and_then-total (some (ok u, w)) next h k = k w
  and_then-total (some (err e, w)) next h k = λ x. cc

  copy_entries-total :
      (P : Bytes → Type 0) (one : Bytes → Run W) (es : List Entry)
      → Each P es
      → ((name : Bytes) → P name → (w : W) → one name w ≢ none)
      → (w : W) → copy_entries io_copy src dst one es w ≢ none
  unfolding copy_entries
  copy_entries-total P one [] all total w = λ x. cc
  copy_entries-total P one (x ∷ xs) (here, rest) total w =
      and_then-total (one x.name w) (copy_entries io_copy src dst one xs) (total x.name here w)
        (copy_entries-total P one xs rest total)

  close_after-total :
      (r : Option (Result (Unit {0}) × W)) (close : Action W (Unit {0}))
      → r ≢ none
      → close_after r close ≢ none
  close_after-total none close h = h
  close_after-total (some r) close h = λ x. cc

  module _ (still : IsStill) where
    copy_listed-total :
        (n : ℕ) (path dst_path : Bytes) (perm : ℕ) (w : W)
        → ((es : List Entry)
            → entries_of path ≡ ok es
            → Each (λ name. IsWithin n (join path name)) es)
        → ((p q : Bytes) → IsWithin n p → (w' : W) → copy_fs io_copy src dst n p q w' ≢ none)
        → copy_listed io_copy src dst (copy_fs io_copy src dst n) path dst_path perm w ≢ none
    unfolding copy_listed
    copy_listed-total n path dst_path perm w within total = elim (Result-cases (entries_of path)) [
      | inr (e, h) ↦ rw (copy_listed, still.read_dir path w, h) (λ x. cc)
      | inl (es, h) ↦
          rw (copy_listed, still.read_dir path w, h)
            (and_then-total
              (copy_entries io_copy src dst
                (λ name. copy_fs io_copy src dst n (join path name) (join dst_path name)) es w)
              (λ w'. some (dst.chmod dst_path (with_0500 perm) w'))
              (copy_entries-total (λ name. IsWithin n (join path name)) _ es (within es h)
                (λ name. total (join path name) (join dst_path name)) w)
              (λ w' x. cc))
    ]

    copy_dir-total :
        (n : ℕ) (path dst_path : Bytes) (perm : ℕ) (w : W)
        → ((es : List Entry)
            → entries_of path ≡ ok es
            → Each (λ name. IsWithin n (join path name)) es)
        → ((p q : Bytes) → IsWithin n p → (w' : W) → copy_fs io_copy src dst n p q w' ≢ none)
        → copy_dir io_copy src dst (copy_fs io_copy src dst n) path dst_path perm w ≢ none
    unfolding copy_dir
    copy_dir-total n path dst_path perm w within total =
        elim (Result-cases (src.open_read path w)) [
          | inr (e, h) ↦ rw (copy_dir, h) (λ x. cc)
          | inl (srcf, h) ↦
              rw (copy_dir, h)
                (close_after-total _ (src.file_close srcf) (
                  and_then-total (some (dst.mkdir_all dst_path (with_0500 perm) w)) _ (λ x. cc)
                    (λ w'. copy_listed-total n path dst_path perm w' within total)))
        ]

    copy_as-total :
        (n : ℕ) (info : Info) (path dst_path : Bytes) (w : W)
        → (info.kind ≡ directory
            → (es : List Entry) → entries_of path ≡ ok es
            → Each (λ name. IsWithin n (join path name)) es)
        → ((p q : Bytes) → IsWithin n p → (w' : W) → copy_fs io_copy src dst n p q w' ≢ none)
        → copy_as io_copy src dst (copy_fs io_copy src dst n) info path dst_path w ≢ none
    unfolding copy_as
    copy_as-total n info path dst_path w within total = by_kind info.kind refl
      where
        by_kind :
            (k : Kind)
            → info.kind ≡ k
            → copy_as io_copy src dst (copy_fs io_copy src dst n) info path dst_path w ≢ none
        by_kind regular_file h = rw (copy_as, h) (λ x. cc)
        by_kind symbolic_link h = rw (copy_as, h) (λ x. cc)
        by_kind irregular h = rw (copy_as, h) (λ x. cc)
        by_kind directory h =
            rw (copy_as, h) (copy_dir-total n path dst_path info.perm w (within h) total)

    -- CopyFS returns, with fuel for the levels of the tree that it copies, where nothing that it
    -- writes changes what is read of the source.
    pub copy_fs-total :
        (n : ℕ) (path dst_path : Bytes) (w : W)
        → IsWithin n path
        → copy_fs io_copy src dst n path dst_path w ≢ none
    unfolding copy_fs IsWithin
    copy_fs-total zero path dst_path w within = absurd (ground (arith, within))
    copy_fs-total (suc n) path dst_path w within = elim (Result-cases (info_of path)) [
      | inr (e, h) ↦ rw (copy_fs, still.lstat path w, h) (λ x. cc)
      | inl (info, h) ↦
          rw (copy_fs, still.lstat path w, h)
            (copy_as-total n info path dst_path w (within info h)
              (λ p q deep w'. copy_fs-total n p q w' deep))
    ]

-- ===== src/Memfs/Frame.antt =====
-- What the methods of fs/memfs/memfs.go leave as it is: the content of the other names, and, where
-- they fail, of all names. Sizes of directories and the names in the nodes are not content.
use wanix.Base.{
  ℕ, Bytes, ◌≡◌, refl, ◌∙◌, Bool, true, false, not, ◌&&◌, Option, none, some, arith, if◌then◌else◌,
  bytes_eq, eq_bytes, eq_bytes_iff, Bool-cases, Option-cases, inl, inr, ◌⊎◌, ℤ, lookup, put, delete,
  lookup-put, lookup-delete,
}
use wanix.Errors.{Error, Result, ok, err, succeeded}
use wanix.Paths.{dot, dir, valid_path, clean}
use wanix.Nodes.{Node, is_dir}
use wanix.Memfs.{Fs, update_dir_size, found, lstat, exists, then_do, dir_size}
use wanix.Memfs.Changes.{Outcome, if_true, added, with_parent, on_node, dropped}

pub record Content : Type 0 where
  pub mode : ℕ
  pub mod_time : ℕ
  pub uid : ℤ
  pub gid : ℤ
  pub bytes : Bytes

abbrev pub content : Option Node → Option Content
content none = none
content (some n) =
    some
      (record { mode = n.mode; mod_time = n.mod_time; uid = n.uid; gid = n.gid; bytes = n.bytes })

-- The content under a name.
abbrev pub content_at : Bytes → Fs → Option Content
content_at k fsys = content (lookup k fsys.nodes)

abbrev pub IsSame : Fs → Fs → Type 0
IsSame base fsys = (k : Bytes) → content_at k fsys ≡ content_at k base

-- A method at `name` leaves the content of the other names, and if it fails, of all.
abbrev pub IsFramed : {A : Type 0} → Bytes → Fs → Result A × Fs → Type 0
IsFramed name base m =
    (k : Bytes)
    → (eq_bytes name k ≡ false) ⊎ (succeeded m.0 ≡ false)
    → content_at k m.1 ≡ content_at k base

put-IsSame :
    (name : Bytes) (n n' : Node) (fsys : Fs)
    → lookup name fsys.nodes ≡ some n
    → content (some n') ≡ content (some n)
    → IsSame fsys (record fsys { nodes = put name n' fsys.nodes })
put-IsSame name n n' fsys found same k = rw lookup-put (elim (Bool-cases (eq_bytes name k)) [
  | inl here ↦ let e : name ≡ k = (eq_bytes_iff name k).0 here in rw (here, ← e, found) same
  | inr other ↦ rw other
])

found-IsSame : (name : Bytes) (fsys : Fs) → IsSame fsys (found name (lookup name fsys.nodes) fsys).1
found-IsSame name fsys = elim (Option-cases (lookup name fsys.nodes)) [
  | inl none_there ↦ rw none_there (absent name fsys)
  | inr (n, there) ↦ rw there (put-IsSame name n _ fsys there (renamed n))
]
  where
    absent : (name : Bytes) (fsys : Fs) → IsSame fsys (found name none fsys).1
    absent name fsys k = ground arith

    renamed :
        (n : Node)
        → content (
            some (
              if is_dir n
              then record n { path = name; size = dir_size name fsys }
              else record n { path = name }))
          ≡ content (some n)
    renamed n = ground arith

pub lstat-IsSame : (name : Bytes) (fsys : Fs) → IsSame fsys (lstat name fsys).1
unfolding lstat
lstat-IsSame name fsys = elim (Bool-cases (valid_path name)) [
  | inl good ↦ rw (lstat, good) (found-IsSame (clean name) fsys)
  | inr bad ↦ rw (lstat, bad) (λ k. refl)
]

pub update_dir_size-IsSame : (d : Bytes) (fsys : Fs) → IsSame fsys (update_dir_size d fsys)
unfolding update_dir_size
update_dir_size-IsSame d fsys = elim (Option-cases (lookup d fsys.nodes)) [
  | inl none_there ↦ rw none_there (λ k. refl)
  | inr (n, there) ↦ elim (Bool-cases (is_dir n)) [
    | inl directory ↦ rw (there, directory) (put-IsSame d n _ fsys there refl)
    | inr file ↦ rw (there, file) (λ k. refl)
  ]
]

pub added-content :
    (name k : Bytes) (n : Node) (fsys : Fs)
    → content_at k (added name n fsys)
      ≡ (if eq_bytes name k then content (some n) else content_at k fsys)
unfolding added
added-content name k n fsys =
    update_dir_size-IsSame (dir name) (record fsys { nodes = put name n fsys.nodes }) k
    ∙ (rw lookup-put (ground arith))

module _ (name : Bytes) (base : Fs) where
  pub then_do-IsFramed :
      {A B : Type 0} (m : Result A × Fs) (k : A → Fs → Result B × Fs)
      → IsSame base m.1
      → ((a : A) (t : Fs) → IsSame base t → IsFramed name base (k a t))
      → IsFramed name base (then_do m k)
  then_do-IsFramed (ok a, t) k same next j h = next a t same j h
  then_do-IsFramed (err e, t) k same next j h = same j

  pub if_true-IsFramed :
      (e : Error) (k : Fs → Outcome × Fs)
      → ((t : Fs) → IsSame base t → IsFramed name base (k t))
      → (b : Bool) (t : Fs) → IsSame base t
      → IsFramed name base (if_true e k b t)
  if_true-IsFramed e k next true t same j h = next t same j h
  if_true-IsFramed e k next false t same j h = same j

  pub exists-IsSame : (p : Bytes) (t : Fs) → IsSame base t → IsSame base (exists p t).1
  unfolding exists
  exists-IsSame p t same k = lstat-IsSame p t k ∙ same k

  pub if_exists-IsFramed :
      (p : Bytes) (e : Error) (k : Fs → Outcome × Fs) (t : Fs)
      → IsSame base t
      → ((u : Fs) → IsSame base u → IsFramed name base (k u))
      → IsFramed name base (then_do (exists p t) (if_true e k))
  if_exists-IsFramed p e k t same next =
      then_do-IsFramed (exists p t) (if_true e k) (exists-IsSame p t same)
        (if_true-IsFramed e k next)

  pub with_parent-IsFramed :
      (root_too : Bool) (d : Bytes) (e : Error) (k : Fs → Outcome × Fs) (t : Fs)
      → IsSame base t
      → ((u : Fs) → IsSame base u → IsFramed name base (k u))
      → IsFramed name base (with_parent root_too d e k t)
  with_parent-IsFramed root_too d e k t same next =
      elim (Bool-cases (not root_too && eq_bytes d dot)) [
        | inl root ↦ rw root (next t same)
        | inr other ↦ rw other (if_exists-IsFramed d e k t same next)
      ]

  pub added-IsFramed :
      (n : Node) (t : Fs) → IsSame base t → IsFramed name base (ok tt, added name n t)
  added-IsFramed n t same k (inl apart) = added-content name k n t ∙ (rw apart (same k))
  added-IsFramed n t same k (inr h) = cc

  pub put-IsFramed :
      (n : Node) (t : Fs)
      → IsSame base t
      → IsFramed name base (ok tt, record t { nodes = put name n t.nodes })
  put-IsFramed n t same k (inl apart) = rw (lookup-put, apart) (same k)
  put-IsFramed n t same k (inr h) = cc

  pub dropped-IsFramed : (t : Fs) → IsSame base t → IsFramed name base (dropped name t)
  unfolding dropped
  dropped-IsFramed t same k (inl apart) =
      update_dir_size-IsSame (dir name) (record t { nodes = delete name t.nodes }) k
      ∙ (rw (lookup-delete, apart) (same k))
  dropped-IsFramed t same k (inr h) = cc

  pub on_node-IsFramed :
      (e : Error) (act : Node → Node) (o : Option Node) (t : Fs)
      → IsSame base t
      → IsFramed name base (on_node name e act o t)
  on_node-IsFramed e act none t same k h = same k
  on_node-IsFramed e act (some n) t same k h = put-IsFramed (act n) t same k h

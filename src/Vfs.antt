-- ===== src/Vfs.antt =====
-- fs/vfs/vfs.go: the namespace of a task, a table of file and directory bindings.
-- The table is a map from paths to the targets bound there. A namespace is changed only by
-- publishing a changed copy of its table, so an operation is a function from table to table.
-- `F` is a file system and `Info` the information of a file; what a namespace asks of the file
-- systems that are bound in it is the record `Files`.
pub mod Resolve
pub mod Open
pub mod Listed
pub mod Bindings
pub mod Undo
pub mod Lookup
pub mod Tests
use wanix.Base.{
  ℕ, Bytes, codes, Bool, true, false, not, ◌&&◌, ◌||◌, Option, none, some, List, [], ◌∷◌, ◌++◌,
  if◌then◌else◌, ◌==◌, bytes_eq, eq_bytes, has_prefix, Map, lookup, put, delete, delete_if, keep_if,
  is_empty, String,
}
use wanix.Errors.{Errno, Error, Result, ok, err, path_error, invalid, not_exist, ◌>>=◌}
use wanix.Paths.{valid_path}
use wanix.Contexts.{Ctx}

-- What the namespace calls of other file systems, each in the state that it is in at the call.
pub record Files (F Info : Type 0) : Type 0 where
  -- fs.Equal
  pub same : F → F → Bool
  -- the method ResolveFS, if the file system has one
  pub resolver : F → Option (Ctx F → Bytes → Result (F × Bytes))
  -- the type assertion to fs.CreateFS
  pub is_create_fs : F → Bool
  pub stat : Ctx F → F → Bytes → Result Info
  pub lstat : Ctx F → F → Bytes → Result Info
  -- fs.Resolve
  pub resolve : F → Ctx F → Bytes → Result (F × Bytes)
  -- the method BindAllocFS, if the file system has one
  pub allocator : F → Option (Bytes → Result F)
  -- Open of the path, then Stat of the file
  pub open_stat : F → Bytes → Result Info

pub record BindTarget (F Info : Type 0) : Type 0 where
  pub fs : F
  pub path : Bytes
  pub fi : Info

pub record Ns (F Info : Type 0) : Type 0 where
  pub bindings : Map Bytes (List (BindTarget F Info))
  pub ctx : Ctx F

-- The modes that `Bind` knows, and any other value of its type.
pub data BindMode : Type 0 where
  mode_after mode_replace mode_before mode_unknown : BindMode

abbrev pub targets : {T : Type 0} → Option (List T) → List T
targets none = []
targets (some refs) = refs

-- all but special bindings
abbrev pub is_special : Bytes → Bool
is_special k = has_prefix k (codes "#")

abbrev pub is_known : BindMode → Bool
is_known mode_unknown = false
is_known _ = true

module _ {F Info : Type 0} where
  unfoldable pub new : Ctx F → Ns F Info
  new ctx = record { bindings = []; ctx = ctx }

  unfoldable pub clone : Ctx F → Ns F Info → Ns F Info
  clone ctx ns = record { bindings = ns.bindings; ctx = ctx }

  -- `b[dst]`, which is nil for a path that is not bound.
  unfoldable pub bound : Bytes → Ns F Info → List (BindTarget F Info)
  bound dst ns = targets (lookup dst ns.bindings)

  unfoldable pub unbind_all : Ns F Info → Ns F Info
  unfolding has_prefix
  unbind_all ns = record ns { bindings = delete_if (λ k. not (is_special k)) ns.bindings }

  abbrev pub placed :
      BindMode → BindTarget F Info → List (BindTarget F Info) → List (BindTarget F Info)
  placed mode_after ref refs = ref ∷ refs
  placed mode_before ref refs = refs ++ ref ∷ []
  placed mode_replace ref refs = ref ∷ []
  placed mode_unknown ref refs = refs

  unfoldable pub add_target : BindMode → BindTarget F Info → Bytes → Ns F Info → Ns F Info
  unfolding bound
  add_target m ref dst ns = record ns {
    bindings = put dst (placed m ref (bound dst ns)) ns.bindings;
  }

  -- What is left at `dst`; the key goes with the last target.
  abbrev pub store_targets :
      Bytes
      → List (BindTarget F Info)
      → Map Bytes (List (BindTarget F Info))
      → Map Bytes (List (BindTarget F Info))
  store_targets dst [] m = delete dst m
  store_targets dst (ref ∷ refs) m = put dst (ref ∷ refs) m

-- The first mode of the call, which may give none.
abbrev pub bind_mode : Option BindMode → BindMode
bind_mode none = mode_after
bind_mode (some m) = m

module _ {F Info : Type 0} (b : Files F Info) where
  abbrev pub is_target : F → Bytes → BindTarget F Info → Bool
  is_target rfsys rname ref = b.same ref.fs rfsys && ref.path == rname

  unfoldable pub remove_target : F → Bytes → Bytes → Ns F Info → Ns F Info
  unfolding bound
  remove_target rfsys rname dst ns = record ns {
    bindings =
        store_targets dst (keep_if (λ ref. not (is_target rfsys rname ref)) (bound dst ns))
          ns.bindings;
  }

  unfoldable pub unbind : F → Bytes → Bytes → Ns F Info → Result (Ns F Info)
  unfolding valid_path remove_target
  unbind src src_path dst ns =
      if not (valid_path src_path)
      then err (path_error "unbind" src_path not_exist)
      else if not (valid_path dst)
      then err (path_error "unbind" dst not_exist)
      else do (rfsys, rname) ← b.resolve src ns.ctx src_path; ok (remove_target rfsys rname dst ns)

  -- The file system of the binding: a new one, if the resolved one allocates.
  abbrev pub allocated : Bytes → F → Option (Bytes → Result F) → Result F
  allocated src_path rfsys none = ok rfsys
  allocated src_path rfsys (some alloc) = alloc src_path

  -- The target that a `Bind` adds.
  unfoldable pub bind_target : F → Bytes → Ns F Info → Result (BindTarget F Info)
  bind_target src src_path ns = do
    (resolved, rname) ← b.resolve src ns.ctx src_path
    rfsys ← allocated src_path resolved (b.allocator resolved)
    fi ← b.open_stat rfsys rname
    ok (record { fs = rfsys; path = rname; fi = fi })

  -- `src` is `none` for nil.
  unfoldable pub bind : Option F → Bytes → Bytes → Option BindMode → Ns F Info → Result (Ns F Info)
  unfolding valid_path bind_target add_target
  bind none src_path dst mode ns = err (path_error "bind" src_path invalid)
  bind (some src) src_path dst mode ns =
      if not (valid_path src_path)
      then err (path_error "bind" src_path not_exist)
      else if not (valid_path dst)
      then err (path_error "bind" dst not_exist)
      else do
        ref ← bind_target src src_path ns
        if is_known (bind_mode mode)
            then ok (add_target (bind_mode mode) ref dst ns)
            else err (path_error "bind" dst invalid)

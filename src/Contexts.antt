-- ===== src/Contexts.antt =====
-- fs/context.go: the values that a context carries from one file system to the next. A context is
-- a record of the values under its keys, and a nil context is `none`. `F` is a file system.
use wanix.Base.{
  Bytes, codes, ◌≡◌, Bool, true, false, ◌||◌, Option, none, some, arith, if◌then◌else◌, ◌==◌,
  bytes_eq, eq_bytes,
}

pub record Context (F : Type 0) : Type 0 where
  pub no_follow : Bool
  pub origin : Option F
  pub filepath : Option Bytes
  pub read_only : Bool
  pub op : Option Bytes

abbrev pub Ctx : Type 0 → Type 0
Ctx F = Option (Context F)

abbrev or_empty : Option Bytes → Bytes
or_empty none = codes ""
or_empty (some o) = o

abbrev keep_first : {A : Type 0} → Option A → A → Option A
keep_first none a = some a
keep_first (some b) a = some b

unfoldable pub is_reading : Bytes → Bool
unfolding eq_bytes
is_reading o =
    o == codes "open" || o == codes "stat" || o == codes "readdir" || o == codes "readlink"

module _ {F : Type 0} where
  abbrev pub background : Ctx F
  background =
      some
        (record { no_follow = false; origin = none; filepath = none; read_only = false; op = none })

  unfoldable pub follow_symlinks : Ctx F → Bool
  follow_symlinks none = true
  follow_symlinks (some c) = if c.no_follow then false else true

  unfoldable pub is_read_only : Ctx F → Bool
  is_read_only none = false
  is_read_only (some c) = c.read_only

  unfoldable pub with_read_only : Ctx F → Ctx F
  with_read_only none = none
  with_read_only (some c) = if c.read_only then some c else some (record c { read_only = true })

  unfoldable pub with_no_follow : Ctx F → Ctx F
  with_no_follow none = none
  with_no_follow (some c) = some (record c { no_follow = true })

  abbrev origin_path : Option F → Option Bytes → Option (F × Bytes)
  origin_path none p = none
  origin_path (some f) none = some (f, codes "")
  origin_path (some f) (some p) = some (f, p)

  -- The origin and the path in it, if there is an origin.
  unfoldable pub origin : Ctx F → Option (F × Bytes)
  origin none = none
  origin (some c) = origin_path c.origin c.filepath

  unfoldable pub op : Ctx F → Bytes
  op none = codes ""
  op (some c) = or_empty c.op

  unfoldable pub with_filepath : Bytes → Ctx F → Ctx F
  with_filepath p none = none
  with_filepath p (some c) = some (record c { filepath = keep_first c.filepath p })

  unfoldable pub with_op : Bytes → Ctx F → Ctx F
  with_op o none = none
  with_op o (some c) = some (record c { op = keep_first c.op o })

  abbrev set_origin : F → Ctx F → Ctx F
  set_origin f none = none
  set_origin f (some c) = some (record c { origin = some f })

  abbrev from_here : F → Bytes → Bytes → Option (F × Bytes) → Ctx F → Ctx F
  from_here f name o (some _) ctx = ctx
  from_here f name o none ctx =
      let named = with_op o (with_filepath name ctx) in
      set_origin f (if is_reading o then with_read_only named else named)

  unfoldable pub with_origin : F → Bytes → Bytes → Ctx F → Ctx F
  unfolding with_filepath with_op with_read_only is_reading origin
  with_origin f name o ctx = from_here f name o (origin ctx) ctx

  -- The first origin stays: a later WithOrigin changes nothing, and the context names the first
  -- file system, with the path and the operation that were asked of it, is read-only exactly if
  -- that operation only reads or it was so before, and follows links as before; for a context that
  -- had no origin, path or operation.
  pub with_origin-first :
      (f g : F) (name other o o' : Bytes) (c : Context F)
      → c.origin ≡ none
      → c.filepath ≡ none
      → c.op ≡ none
      → (with_origin g other o' (with_origin f name o (some c)) ≡ with_origin f name o (some c))
        × (origin (with_origin f name o (some c)) ≡ some (f, name))
        × (op (with_origin f name o (some c)) ≡ o)
        × (is_read_only (with_origin f name o (some c)) ≡ (is_reading o || c.read_only))
        × (follow_symlinks (with_origin f name o (some c)) ≡ follow_symlinks (some c))
  unfolding with_origin origin op is_read_only follow_symlinks
  with_origin-first f g name other o o' c h k l = ground arith

-- ===== src/Httpfs/Writing.antt =====
-- Write of fs/httpfs/fs_node.go, beside that of fs/fskit/node.go.
use wanix.Base.{
  ℕ, ◌+◌, ◌<◌, ◌≤◌, ◌^◌, ◌≡◌, refl, sym, ap, ◌∙◌, ◌-◌, Bytes, Bool, true, false, if◌then◌else◌,
  negsuc, none, some, ltb, length, drop, pos, int64, arith, Bool-cases, inl, inr, length-drop,
}
use wanix.Errors.{bare, closed}
use wanix.Nodes.{copy, copy_at, zeros, NodeFile}
use wanix.Nodes as Nodes
use wanix.Nodes.Splice.{
  copy_at-grown, copy_at-inside, written_lem, length-padded, take-length, length-written,
}
use wanix.Httpfs.Handle.{Handle, new_len, extended, written, copied, write}

int64-small : (n : ℕ) → n < 2 ^ 63 → int64 (pos n) ≡ pos n
int64-small n h = ground arith

new_len-small : (at : ℕ) (p : Bytes) → at + length p < 2 ^ 63 → new_len at p ≡ pos (at + length p)
unfolding new_len
new_len-small at p h = int64-small (at + length p) h

-- The content that `p` is copied into has room for it.
room : (at : ℕ) (p old : Bytes) → at + length p ≤ length (extended (pos (at + length p)) old)
room at p old = elim (Bool-cases (ltb (length old) (at + length p))) [
  | inl grows ↦ rw (grows, length-padded (at + length p) old (ground (arith, grows))) (omega arith)
  | inr fits ↦ rw fits (ground arith)
]

written-small :
    (at : ℕ) (p old : Bytes)
    → at + length p < 2 ^ 63
    → written at p old ≡ some (Nodes.written at p old)
unfolding written
written-small at p old h =
    let inside : ltb (length (extended (pos (at + length p)) old)) at ≡ false =
      ground (arith, room at p old) in
    rw (new_len-small at p h, inside)
      (ap some (elim (Bool-cases (ltb (length old) (at + length p))) [
        | inl grows ↦ rw grows (copy_at-grown at p old (ground arith)) ∙ sym (written_lem at p old)
        | inr fits ↦ rw fits (copy_at-inside at p old (ground arith)) ∙ sym (written_lem at p old)
      ]))

copied-written : (at : ℕ) (p old : Bytes) → copied at p (Nodes.written at p old) ≡ length p
copied-written at p old =
    let b = Nodes.written at p old in
    rw
      (take-length (length (drop at b)) p
        (omega (arith, length-drop at b, length-written at p old)))
      refl

-- An open node of the one kind and one of the other, with the same content and position.
abbrev pub Alike : Handle → NodeFile → Type 0
Alike h f = (h.content ≡ f.bytes) × (h.position ≡ f.offset) × (h.is_closed ≡ f.closed)

if-true : {A : Type 0} (b : Bool) (x y : A) → b ≡ true → (if b then x else y) ≡ x
if-true true x y h = refl
if-true false x y h = cc

if-false : {A : Type 0} (b : Bool) (x y : A) → b ≡ false → (if b then x else y) ≡ y
if-false false x y h = refl
if-false true x y h = cc

write-Alike_closed :
    (max_int now : ℕ) (name p : Bytes) (h : Handle) (f : NodeFile)
    → Alike h f
    → f.closed ≡ true
    → let r = Nodes.write max_int name none p now f in
      (h' : Handle) × (write now p h ≡ some (r.0, h')) × Alike h' r.1
unfolding write Nodes.write
write-Alike_closed max_int now name p h f (content, position, is_closed) shut =
    let one : Nodes.write max_int name none p now f ≡ ((0, some (bare closed)), f) =
      if-true f.closed _ _ shut in
    let other : write now p h ≡ some ((0, some (bare closed)), h) =
      if-true h.is_closed _ _ (is_closed ∙ shut) in
    rw one (h, other, (content, position, is_closed))

write-Alike_open :
    (max_int now : ℕ) (name p : Bytes) (h : Handle) (f : NodeFile)
    → max_int < 2 ^ 63
    → f.offset + length p ≤ max_int
    → Alike h f
    → f.closed ≡ false
    → let r = Nodes.write max_int name none p now f in
      (h' : Handle) × (write now p h ≡ some (r.0, h')) × Alike h' r.1
unfolding write Nodes.write
write-Alike_open max_int now name p h f machine fits (content, position, is_closed) usable =
    let b = Nodes.written f.offset p f.bytes in
    let f' = record f { bytes = b; mod_time = now; dirty = true; offset = f.offset + length p } in
    let one : Nodes.write max_int name none p now f ≡ ((length p, none), f') =
      if-false f.closed _ _ usable
      ∙ if-false (ltb max_int f.offset) _ _ (ground (arith, fits))
      ∙ if-false (ltb max_int (f.offset + length p)) _ _ (ground (arith, fits)) in
    let there : written h.position p h.content ≡ some b =
      rw (position, content) (written-small f.offset p f.bytes (omega (arith, machine, fits))) in
    let h' = record h {
      content = b;
      position = f.offset + length p;
      is_dirty = true;
      size = length b;
      mod_time = now;
    } in
    let other : write now p h ≡ some ((length p, none), h') =
      if-false h.is_closed _ _ (is_closed ∙ usable)
      ∙ rw there (rw (position, copied-written f.offset p f.bytes) refl) in
    rw one (h', other, (refl, refl, is_closed))

-- A Write to an open node of the HTTP file system and one to an open node file in memory, with the
-- same content, position and state of being closed, return the same and leave the same, where the
-- position after the write is at most the largest int, and that is an int64; the first does not
-- panic then.
pub write-Alike :
    (max_int now : ℕ) (name p : Bytes) (h : Handle) (f : NodeFile)
    → max_int < 2 ^ 63
    → f.offset + length p ≤ max_int
    → Alike h f
    → let r = Nodes.write max_int name none p now f in
      (h' : Handle) × (write now p h ≡ some (r.0, h')) × Alike h' r.1
write-Alike max_int now name p h f machine fits alike = elim (Bool-cases (f.closed)) [
  | inl shut ↦ write-Alike_closed max_int now name p h f alike shut
  | inr usable ↦ write-Alike_open max_int now name p h f machine fits alike usable
]

new_len-wraps : (n : ℕ) → 2 ^ 63 ≤ n → n < 2 ^ 64 → (k : ℕ) × (int64 (pos n) ≡ negsuc k)
new_len-wraps n over below = (2 ^ 64 - 1 - n, ground (arith, over, below))

-- Where newLen is negative, and the position behind the end of the content, Write panics.
write-panics :
    (now : ℕ) (p : Bytes) (h : Handle)
    → h.is_closed ≡ false
    → length h.content < h.position
    → 2 ^ 63 ≤ h.position + length p
    → h.position + length p < 2 ^ 64
    → write now p h ≡ none
unfolding write written new_len
write-panics now p h usable behind over below =
    let (k, wrapped) = new_len-wraps (h.position + length p) over below in
    let out : written h.position p h.content ≡ none =
      rw wrapped (if-true (ltb (length h.content) h.position) _ _ (ground (arith, behind))) in
    if-false h.is_closed _ _ usable ∙ rw out refl

-- ===== src/Unions/Tests.antt =====
-- Runs over a union of two file systems that both have "a", with their number in each entry.
use wanix.Base.{
  ℕ, Bytes, codes, ◌≡◌, refl, true, false, none, some, [], ◌∷◌, eq_nat, eq_bytes, ◌||◌,
}
use wanix.Errors.{ok}
use wanix.Paths.{dot}
use wanix.Contexts.{Ctx}
use wanix.Unions.{Members, open_context, directory, file}

abbrev Entry : Type 0
Entry = Bytes × ℕ

abbrev union : Members ℕ Entry ℕ
union = record {
  itself = 0;
  same = eq_nat;
  resolver = λ f. none;
  is_create_fs = λ f. true;
  exists = λ ctx f name. eq_bytes name (codes "a") || eq_nat f 2;
  open_at = λ ctx f name. ok f;
  read_dir = λ ctx f name. ok ((codes "a", f) ∷ []);
  name_of = λ e. e.0;
}

abbrev reading : Ctx ℕ
reading =
    some (record { no_follow = false; origin = none; filepath = none; read_only = true; op = none })

-- The root lists the last of the two, and the name opens the first.
root_listed : open_context union reading dot (1 ∷ 2 ∷ []) ≡ ok (directory ((codes "a", 2) ∷ []))
unfolding open_context
root_listed = refl

name_opened : open_context union reading (codes "a") (1 ∷ 2 ∷ []) ≡ ok (file 1)
unfolding open_context
name_opened = refl

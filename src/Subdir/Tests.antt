-- ===== src/Subdir/Tests.antt =====
-- A concrete file system under fs/sub.go, in which every path is missing, and the theorems at it.
use wanix.Base.{ℕ, Bytes, codes, ◌≡◌, refl, some, eq_bytes, String}
use wanix.Errors.{err, path_error, not_exist}
use wanix.Paths.{all_elems, split}
use wanix.Subdir.{Whole, Action, full_name, shorten}
use wanix.Subdir.Names.{shorten-full_name}

abbrev missing : {A : Type 0} → String → Bytes → Action ℕ A
missing op name s = (err (path_error op name not_exist), s)

abbrev all_missing : Whole ℕ ℕ ℕ ℕ
all_missing = record {
  stat = λ ctx. missing "stat";
  open_file = λ ctx. missing "open";
  create = missing "create";
  mkdir = λ name perm. missing "mkdir" name;
  truncate = λ name size. missing "truncate" name;
  chtimes = λ name atime mtime. missing "chtimes" name;
  chmod = λ name mode. missing "chmod" name;
  remove = missing "remove";
  rename = λ old new. missing "rename" old;
  symlink = λ old new. missing "symlink" new;
  readlink = missing "readlink";
  set_xattr = λ ctx name attr value flags. missing "setxattr" name;
  get_xattr = λ ctx name attr. missing "getxattr" name;
  list_xattrs = λ ctx. missing "listxattrs";
  remove_xattr = λ ctx name attr. missing "removexattr" name;
}

shorten-full_name_example : shorten (codes "a/b") (codes "a/b/c") ≡ some (codes "c")
unfolding full_name all_elems split eq_bytes
shorten-full_name_example =
    shorten-full_name "stat" (codes "a/b") (codes "c") (codes "a/b/c") refl refl

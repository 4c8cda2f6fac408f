-- ===== src/Modes.antt =====
-- fs/pstat/unixmode.go: the file modes of Unix and of package io/fs. Bits that do not overlap are put
-- together by addition.
pub mod Tests
use wanix.Base.{
  ℕ, ◌+◌, ◌*◌, ◌/◌, ◌%◌, ◌^◌, ◌<◌, ◌≡◌, refl, Bool, true, false, arith, if◌then◌else◌, eq_nat, ltb,
}
use wanix.Nodes.{has_bit, mode_dir}

-- The kinds of files, by the number that Unix has for each above its twelve other bits.
abbrev pub unix_pipe : ℕ
unix_pipe = 1

abbrev pub unix_char_device : ℕ
unix_char_device = 2

abbrev pub unix_dir : ℕ
unix_dir = 4

abbrev pub unix_block_device : ℕ
unix_block_device = 6

abbrev pub unix_regular : ℕ
unix_regular = 8

abbrev pub unix_symlink : ℕ
unix_symlink = 10

abbrev pub unix_socket : ℕ
unix_socket = 12

abbrev pub mode_symlink : ℕ
mode_symlink = 2 ^ 27

abbrev pub mode_device : ℕ
mode_device = 2 ^ 26

abbrev pub mode_named_pipe : ℕ
mode_named_pipe = 2 ^ 25

abbrev pub mode_socket : ℕ
mode_socket = 2 ^ 24

abbrev pub mode_char_device : ℕ
mode_char_device = 2 ^ 21

-- The bits of fs.ModePerm.
abbrev pub perm_of : ℕ → ℕ
perm_of mode = mode % 512

-- The bits of a kind: a regular file has none, and neither has a kind that is not known.
abbrev pub kind_bits : ℕ → ℕ
kind_bits kind =
    if eq_nat kind unix_dir
    then mode_dir
    else if eq_nat kind unix_symlink
    then mode_symlink
    else if eq_nat kind unix_block_device
    then mode_device
    else if eq_nat kind unix_char_device
    then mode_char_device
    else if eq_nat kind unix_pipe
    then mode_named_pipe
    else if eq_nat kind unix_socket
    then mode_socket
    else 0

unfoldable pub unix_mode_to_file_mode : ℕ → ℕ
unix_mode_to_file_mode unix_mode = kind_bits (unix_mode / 4096 % 16) + perm_of unix_mode

abbrev pub kind_of : ℕ → ℕ
kind_of mode =
    if has_bit mode_dir mode
    then unix_dir
    else if has_bit mode_symlink mode
    then unix_symlink
    else if has_bit mode_device mode
    then unix_block_device
    else if has_bit mode_char_device mode
    then unix_char_device
    else if has_bit mode_named_pipe mode
    then unix_pipe
    else if has_bit mode_socket mode
    then unix_socket
    else unix_regular

unfoldable pub file_mode_to_unix_mode : ℕ → ℕ
file_mode_to_unix_mode mode = kind_of mode * 4096 + perm_of mode

-- The kinds that Unix has.
pub data Kind : Type 0 where
  pipe char_device dir block_device regular symlink socket : Kind

abbrev pub number : Kind → ℕ
number pipe = unix_pipe
number char_device = unix_char_device
number dir = unix_dir
number block_device = unix_block_device
number regular = unix_regular
number symlink = unix_symlink
number socket = unix_socket

-- The parts of a mode of Unix.
unix_parts :
    (k p : ℕ) → k < 16 → p < 512 → ((k * 4096 + p) / 4096 % 16 ≡ k) × ((k * 4096 + p) % 512 ≡ p)
unix_parts k p small perm = (omega (arith, small, perm), omega (arith, perm))

kind_of_lem : (kind : Kind) (p : ℕ) → p < 512 → kind_of (kind_bits (number kind) + p) ≡ number kind
kind_of_lem pipe p h =
    let f31 : (33554432 + p) / 2147483648 % 2 ≡ 0 = omega (arith, h) in
    let f27 : (33554432 + p) / 134217728 % 2 ≡ 0 = omega (arith, h) in
    let f26 : (33554432 + p) / 67108864 % 2 ≡ 0 = omega (arith, h) in
    let f21 : (33554432 + p) / 2097152 % 2 ≡ 0 = omega (arith, h) in
    let f25 : (33554432 + p) / 33554432 % 2 ≡ 1 = omega (arith, h) in
    rw (f31, f27, f26, f21, f25) refl
kind_of_lem char_device p h =
    let f31 : (2097152 + p) / 2147483648 % 2 ≡ 0 = omega (arith, h) in
    let f27 : (2097152 + p) / 134217728 % 2 ≡ 0 = omega (arith, h) in
    let f26 : (2097152 + p) / 67108864 % 2 ≡ 0 = omega (arith, h) in
    let f21 : (2097152 + p) / 2097152 % 2 ≡ 1 = omega (arith, h) in rw (f31, f27, f26, f21) refl
kind_of_lem dir p h =
    let f31 : (2147483648 + p) / 2147483648 % 2 ≡ 1 = omega (arith, h) in rw (f31) refl
kind_of_lem block_device p h =
    let f31 : (67108864 + p) / 2147483648 % 2 ≡ 0 = omega (arith, h) in
    let f27 : (67108864 + p) / 134217728 % 2 ≡ 0 = omega (arith, h) in
    let f26 : (67108864 + p) / 67108864 % 2 ≡ 1 = omega (arith, h) in rw (f31, f27, f26) refl
kind_of_lem symlink p h =
    let f31 : (134217728 + p) / 2147483648 % 2 ≡ 0 = omega (arith, h) in
    let f27 : (134217728 + p) / 134217728 % 2 ≡ 1 = omega (arith, h) in rw (f31, f27) refl
kind_of_lem socket p h =
    let f31 : (16777216 + p) / 2147483648 % 2 ≡ 0 = omega (arith, h) in
    let f27 : (16777216 + p) / 134217728 % 2 ≡ 0 = omega (arith, h) in
    let f26 : (16777216 + p) / 67108864 % 2 ≡ 0 = omega (arith, h) in
    let f21 : (16777216 + p) / 2097152 % 2 ≡ 0 = omega (arith, h) in
    let f25 : (16777216 + p) / 33554432 % 2 ≡ 0 = omega (arith, h) in
    let f24 : (16777216 + p) / 16777216 % 2 ≡ 1 = omega (arith, h) in
    rw (f31, f27, f26, f21, f25, f24) refl
kind_of_lem regular p h =
    let f31 : (0 + p) / 2147483648 % 2 ≡ 0 = omega (arith, h) in
    let f27 : (0 + p) / 134217728 % 2 ≡ 0 = omega (arith, h) in
    let f26 : (0 + p) / 67108864 % 2 ≡ 0 = omega (arith, h) in
    let f21 : (0 + p) / 2097152 % 2 ≡ 0 = omega (arith, h) in
    let f25 : (0 + p) / 33554432 % 2 ≡ 0 = omega (arith, h) in
    let f24 : (0 + p) / 16777216 % 2 ≡ 0 = omega (arith, h) in
    rw (f31, f27, f26, f21, f25, f24) refl

perm_of_lem : (kind : Kind) (p : ℕ) → p < 512 → (kind_bits (number kind) + p) % 512 ≡ p
perm_of_lem pipe p h = omega (arith, h)
perm_of_lem char_device p h = omega (arith, h)
perm_of_lem dir p h = omega (arith, h)
perm_of_lem block_device p h = omega (arith, h)
perm_of_lem symlink p h = omega (arith, h)
perm_of_lem socket p h = omega (arith, h)
perm_of_lem regular p h = omega (arith, h)

small : (kind : Kind) → number kind < 16
small pipe = omega arith
small char_device = omega arith
small dir = omega arith
small block_device = omega arith
small symlink = omega arith
small socket = omega arith
small regular = omega arith

-- A mode of Unix of a kind that Unix has, with permissions and no other bits, comes back from
-- UnixModeToFileMode and FileModeToUnixMode as it was.
pub file_mode_to_unix_mode-unix_mode_to_file_mode :
    (kind : Kind) (perm : ℕ)
    → perm < 512
    → file_mode_to_unix_mode (unix_mode_to_file_mode (number kind * 4096 + perm))
      ≡ number kind * 4096 + perm
unfolding file_mode_to_unix_mode unix_mode_to_file_mode
file_mode_to_unix_mode-unix_mode_to_file_mode kind perm h =
    let parts = unix_parts (number kind) perm (small kind) h in
    rw (parts.0, parts.1, kind_of_lem kind perm h, perm_of_lem kind perm h) refl

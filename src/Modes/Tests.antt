-- ===== src/Modes/Tests.antt =====
-- Modes of files that exist.
use wanix.Base.{◌+◌, ◌*◌, ◌≡◌, refl, arith}
use wanix.Nodes.{mode_dir}
use wanix.Modes.{
  unix_mode_to_file_mode, file_mode_to_unix_mode, file_mode_to_unix_mode-unix_mode_to_file_mode,
  mode_device, mode_char_device, dir, number, unix_block_device,
}

-- A directory of mode 0755.
dir_mode : unix_mode_to_file_mode 16877 ≡ mode_dir + 493
unfolding unix_mode_to_file_mode
dir_mode = refl

-- A terminal as package os gives it: both bits of a device make it a block device.
terminal_mode :
    file_mode_to_unix_mode (mode_device + mode_char_device + 400) ≡ unix_block_device * 4096 + 400
unfolding file_mode_to_unix_mode
terminal_mode = refl

file_mode_to_unix_mode-unix_mode_to_file_mode_example :
    file_mode_to_unix_mode (unix_mode_to_file_mode (number dir * 4096 + 493))
    ≡ number dir * 4096 + 493
file_mode_to_unix_mode-unix_mode_to_file_mode_example =
    file_mode_to_unix_mode-unix_mode_to_file_mode dir 493 (omega arith)

-- ===== src/Nodes/Tests.antt =====
-- Concrete files of fs/fskit/node.go, and the theorems at them.
use wanix.Base.{
  take, drop, ◌++◌, ◌-◌, ◌+◌, length, codes, ◌≡◌, refl, false, none, [], ◌∷◌, arith, pos, negsuc,
}
use wanix.Nodes.Splice.{written_lem}
use wanix.Nodes.{zeros, NodeFile, a_data, a_mode, raw_node, close, seek, write, written, mode_dir}
use wanix.Nodes.Contents.{reading, seeking, writing, run, run-IsInside, IsInside}

abbrev a_file : NodeFile
a_file = record { bytes = codes "hello"; dirty = false; offset = 2; closed = false; mod_time = 0 }

written_past : written 4 (codes "xy") (codes "ab") ≡ 97 ∷ 98 ∷ 0 ∷ 0 ∷ 120 ∷ 121 ∷ []
unfolding written
written_past = refl

seek_end : (seek 1000 [] (negsuc 1) 2 a_file).0 ≡ (3, none)
unfolding seek
seek_end = refl

dir_size : (raw_node (a_mode mode_dir ∷ [])).size ≡ pos 2
unfolding raw_node
dir_size = refl

write_then_close :
    (close
      (write 1000 [] none (codes "LL") 9 a_file).1
      (raw_node (a_data (codes "hello") ∷ []))).1.1.bytes
    ≡ codes "heLLo"
unfolding close write raw_node
write_then_close = refl

run-IsInside_example :
    IsInside (run 1000 [] (writing (codes "xyz!") 3 ∷ seeking (negsuc 2) 2 ∷ reading 9 ∷ []) a_file)
run-IsInside_example =
    run-IsInside 1000 [] (writing (codes "xyz!") 3 ∷ seeking (negsuc 2) 2 ∷ reading 9 ∷ []) a_file
      (omega arith)

written_lem_example :
    written 4 (codes "xy") (codes "ab")
    ≡ take 4 (codes "ab" ++ zeros (4 - length (codes "ab")))
      ++ (codes "xy" ++ drop (4 + length (codes "xy")) (codes "ab"))
written_lem_example = written_lem 4 (codes "xy") (codes "ab")

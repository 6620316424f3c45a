-- ===== src/FileSystem/Drawing.antt =====
-- The loop by which each server collects a drawing (Server.cpp, ASCIIServer.cc and
-- ColabProtocolHandler.cpp hold the same text): block 0 asks for the first block of the file.
use distributed_ascii_server.Prelude.{
  ℕ, zero, suc, none, some, [], ◌++◌, ◌==◌, if◌then◌else◌, get_or, set,
}
use distributed_ascii_server.Text.{Bytes, Run, done, fault, no_fuel, c_str}
use distributed_ascii_server.FileSystem.Disk.{Disk}
use distributed_ascii_server.FileSystem.Directory.{extract_block}

-- while (next != 255): read a block, follow its last byte, append its text.
unfoldable pub drawing_loop : ℕ → Disk → Bytes → ℕ → Bytes → Run Bytes
drawing_loop zero d name next ascii_art = no_fuel
drawing_loop (suc fuel) d name next ascii_art =
    let rest : Run Bytes = elim (extract_block d name next) [
      | none ↦ fault
      | some block ↦
          drawing_loop fuel d name (get_or block 255 0) (ascii_art ++ c_str (set block 255 0))
    ] in
    if next == 255 then done ascii_art else rest

-- A chain visits at most the 256 blocks that a byte can name, so 257 rounds are enough for every
-- chain that ends.
unfoldable pub drawing : Disk → Bytes → Run Bytes
unfolding drawing_loop
drawing d name = drawing_loop 257 d name 0 []

-- ===== src/Tests/Catalogue.antt =====
-- The file system as a catalogue: a file on a new disk, and a server's start.
use distributed_ascii_server.Prelude.{ℕ, ◌+◌, ◌≤◌, ◌≡◌, All, none, some, [], arith}
use distributed_ascii_server.Text.{Bytes, bytes, done}
use distributed_ascii_server.Text.Maps.{lookup}
use distributed_ascii_server.FileSystem.Disk.{Disk, blank}
use distributed_ascii_server.FileSystem.Directory.{write_file}
use distributed_ascii_server.FileSystem.Mount.{mount_server}
use distributed_ascii_server.FileSystem.Catalogue.{add, Holds}
use distributed_ascii_server.FileSystem.Catalogue.Reading.{served, served_refines}
use distributed_ascii_server.FileSystem.Catalogue.Writing.{blocks, write_file_refines}
use distributed_ascii_server.FileSystem.Catalogue.Mounting.{
  blank-Holds, IsReady, objetos, listed, server_names, mount_server_refines,
}

abbrev name : Bytes
name = bytes "Goku.txt"

abbrev text : Bytes
text = bytes "(o_o)"

abbrev Written : Type 0
Written =
    (d' : Disk) × (n' : ℕ) × (write_file name (some text) (some blank)
      ≡ done ((add name text []).0, some d'))
    × Holds d' n' (add name text []).1
    × (n' ≤ 1 + blocks text)

-- The disk with the one file.
written : Written
written =
    write_file_refines blank 1 [] name text blank-Holds (omega arith) (λ e. cc) (omega arith)
      (omega arith) (omega arith) (omega arith)

served_refines_example : served written.0 name ≡ done (lookup name (add name text []).1)
served_refines_example =
    served_refines written.0 written.1 (add name text []).1 name written.3 (λ e. cc) (omega arith)

write_file_refines_example : Written
write_file_refines_example =
    write_file_refines blank 1 [] name text blank-Holds (omega arith) (λ e. cc) (omega arith)
      (omega arith) (omega arith) (omega arith)

ready : All (IsReady (λ path. some text) objetos (λ n. text)) server_names
ready = ground arith

-- Every drawing's file has the same text.
mount_server_refines_example :
    (d : Disk) × (mount_server (λ path. some text) none ≡ done (some d))
    × (served d name ≡ done (lookup name (listed (λ n. text) server_names)))
    × (mount_server (λ path. some text) (some d) ≡ done (some d))
mount_server_refines_example =
    mount_server_refines (λ path. some text) (λ n. text) name ready (omega arith) (λ e. cc)
      (omega arith)

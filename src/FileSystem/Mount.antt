-- ===== src/FileSystem/Mount.antt =====
-- The drawings that the two servers write to the disk when they start: Server::MountSystem and the
-- constructor of ColabProtocolHandler. `files` is what the host's file system holds at a path.
use distributed_ascii_server.Prelude.{Option, some, List, [], ◌∷◌, ◌++◌}
use distributed_ascii_server.Text.{Bytes, Run, done, bytes, ◌>>=◌}
use distributed_ascii_server.FileSystem.Disk.{Disk, mount_system}
use distributed_ascii_server.FileSystem.Directory.{write_file}

-- One writeFile after the other, whatever each returns.
unfoldable pub write_drawings :
    (Bytes → Option Bytes) → Bytes → List Bytes → Option Disk → Run (Option Disk)
write_drawings files folder [] disk = done disk
write_drawings files folder (name ∷ names) disk =
    write_file name (files (folder ++ name)) disk >>= λ written.
    write_drawings files folder names written.1

unfoldable pub mount_server : (Bytes → Option Bytes) → Option Disk → Run (Option Disk)
mount_server files disk =
    write_drawings files (bytes "../../Objetos/")
      (bytes "Goku.txt"
        ∷ bytes "Gogeta.txt"
        ∷ bytes "Foca.txt"
        ∷ bytes "CocaCola.txt"
        ∷ bytes "Exitante.txt"
        ∷ bytes "GoyoCat.txt"
        ∷ [])
      (some (mount_system disk))

unfoldable pub mount_handler : (Bytes → Option Bytes) → Option Disk → Run (Option Disk)
mount_handler files disk =
    write_drawings files (bytes "ascii/")
      (bytes "Personal.txt"
        ∷ bytes "Goku.txt"
        ∷ bytes "Gogeta.txt"
        ∷ bytes "Foca.txt"
        ∷ bytes "CocaCola.txt"
        ∷ bytes "Exitante.txt"
        ∷ bytes "GoyoCat.txt"
        ∷ [])
      (some (mount_system disk))

-- ===== src/FileSystem/Disk.antt =====
-- The file disk.dat as the standard streams see it, and mountSystem of FileSystem.c.
use distributed_ascii_server.Prelude.{
  ℕ, zero, suc, ◌+◌, ◌-◌, ◌≤◌, ◌<◌, ◌≡◌, ◌≢◌, refl, ap, ◌∙◌, Bool, true, false, ◌&&◌, Option, none,
  some, [], ◌∷◌, max, arith, ltb, leb, ◌==◌, if◌then◌else◌, length, get_or,
}
use distributed_ascii_server.Text.{Bytes}

-- COUNTBLOCKS, SIZEBLOCK and DATAPACKET
abbrev pub count_blocks : ℕ
count_blocks = 255

abbrev pub size_block : ℕ
size_block = 256

abbrev pub data_packet : ℕ
data_packet = 255

pub record Disk : Type 0 where
  pub byte : ℕ → ℕ
  pub size : ℕ

-- fread at `pos`: the `n` bytes from there, fewer at the end of the file.
unfoldable pub fread : Disk → ℕ → ℕ → Bytes
fread d pos zero = []
fread d pos (suc n) =
    let rest = fread d (suc pos) n in if ltb pos d.size then d.byte pos ∷ rest else []

-- fwrite at `pos`: a gap past the old end reads as zeros.
unfoldable pub fwrite : Disk → ℕ → Bytes → Disk
fwrite d pos bs = record {
  byte = λ p.
      if leb pos p && ltb p (pos + length bs)
      then get_or bs (p - pos) 0
      else if ltb p d.size
      then d.byte p
      else 0;
  size = max d.size (pos + length bs);
}

-- The block that mountSystem writes: 255 zeros, and 1 for the next block to hand out.
unfoldable pub blank : Disk
blank = record { byte = λ p. if p == 255 then 1 else 0; size = 256 }

-- checkMounted: disk.dat can be opened.
unfoldable pub check_mounted : Option Disk → Bool
check_mounted none = false
check_mounted (some d) = true

unfoldable pub mount_system : Option Disk → Disk
unfolding blank
mount_system none = blank
mount_system (some d) = d

module _ (d : Disk) (pos : ℕ) (bs : Bytes) where
  -- A byte that is written, one that is kept.
  pub byte-fwrite_in :
      (p : ℕ) → pos ≤ p → p < pos + length bs → (fwrite d pos bs).byte p ≡ get_or bs (p - pos) 0
  unfolding fwrite
  byte-fwrite_in p h k = ground arith

  pub byte-fwrite_below : (p : ℕ) → p < pos → p < d.size → (fwrite d pos bs).byte p ≡ d.byte p
  unfolding fwrite
  byte-fwrite_below p h k = ground arith

  pub byte-fwrite_above :
      (p : ℕ) → pos + length bs ≤ p → p < d.size → (fwrite d pos bs).byte p ≡ d.byte p
  unfolding fwrite
  byte-fwrite_above p h k = ground arith

  pub size-fwrite : (fwrite d pos bs).size ≡ max d.size (pos + length bs)
  unfolding fwrite
  size-fwrite = refl

-- Writing one byte.
module _ (d : Disk) (pos v : ℕ) where
  pub byte-put_self : (fwrite d pos (v ∷ [])).byte pos ≡ v
  unfolding fwrite
  byte-put_self =
      let e : pos - pos ≡ 0 = omega arith in
      byte-fwrite_in d pos (v ∷ []) pos (omega arith) (omega arith)
      ∙ ap (λ (i : ℕ). get_or (v ∷ []) i 0) e

  pub byte-put_ne : (p : ℕ) → p ≢ pos → p < d.size → (fwrite d pos (v ∷ [])).byte p ≡ d.byte p
  unfolding fwrite
  byte-put_ne p h k = ground arith

  pub size-put : (fwrite d pos (v ∷ [])).size ≡ max d.size (pos + 1)
  unfolding fwrite
  size-put = refl

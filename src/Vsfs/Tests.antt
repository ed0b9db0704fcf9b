-- ===== src/Vsfs/Tests.antt =====
-- The bitmaps and the inode table on a disk in memory.
use efiks_os.Prelude.{ℕ, zero, suc, ◌<◌, ◌≡◌, refl, [], ◌∷◌, replicate, All, ok, arith, ◌^◌}
use efiks_os.Vfs.Memory.{Disk, memory, memory-IsReliable}
use efiks_os.Vsfs.Layout.{InodeInner, directory, decode_superblock}
use efiks_os.Vsfs.Layout.Roundtrip.{IsEncodable}
use efiks_os.Vsfs.Bitmap.{allocate_bitmap_bit, free_bitmap_bit}
use efiks_os.Vsfs.Bitmap.Laws.{bitmap_bit, Allocates, allocate_bitmap_bit-Allocates}
use efiks_os.Vsfs.Bitmap.Free.{Frees, free_bitmap_bit-Frees, free-allocate}
use efiks_os.Vsfs.Inodes.{Cache, Vsfs, write_inode_to_block, scan, read_inode_during}
use efiks_os.Vsfs.Inodes.Scan.{Scans, scan-Scans}
use efiks_os.Vsfs.Inodes.Lookup.{Loads, read_inode_during-Loads}
use efiks_os.Vsfs.Inodes.Table.{Stores, write_inode_to_block-Stores}

abbrev full_byte : Disk
full_byte = record { sectors = 80; contents = λ s. 255 ∷ replicate 511 0 }

allocate_bitmap_bit-Allocates_example :
    Allocates memory full_byte 1 3 40 0 (allocate_bitmap_bit memory 1 3 40 full_byte)
allocate_bitmap_bit-Allocates_example =
    allocate_bitmap_bit-Allocates memory full_byte 1 3 40 memory-IsReliable (omega arith)

free_bitmap_bit-Frees_example : Frees memory full_byte 1 5 (free_bitmap_bit memory 1 5 full_byte)
free_bitmap_bit-Frees_example = free_bitmap_bit-Frees memory memory-IsReliable full_byte 1 5

abbrev taken : Disk
taken = (allocate_bitmap_bit memory 1 3 40 full_byte).0

abbrev given_back : Disk
given_back = (free_bitmap_bit memory 1 8 taken).0

taken_lem : allocate_bitmap_bit memory 1 3 40 full_byte ≡ (taken, ok 8)
unfolding allocate_bitmap_bit
taken_lem = refl

given_back_lem : free_bitmap_bit memory 1 8 taken ≡ (given_back, ok tt)
unfolding allocate_bitmap_bit free_bitmap_bit
given_back_lem = refl

free-allocate_example : bitmap_bit memory given_back 1 5 ≡ bitmap_bit memory full_byte 1 5
free-allocate_example =
    free-allocate memory memory-IsReliable full_byte taken given_back 1 3 40 8 (omega arith)
      taken_lem given_back_lem 5

abbrev root_directory : InodeInner
root_directory = record {
  ty = directory;
  link_count = 1;
  metadata = record { dev = 0; sz = 192 };
  direct_blocks = replicate 12 9;
  indirect_block = 0;
}

All-replicate : (n : ℕ) → All (λ b. b < 2 ^ 32) (replicate n 9)
All-replicate zero = tt
All-replicate (suc n) = (omega arith, All-replicate n)

root_directory-IsEncodable : IsEncodable root_directory
root_directory-IsEncodable = record {
  links = omega arith;
  device_id = omega arith;
  size = omega arith;
  direct = All-replicate 12;
  twelve = refl;
  indirect = omega arith;
}

write_inode_to_block-Stores_example :
    Stores memory memory-IsReliable full_byte 3 2 root_directory root_directory-IsEncodable
      (write_inode_to_block memory 3 2 root_directory full_byte)
write_inode_to_block-Stores_example =
    write_inode_to_block-Stores memory memory-IsReliable full_byte 3 2 root_directory
      root_directory-IsEncodable

scan-Scans_example :
    Scans memory full_byte root_directory
      (46 ∷ [])
      0
      6
      (scan memory full_byte root_directory (46 ∷ []) 0 6)
scan-Scans_example = scan-Scans memory full_byte root_directory (46 ∷ []) 0 6

abbrev mounted : Vsfs memory
mounted = record {
  superblock = decode_superblock (replicate 512 3);
  inode_cache = [];
  disk = full_byte;
}

abbrev another_thread : Cache → Cache
another_thread cache = (5, root_directory) ∷ cache

read_inode_during-Loads_example :
    Loads memory another_thread 7 mounted (read_inode_during memory another_thread 7 mounted)
read_inode_during-Loads_example = read_inode_during-Loads memory another_thread 7 mounted

-- ===== src/Vsfs/Create.antt =====
-- vsfs/src/lib.rs: `create_file` with its clean-up, `VNode::open`, `VNode::create`, `initialize`
-- and `root`.
use efiks_os.Prelude.{
  ℕ, zero, suc, ◌+◌, ◌/◌, ◌%◌, ◌^◌, Bool, true, false, ◌||◌, ◌&&◌, List, [], ◌∷◌, ◌++◌, Option,
  none, some, length, get_elem?, get_or, set, replicate, take, Result, ok, err, panic, ◌>>=◌, ltb,
  ◌==◌, if◌then◌else◌,
}
use efiks_os.Vfs.Device.{BlockDevice, VfsError, fs, not_found}
use efiks_os.Vsfs.Layout.{
  InodeInner, DirEnt, SuperBlock, file, is_directory, dirent_size, block_size, magic,
  direct_block_count, decode_superblock,
}
use efiks_os.Vsfs.Bitmap.{allocate_inode, allocate_data_block, free_inode, free_data_block}
use efiks_os.Vsfs.Inodes.{
  Vsfs, cached, put, lookup_path_inner, read_inode, write_inode_to_block, write_dirent,
}

-- `path.split(|b| *b == b'/').filter(|p| !p.is_empty())`, `part` being what was read of a component.
abbrev pub push_component : List ℕ → List (List ℕ) → List (List ℕ)
push_component [] rest = rest
push_component (c ∷ cs) rest = (c ∷ cs) ∷ rest

unfoldable pub components_from : List ℕ → List ℕ → List (List ℕ)
components_from part [] = push_component part []
components_from part (c ∷ cs) = elim (c == b'/') [
  | true ↦ push_component part (components_from [] cs)
  | false ↦ components_from (part ++ (c ∷ [])) cs
]

unfoldable pub components : List ℕ → List (List ℕ)
unfolding components_from
components = components_from []

-- `name[..name.len()].copy_from_slice(name)` on `[0; 27]`
abbrev pub padded_name : List ℕ → List ℕ
padded_name name = take 27 (name ++ replicate 27 0)

abbrev pub empty_inode : InodeInner
empty_inode = record {
  ty = file;
  link_count = 1;
  metadata = record { dev = 0; sz = 0 };
  direct_blocks = replicate direct_block_count 0;
  indirect_block = 0;
}

abbrev pub grown : InodeInner → InodeInner
grown inode = record inode {
  metadata = record { dev = inode.metadata.dev; sz = inode.metadata.sz + dirent_size };
}

module _ (device : BlockDevice) where
  open device use {Disk, read_sector}

  -- Best effort: errors are dropped.
  unfoldable pub free_create_allocations : SuperBlock → Option ℕ → Option ℕ → Disk → Disk
  unfolding free_inode free_data_block
  free_create_allocations sb inum data_block d = let d₁ = free_inum inum in free_block data_block d₁
    where
      free_inum : Option ℕ → Disk
      free_inum none = d
      free_inum (some i) = (free_inode device sb i d).0

      free_block : Option ℕ → Disk → Disk
      free_block none d₁ = d₁
      free_block (some b) d₁ = (free_data_block device sb b d₁).0

  -- The block that the new entry goes to: the parent's own, or a new one.
  unfoldable pub block_for_entry :
      SuperBlock → InodeInner → ℕ → Disk → Disk × Result VfsError (InodeInner × Option ℕ)
  unfolding allocate_data_block
  block_for_entry sb parent block_idx d = elim (get_elem? parent.direct_blocks block_idx) [
    | none ↦ (d, panic)
    | some (suc b) ↦ (d, ok (parent, none))
    | some zero ↦
        let (d', found) = allocate_data_block device sb d in
        (
          d',
          (found >>= λ block. ok (
            record parent { direct_blocks = set parent.direct_blocks block_idx block },
            some block,
          )),
        )
  ]

  -- After the parent's inode could not be written: the entry is blanked and the old inode written.
  -- Where that fails too, the allocations are kept, since the parent may still refer to them.
  unfoldable pub roll_back :
      SuperBlock
      → (parent : ℕ) → (original : InodeInner) → (block block_offset inum : ℕ)
      → (allocated : Option ℕ) → Disk
      → Disk
  unfolding write_dirent write_inode_to_block free_create_allocations
  roll_back sb parent original block block_offset inum allocated d =
      let blank : DirEnt = record { inum = 0; name_len = 0; name = replicate 27 0 } in
      let d₁ = (write_dirent device block block_offset blank d).0 in
      let (d₂, restored) = write_inode_to_block device sb.inode_table_start parent original d₁ in
      elim restored [
        | ok _ ↦ free_create_allocations sb (some inum) allocated d₂
        | err _ ↦ d₂
        | panic ↦ d₂
      ]

  -- The three writes of a new file, each with its clean-up.
  unfoldable pub write_new_file :
      SuperBlock
      → (parent : ℕ) → (original updated : InodeInner) → (name : List ℕ)
      → (block block_offset inum : ℕ) → (allocated : Option ℕ) → Disk
      → Disk × Result VfsError (Unit {0})
  unfolding write_inode_to_block write_dirent free_create_allocations roll_back
  write_new_file sb parent original updated name block block_offset inum allocated d =
      let (d₁, inode_written) =
        write_inode_to_block device sb.inode_table_start inum empty_inode d in
      elim inode_written [
        | panic ↦ (d₁, panic)
        | err e ↦ (free_create_allocations sb (some inum) allocated d₁, err e)
        | ok _ ↦
            let dirent : DirEnt = record {
              inum = inum;
              name_len = length name;
              name = padded_name name;
            } in
            let (d₂, dirent_written) = write_dirent device block block_offset dirent d₁ in
            elim dirent_written [
              | panic ↦ (d₂, panic)
              | err e ↦ (free_create_allocations sb (some inum) allocated d₂, err e)
              | ok _ ↦
                  let (d₃, parent_written) =
                    write_inode_to_block device sb.inode_table_start parent updated d₂ in
                  elim parent_written [
                    | ok _ ↦ (d₃, ok tt)
                    | panic ↦ (d₃, panic)
                    | err e ↦
                        (roll_back sb parent original block block_offset inum allocated d₃, err e)
                  ]
            ]
      ]

  -- From the checks on: allocate, then write. The result is the new inode number with the parent's
  -- new inode.
  unfoldable pub place_file :
      SuperBlock
      → (parent : ℕ) → InodeInner
      → (name : List ℕ) → Disk
      → Disk × Result VfsError (ℕ × InodeInner)
  unfolding block_for_entry allocate_inode free_create_allocations write_new_file
  place_file sb parent original name d =
      let block_idx = original.metadata.sz / block_size in
      let block_offset = original.metadata.sz % block_size in
      let (d₁, blocks) = block_for_entry sb (grown original) block_idx d in
      elim blocks [
        | err e ↦ (d₁, err e)
        | panic ↦ (d₁, panic)
        | ok (updated, allocated) ↦
            let (d₂, found) = allocate_inode device sb d₁ in
            elim found [
              | err e ↦ (free_create_allocations sb none allocated d₂, err e)
              | panic ↦ (d₂, panic)
              | ok inum ↦
                  let (d₃, written) =
                    write_new_file sb parent original updated name
                      (get_or updated.direct_blocks block_idx 0) block_offset inum allocated d₂ in
                  (d₃, (written >>= λ _. ok (inum, updated)))
            ]
      ]

  -- The size of the grown directory must fit `u32`, and its entry one of the direct blocks.
  abbrev pub has_room : InodeInner → Bool
  has_room inode =
      ltb (inode.metadata.sz + dirent_size) (2 ^ 32)
      && ltb (inode.metadata.sz / block_size) direct_block_count

  unfoldable pub add_file :
      (parent : ℕ) → InodeInner → (name : List ℕ) → Vsfs device → Vsfs device × Result VfsError ℕ
  unfolding place_file put
  add_file parent original name s =
      if has_room original
      then (let (d, placed) = place_file s.superblock parent original name s.disk in
          elim placed [
            | err e ↦ (record s { disk = d }, err e)
            | panic ↦ (record s { disk = d }, panic)
            | ok (inum, updated) ↦ (
              record s {
                disk = d;
                inode_cache = put inum empty_inode (put parent updated s.inode_cache);
              },
              ok inum,
            )
          ])
      else (s, err fs)

  unfoldable pub create_file :
      (parent : ℕ) → (name : List ℕ) → Vsfs device → Vsfs device × Result VfsError ℕ
  unfolding lookup_path_inner add_file cached
  create_file parent name s =
      if length name == 0 || ltb 27 (length name)
      then (s, err fs)
      else (elim (cached parent s.inode_cache) [
        | none ↦ (s, panic)
        | some original ↦
            if is_directory original.ty && original.metadata.sz % dirent_size == 0
            then (let (s₁, found) = lookup_path_inner device original name s in
                elim found [
                  | ok _ ↦ (s₁, err fs)
                  | panic ↦ (s₁, panic)
                  | err not_found ↦ add_file parent original name s₁
                  | err e ↦ (s₁, err e)
                ])
            else (s, err fs)
      ])

  -- One component of a path, from the inode `current`.
  unfoldable pub step_into :
      (current : ℕ) → (path : List ℕ) → Vsfs device → Vsfs device × Result VfsError ℕ
  unfolding lookup_path_inner cached
  step_into current path s = elim (cached current s.inode_cache) [
    | none ↦ (s, panic)
    | some inode ↦
        if is_directory inode.ty then lookup_path_inner device inode path s else (s, err fs)
  ]

  unfoldable pub open_from :
      (current : ℕ) → List (List ℕ) → Vsfs device → Vsfs device × Result VfsError ℕ
  unfolding step_into
  open_from current [] s = (s, ok current)
  open_from current (path ∷ rest) s =
      let (s', found) = step_into current path s in
      elim found [ ok next ↦ open_from next rest s' | err e ↦ (s', err e) | panic ↦ (s', panic) ]

  unfoldable pub open_path : (current : ℕ) → List ℕ → Vsfs device → Vsfs device × Result VfsError ℕ
  unfolding open_from components
  open_path current path = open_from current (components path)

  -- The loop of `create`. A component that is not found is an error unless it is the last.
  unfoldable pub create_from :
      (current : ℕ) → List (List ℕ) → Vsfs device → Vsfs device × Result VfsError ℕ
  unfolding step_into create_file
  create_from current [] s = (s, err fs)
  create_from current (path ∷ []) s =
      let (s', found) = step_into current path s in
      elim found [
        | ok _ ↦ (s', err fs)
        | err not_found ↦ create_file current path s'
        | err _ ↦ (s', err fs)
        | panic ↦ (s', panic)
      ]
  create_from current (path ∷ next ∷ rest) s =
      let (s', found) = step_into current path s in
      elim found [
        | ok inum ↦ create_from inum (next ∷ rest) s'
        | err e ↦ (s', err e)
        | panic ↦ (s', panic)
      ]

  unfoldable pub create_path :
      (current : ℕ) → List ℕ → Vsfs device → Vsfs device × Result VfsError ℕ
  unfolding create_from components
  create_path current path = create_from current (components path)

  unfoldable pub initialize : Disk → Result VfsError (Vsfs device)
  unfolding read_inode decode_superblock
  initialize d = read_sector 0 d >>= λ buf.
      let sb = decode_superblock buf in
      if sb.magic_number == magic
      then (let (s, root) =
            read_inode device 1 (record { superblock = sb; inode_cache = []; disk = d }) in
          root >>= λ _. ok s)
      else err fs

-- ===== src/Directory/Entry.antt =====
-- `DirEntry` (DirEntry.h), and the flags of a mode (src/fspp/fs_interface/Types.h).
use libcryfs.Common.{ℕ, ◌+◌, ◌/◌, ◌%◌, ◌^◌, Bool, true, false, ◌&&◌, ◌||◌, if◌then◌else◌}
use libcryfs.Common.Equality.{◌==◌, nat_eq}
use libcryfs.Common.Result.{Result, ok, guard, assert_failed, ◌>>◌}
use libcryfs.Common.Bytes.{Data, BlockId}

pub data EntryType : Type 0 where
  dir file symlink : EntryType

abbrev pub same_type : EntryType → EntryType → Bool
same_type dir dir = true
same_type file file = true
same_type symlink symlink = true
same_type dir file = false
same_type dir symlink = false
same_type file dir = false
same_type file symlink = false
same_type symlink dir = false
same_type symlink file = false

-- `timespec`
pub record Time : Type 0 where
  pub seconds : ℕ
  pub nanoseconds : ℕ

pub record DirEntry : Type 0 where
  pub entry_type : EntryType
  pub name : Data
  pub block_id : BlockId
  pub mode : ℕ
  pub uid : ℕ
  pub gid : ℕ
  pub last_access_time : Time
  pub last_modification_time : Time
  pub last_metadata_change_time : Time

-- `mode | 2 ^ n`
abbrev set_bit : ℕ → ℕ → ℕ
set_bit n mode = if (mode / 2 ^ n) % 2 == 1 then mode else mode + 2 ^ n

-- `mode & S_IFMT`, without the 12 bits below.
abbrev format_bits : ℕ → ℕ
format_bits mode = (mode / 2 ^ 12) % 16

abbrev pub has_file_flag : ℕ → Bool
has_file_flag mode = format_bits mode == 8

abbrev pub has_dir_flag : ℕ → Bool
has_dir_flag mode = format_bits mode == 4

abbrev pub has_symlink_flag : ℕ → Bool
has_symlink_flag mode = format_bits mode == 10

-- `addFileFlag`, `addDirFlag` and `addSymlinkFlag`.
abbrev pub add_flag : EntryType → ℕ → ℕ
add_flag file mode = set_bit 15 mode
add_flag dir mode = set_bit 14 mode
add_flag symlink mode = set_bit 13 (set_bit 15 mode)

-- The condition of the constructor's assertion.
abbrev pub is_known_mode : EntryType → ℕ → Bool
is_known_mode type mode =
    (has_file_flag mode && same_type type file)
    || (has_dir_flag mode && same_type type dir)
    || (has_symlink_flag mode && same_type type symlink)

-- What an operation gets from its caller to make an entry of.
pub record Attributes : Type 0 where
  pub entry_type : EntryType
  pub mode : ℕ
  pub uid : ℕ
  pub gid : ℕ
  pub last_access_time : Time
  pub last_modification_time : Time

-- The constructor.
unfoldable pub new_entry : Data → BlockId → Attributes → Time → Result DirEntry
new_entry name block_id a last_metadata_change_time = do
  let mode = add_flag a.entry_type a.mode
  guard (is_known_mode a.entry_type mode) assert_failed
  ok (record {
    entry_type = a.entry_type;
    name = name;
    block_id = block_id;
    mode = mode;
    uid = a.uid;
    gid = a.gid;
    last_access_time = a.last_access_time;
    last_modification_time = a.last_modification_time;
    last_metadata_change_time = last_metadata_change_time;
  })

abbrev pub set_name : Time → Data → DirEntry → DirEntry
set_name now value e = record e { name = value; last_metadata_change_time = now }

abbrev pub set_mode : Time → ℕ → DirEntry → DirEntry
set_mode now value e = record e { mode = value; last_metadata_change_time = now }

abbrev pub set_uid : Time → ℕ → DirEntry → DirEntry
set_uid now value e = record e { uid = value; last_metadata_change_time = now }

abbrev pub set_gid : Time → ℕ → DirEntry → DirEntry
set_gid now value e = record e { gid = value; last_metadata_change_time = now }

abbrev pub set_last_access_time : Time → DirEntry → DirEntry
set_last_access_time value e = record e { last_access_time = value }

abbrev pub set_last_modification_time : Time → Time → DirEntry → DirEntry
set_last_modification_time now value e = record e {
  last_modification_time = value;
  last_metadata_change_time = now;
}

-- ===== src/Exe.antt =====
-- src/exe_utils.rs: reading and adding sections of executable files, as lists of bytes. The platform is
-- little-endian, so the test for that is left
-- out; section names are given as their bytes, and a failed read or write does not say where it failed.
pub mod Fields
pub mod Pe
use rjrssync.Common.{
  ℕ, zero, suc, ◌+◌, ◌-◌, ◌*◌, ◌/◌, Bool, true, false, not, Option, none, some, List, [], ◌∷◌, ◌++◌,
  Str, codes, str_beq, Outcome, ok, err, panic, ◌>>=◌, if◌then◌else◌, length, take, drop, nat_beq,
  leb, ltb, add_u64,
}
use rjrssync.Encrypted.{to_le_bytes, from_le_bytes}

-- `ExtractSectionError`
pub data ExeError : Type 0 where
  section_not_found : ExeError
  other : Str → ExeError

-- The fields are of `width` bytes: 1, 2, 4 or 8.
unfoldable pub read_field : ℕ → List ℕ → ℕ → Outcome ExeError ℕ
unfolding from_le_bytes
read_field width bytes offset =
    if leb (offset + width) (length bytes)
    then ok (from_le_bytes (take width (drop offset bytes)))
    else err (other (codes "Failed to read bytes"))

-- The value is cut to the width.
unfoldable pub write_field : ℕ → List ℕ → ℕ → ℕ → Outcome ExeError (List ℕ)
unfolding to_le_bytes
write_field width bytes offset val =
    if leb (offset + width) (length bytes)
    then ok (take offset bytes ++ (to_le_bytes width val ++ drop (offset + width) bytes))
    else err (other (codes "Failed to write bytes"))

-- The loop over the bytes from the offset on.
unfoldable pub string_from : ℕ → List ℕ → Outcome ExeError (List ℕ)
string_from max_size [] = err (other (codes "Failed to read string"))
string_from max_size (c ∷ bytes) =
    let rest = string_from (max_size - 1) bytes in
    if nat_beq c 0 then ok [] else if leb max_size 1 then ok (c ∷ []) else (do s ← rest; ok (c ∷ s))

unfoldable pub read_string : List ℕ → ℕ → ℕ → Outcome ExeError (List ℕ)
unfolding string_from
read_string bytes offset max_size = string_from max_size (drop offset bytes)

-- `split_off`, which panics past the end.
abbrev pub split_off : ℕ → List ℕ → Outcome ExeError (List ℕ × List ℕ)
split_off at_index bytes =
    if leb at_index (length bytes) then ok (take at_index bytes, drop at_index bytes) else panic

abbrev pub ensure : Bool → Str → Outcome {0} ExeError Unit
ensure b message = if b then ok tt else err (other message)

unfoldable pub validate_elf_header : List ℕ → Outcome {0} ExeError Unit
unfolding read_field
validate_elf_header bytes = do
  magic ← read_field 4 bytes 0
  _ ← ensure (str_beq (to_le_bytes 4 magic) (127 ∷ codes "ELF")) (codes "Invalid ELF magic")
  bitness ← read_field 1 bytes 0x4
  _ ← ensure (nat_beq bitness 2) (codes "Only 64-bit ELF files are supported")
  endianness ← read_field 1 bytes 0x5
  _ ← ensure (nat_beq endianness 1) (codes "Only little-endian ELF files are supported")
  version ← read_field 1 bytes 0x6
  ensure (nat_beq version 1) (codes "Only V1 ELF files are supported")

-- The fields of the ELF header that are read: where the table of the section headers is, the size of
-- a header, their number, and the index of the section with the names.
pub record ElfHeader : Type 0 where
  pub table_offset : ℕ
  pub header_size : ℕ
  pub num_sections : ℕ
  pub names_idx : ℕ

unfoldable pub read_elf_header : List ℕ → Outcome ExeError ElfHeader
unfolding read_field
read_elf_header bytes = do
  table_offset ← read_field 8 bytes 0x28
  header_size ← read_field 2 bytes 0x3A
  num_sections ← read_field 2 bytes 0x3C
  names_idx ← read_field 2 bytes 0x3E
  ok (record {
    table_offset = table_offset;
    header_size = header_size;
    num_sections = num_sections;
    names_idx = names_idx;
  })

-- The contents of the section whose header is at the offset.
abbrev pub section_contents : List ℕ → ℕ → Outcome ExeError (List ℕ)
section_contents bytes header_offset = do
  data_offset ← read_field 8 bytes (add_u64 header_offset 0x18)
  data_size ← read_field 8 bytes (add_u64 header_offset 0x20)
  (_, x) ← split_off data_offset bytes
  ok (take data_size x)

-- The loop over the sections: how many are left, and the index of the next.
unfoldable pub find_section : List ℕ → Str → ElfHeader → ℕ → ℕ → ℕ → Outcome ExeError (List ℕ)
unfolding read_field read_string
find_section bytes section_name h names_offset zero idx = err section_not_found
find_section bytes section_name h names_offset (suc n) idx = do
  let header_offset = add_u64 h.table_offset (idx * h.header_size)
  let later = find_section bytes section_name h names_offset n (suc idx)
  name_offset ← read_field 4 bytes header_offset
  name ← read_string bytes (add_u64 names_offset name_offset) 32
  if str_beq name section_name then section_contents bytes header_offset else later

unfoldable pub extract_section_from_elf : List ℕ → Str → Outcome ExeError (List ℕ)
unfolding validate_elf_header read_elf_header find_section
extract_section_from_elf bytes section_name = do
  _ ← validate_elf_header bytes
  h ← read_elf_header bytes
  names_offset ←
      read_field 8 bytes (add_u64 (add_u64 h.table_offset (h.names_idx * h.header_size)) 0x18)
  find_section bytes section_name h names_offset h.num_sections 0

-- The sections behind the names are moved by the length of the new name.
unfoldable pub bump_offsets : ℕ → ℕ → ℕ → ℕ → List ℕ → Outcome ExeError (List ℕ)
unfolding read_field write_field
bump_offsets by header_size zero idx table = ok table
bump_offsets by header_size (suc n) idx table = do
  orig_offset ← read_field 8 table (idx * header_size + 0x18)
  table' ← write_field 8 table (idx * header_size + 0x18) (add_u64 orig_offset by)
  bump_offsets by header_size n (suc idx) table'

abbrev pub zeroes : ℕ → List ℕ
zeroes zero = []
zeroes (suc n) = 0 ∷ zeroes n

unfoldable pub new_elf_header : ℕ → ℕ → ℕ → ℕ → Outcome ExeError (List ℕ)
unfolding write_field
new_elf_header header_size name_offset data_offset data_size = do
  h1 ← write_field 4 (zeroes header_size) 0x0 name_offset
  h2 ← write_field 4 h1 0x04 0x80000000
  h3 ← write_field 8 h2 0x18 data_offset
  write_field 8 h3 0x20 data_size

-- `splice` of an empty range, which panics past the end.
abbrev pub insert_at : ℕ → List ℕ → List ℕ → Outcome ExeError (List ℕ)
insert_at i new bytes = do (before, after) ← split_off i bytes; ok (before ++ (new ++ after))

unfoldable pub add_section_to_elf : List ℕ → Str → List ℕ → Outcome ExeError (List ℕ)
unfolding validate_elf_header read_elf_header bump_offsets new_elf_header
add_section_to_elf bytes new_section_name new_section_bytes = do
  _ ← validate_elf_header bytes
  h ← read_elf_header bytes
  _ ←
      ensure (nat_beq (length bytes) (add_u64 h.table_offset (h.num_sections * h.header_size)))
        (codes "ELF file wrong size or layout")
  (body, table) ← split_off h.table_offset bytes
  names_offset ← read_field 8 table (h.names_idx * h.header_size + 0x18)
  names_size ← read_field 8 table (h.names_idx * h.header_size + 0x20)
  let name = new_section_name ++ 0 ∷ []
  body1 ← insert_at (add_u64 names_offset names_size) name body
  table1 ←
      write_field 8 table (h.names_idx * h.header_size + 0x20) (add_u64 names_size (length name))
  table2 ←
      bump_offsets (length name) h.header_size (h.num_sections - (h.names_idx + 1))
        (h.names_idx + 1) table1
  let body2 = body1 ++ new_section_bytes
  new_header ← new_elf_header h.header_size names_size (length body1) (length new_section_bytes)
  let whole = body2 ++ (table2 ++ new_header)
  whole1 ← write_field 8 whole 0x28 (length body2)
  write_field 2 whole1 0x3C (h.num_sections + 1)

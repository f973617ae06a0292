-- ===== src/Exe/Pe.antt =====
-- src/exe_utils.rs: reading and adding a section of a PE file, as a list of bytes. As for ELF, the platform is
-- little-endian.
use rjrssync.Common.{
  ℕ, zero, suc, ◌+◌, ◌-◌, ◌*◌, ◌/◌, ◌%◌, ◌^◌, leb, ltb, nat_beq, panic, length, drop, Bool, List,
  [], ◌∷◌, ◌++◌, Str, codes, str_beq, Outcome, ok, err, ◌>>=◌, if◌then◌else◌, take,
}
use rjrssync.Encrypted.{to_le_bytes}
use rjrssync.Exe.{
  ExeError, section_not_found, read_field, write_field, read_string, split_off, insert_at, zeroes,
  ensure,
}

-- The offsets are of at most 32 bits, so adding to them does not wrap in a `usize`.
unfoldable pub validate_pe_signature : List ℕ → Outcome ExeError ℕ
unfolding read_field
validate_pe_signature bytes = do
  signature_offset ← read_field 4 bytes 0x3c
  signature ← read_field 4 bytes signature_offset
  _ ←
      ensure (str_beq (to_le_bytes 4 signature) (codes "PE" ++ 0 ∷ 0 ∷ []))
        (codes "Invalid PE signature")
  ok (signature_offset + 4)

-- The contents of the section whose header is at the offset.
abbrev pub pe_contents : List ℕ → ℕ → Outcome ExeError (List ℕ)
pe_contents bytes section_header_offset = do
  size_of_raw_data ← read_field 4 bytes (section_header_offset + 16)
  pointer_to_raw_data ← read_field 4 bytes (section_header_offset + 20)
  (_, x) ← split_off pointer_to_raw_data bytes
  ok (take size_of_raw_data x)

-- The loop over the sections: how many are left, and where the header of the next is.
unfoldable pub find_pe_section : List ℕ → Str → ℕ → ℕ → Outcome ExeError (List ℕ)
unfolding read_field read_string
find_pe_section bytes section_name zero section_header_offset = err section_not_found
find_pe_section bytes section_name (suc n) section_header_offset = do
  let later = find_pe_section bytes section_name n (section_header_offset + 40)
  name ← read_string bytes section_header_offset 8
  if str_beq name section_name then pe_contents bytes section_header_offset else later

unfoldable pub extract_section_from_pe : List ℕ → Str → Outcome ExeError (List ℕ)
unfolding validate_pe_signature find_pe_section
extract_section_from_pe bytes section_name = do
  file_header_offset ← validate_pe_signature bytes
  num_sections ← read_field 2 bytes (file_header_offset + 2)
  size_of_optional_header ← read_field 2 bytes (file_header_offset + 16)
  find_pe_section bytes section_name num_sections
      (file_header_offset + 20 + size_of_optional_header)

-- Rounds up, in integers of `w` bits, which wrap at 0; a division by 0 panics.
unfoldable pub align : ℕ → ℕ → ℕ → Outcome {0} ExeError ℕ
align w x multiple =
    if nat_beq multiple 0
    then panic
    else ok (((x + (2 ^ w - 1)) % 2 ^ w / multiple + 1) * multiple % 2 ^ w)

abbrev pub resize : ℕ → List ℕ → List ℕ
resize n bytes = take n bytes ++ zeroes (n - length bytes)

-- `copy_from_slice` into the bytes from the offset on, which panics past the end.
abbrev pub overwrite : ℕ → List ℕ → List ℕ → Outcome ExeError (List ℕ)
overwrite offset new bytes =
    if leb (offset + length new) (length bytes)
    then ok (take offset bytes ++ (new ++ drop (offset + length new) bytes))
    else panic

-- Each pointer to the data of a section moves by the file alignment.
unfoldable pub bump_pointers : ℕ → ℕ → ℕ → List ℕ → Outcome ExeError (List ℕ)
unfolding read_field write_field
bump_pointers file_alignment zero section_header_offset bytes = ok bytes
bump_pointers file_alignment (suc n) section_header_offset bytes = do
  orig_pointer ← read_field 4 bytes (section_header_offset + 20)
  bytes' ← write_field 4 bytes (section_header_offset + 20) (orig_pointer + file_alignment)
  bump_pointers file_alignment n (section_header_offset + 40) bytes'

-- Space for one more header behind the headers.
unfoldable pub make_room : ℕ → ℕ → ℕ → List ℕ → Outcome ExeError (List ℕ)
unfolding align bump_pointers
make_room file_alignment section_headers_offset num_sections bytes = do
  let end_of_headers = section_headers_offset + num_sections * 40
  aligned ← align 64 end_of_headers file_alignment
  if ltb (aligned - end_of_headers) 40
      then insert_at end_of_headers (zeroes file_alignment) bytes
        >>= bump_pointers file_alignment num_sections section_headers_offset
      else ok bytes

-- The new header: its name, virtual size, virtual address, size of the data and characteristics.
unfoldable pub new_pe_header : Str → ℕ → ℕ → Outcome ExeError (List ℕ)
unfolding write_field
new_pe_header name virtual_address size_of_raw_data = do
  h1 ← write_field 4 (name ++ zeroes (40 - length name)) 8 1
  h2 ← write_field 4 h1 12 virtual_address
  h3 ← write_field 4 h2 16 size_of_raw_data
  write_field 4 h3 36 0x40

-- The virtual address behind the last section; with no section, the offsets wrap.
unfoldable pub next_virtual_address : ℕ → ℕ → ℕ → List ℕ → Outcome ExeError ℕ
unfolding read_field align
next_virtual_address section_alignment section_headers_offset num_sections bytes = do
  let last = section_headers_offset + (num_sections + (2 ^ 64 - 1)) * 40
  address ← read_field 4 bytes ((last + 12) % 2 ^ 64)
  size ← read_field 4 bytes ((last + 8) % 2 ^ 64)
  align 32 ((address + size) % 2 ^ 32) section_alignment

-- The bytes of the section and its header are put in, and the header is pointed to the bytes.
unfoldable pub append_section : ℕ → ℕ → ℕ → List ℕ → List ℕ → List ℕ → Outcome ExeError (List ℕ)
unfolding write_field align
append_section file_alignment header_offset size_of_raw_data header new_section_bytes bytes = do
  bytes1 ← overwrite header_offset header bytes
  section_offset ← align 64 (length bytes1) file_alignment
  let whole = resize section_offset bytes1 ++ resize size_of_raw_data new_section_bytes
  write_field 4 whole (header_offset + 20) section_offset

abbrev pub assert : Bool → Outcome {0} ExeError Unit
assert b = if b then ok tt else panic

unfoldable pub add_section_to_pe : List ℕ → Str → List ℕ → Outcome ExeError (List ℕ)
unfolding validate_pe_signature read_field write_field align make_room new_pe_header
    next_virtual_address append_section
add_section_to_pe bytes new_section_name new_section_bytes = do
  file_header_offset ← validate_pe_signature bytes
  num_sections ← read_field 2 bytes (file_header_offset + 2)
  bytes1 ← write_field 2 bytes (file_header_offset + 2) (num_sections + 1)
  size_of_optional_header ← read_field 2 bytes1 (file_header_offset + 16)
  let optional_header_offset = file_header_offset + 20
  section_alignment ← read_field 4 bytes1 (optional_header_offset + 32)
  file_alignment ← read_field 4 bytes1 (optional_header_offset + 36)
  let section_headers_offset = optional_header_offset + size_of_optional_header
  let end_of_headers = section_headers_offset + num_sections * 40
  bytes2 ← make_room file_alignment section_headers_offset num_sections bytes1
  _ ← assert (leb (length new_section_name) 8)
  virtual_address ←
      next_virtual_address section_alignment section_headers_offset num_sections bytes2
  size_of_raw_data ← align 32 (length new_section_bytes % 2 ^ 32) file_alignment
  header ← new_pe_header new_section_name virtual_address size_of_raw_data
  bytes3 ←
      append_section file_alignment end_of_headers size_of_raw_data header new_section_bytes bytes2
  size_of_image ← align 32 ((virtual_address + 1) % 2 ^ 32) section_alignment
  bytes4 ← write_field 4 bytes3 (optional_header_offset + 56) size_of_image
  size_of_headers ← align 64 (end_of_headers + 40) file_alignment
  write_field 4 bytes4 (optional_header_offset + 60) size_of_headers

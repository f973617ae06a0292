-- ===== src/Tests/Exes.antt =====
-- A small ELF file of one section, the one with the names, to which a section is added.
use rjrssync.Common.{
  ℕ, List, [], ◌∷◌, ◌++◌, codes, ◌>>=◌, length, take, drop, ok, err, ◌≡◌, refl, arith,
}
use rjrssync.Encrypted.{to_le_bytes}
use rjrssync.Exe.{
  zeroes, read_field, write_field, section_not_found, add_section_to_elf, extract_section_from_elf,
}
use rjrssync.Exe.Pe.{extract_section_from_pe, add_section_to_pe}
use rjrssync.Exe.Fields.{read_field-write_field}

abbrev names : List ℕ
names = 0 ∷ codes "names" ++ 0 ∷ []

-- 64 bytes, then the names, then the table of the headers, each of 64 bytes.
abbrev elf : List ℕ
elf =
    (127 ∷ codes "ELF")
    ++ (2 ∷ 1 ∷ 1 ∷ [])
    ++ zeroes 33
    ++ to_le_bytes 8 71
    ++ zeroes 10
    ++ to_le_bytes 2 64
    ++ to_le_bytes 2 1
    ++ to_le_bytes 2 0
    ++ names
    ++ to_le_bytes 4 1
    ++ zeroes 20
    ++ to_le_bytes 8 64
    ++ to_le_bytes 8 7
    ++ zeroes 24

elf_missing : extract_section_from_elf elf (codes "data") ≡ err section_not_found
unfolding to_le_bytes extract_section_from_elf
elf_missing = refl

elf_extracted :
    (add_section_to_elf elf (codes "data") (10 ∷ 20 ∷ 30 ∷ []) >>= λ bytes.
    extract_section_from_elf bytes (codes "data"))
    ≡ ok (10 ∷ 20 ∷ 30 ∷ [])
unfolding to_le_bytes extract_section_from_elf add_section_to_elf
elf_extracted = refl

read_field-write_field_example :
    (bytes' : List ℕ) × (write_field 2 (1 ∷ 2 ∷ 3 ∷ 4 ∷ 5 ∷ []) 1 258 ≡ ok bytes')
    × (read_field 2 bytes' 1 ≡ ok 258)
    × (length bytes' ≡ 5)
    × (take 1 bytes' ≡ 1 ∷ [])
    × (drop 3 bytes' ≡ 4 ∷ 5 ∷ [])
read_field-write_field_example =
    read_field-write_field 2 1 258 (1 ∷ 2 ∷ 3 ∷ 4 ∷ 5 ∷ []) (omega arith) (omega arith)

-- A PE file whose signature is at 64, without an optional header, and one section of 3 bytes.
abbrev pe : List ℕ
pe =
    zeroes 60
    ++ to_le_bytes 4 64
    ++ codes "PE"
    ++ (0 ∷ 0 ∷ [])
    ++ zeroes 2
    ++ to_le_bytes 2 1
    ++ zeroes 12
    ++ to_le_bytes 2 0
    ++ zeroes 2
    ++ codes "data"
    ++ zeroes 12
    ++ to_le_bytes 4 3
    ++ to_le_bytes 4 128
    ++ zeroes 16
    ++ (10 ∷ 20 ∷ 30 ∷ 40 ∷ [])

pe_extracted : extract_section_from_pe pe (codes "data") ≡ ok (10 ∷ 20 ∷ 30 ∷ [])
unfolding to_le_bytes extract_section_from_pe
pe_extracted = refl

pe_missing : extract_section_from_pe pe (codes "date") ≡ err section_not_found
unfolding to_le_bytes extract_section_from_pe
pe_missing = refl

-- With an optional header of 64 bytes, and alignments of 16: there is no space for a second header.
abbrev pe_with_header : List ℕ
pe_with_header =
    zeroes 60
    ++ to_le_bytes 4 64
    ++ codes "PE"
    ++ (0 ∷ 0 ∷ [])
    ++ zeroes 2
    ++ to_le_bytes 2 1
    ++ zeroes 12
    ++ to_le_bytes 2 64
    ++ zeroes 2
    ++ zeroes 32
    ++ to_le_bytes 4 16
    ++ to_le_bytes 4 64
    ++ zeroes 24
    ++ codes "data"
    ++ zeroes 12
    ++ to_le_bytes 4 3
    ++ to_le_bytes 4 192
    ++ zeroes 16
    ++ (10 ∷ 20 ∷ 30 ∷ 40 ∷ [])

pe_added :
    (add_section_to_pe pe_with_header (codes "more") (7 ∷ 8 ∷ []) >>= λ bytes.
    extract_section_from_pe bytes (codes "data"))
    ≡ ok (10 ∷ 20 ∷ 30 ∷ [])
unfolding to_le_bytes extract_section_from_pe add_section_to_pe
pe_added = refl

pe_added_more :
    (add_section_to_pe pe_with_header (codes "more") (7 ∷ 8 ∷ []) >>= λ bytes.
    extract_section_from_pe bytes (codes "more"))
    ≡ ok (7 ∷ 8 ∷ zeroes 62)
unfolding to_le_bytes extract_section_from_pe add_section_to_pe
pe_added_more = refl

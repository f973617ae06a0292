-- ===== src/Exe/Fields.antt =====
-- What is written into a field is read back, and the other bytes stay as they were.
use rjrssync.Common.{
  append_assoc, ℕ, zero, suc, ◌+◌, ◌<◌, ◌≤◌, ◌^◌, true, List, [], ◌∷◌, ◌++◌, ok, length, take, drop,
  leb, ◌≡◌, refl, sym, ap, ◌∙◌, arith, length-append,
}
use rjrssync.Encrypted.{to_le_bytes, from_le_bytes}
use rjrssync.Encrypted.Stream.{from_le_bytes-to_le_bytes, length-to_le_bytes}
use rjrssync.Exe.{read_field, write_field}

module _ {A : Type 0} where
  length-take : (n : ℕ) (xs : List A) → n ≤ length xs → length (take n xs) ≡ n
  length-take zero xs h = refl
  length-take (suc n) [] h = absurd (omega (arith, h))
  length-take (suc n) (x ∷ xs) h = omega (arith, length-take n xs (omega (arith, h)))

  length-drop : (n : ℕ) (xs : List A) → n ≤ length xs → n + length (drop n xs) ≡ length xs
  length-drop zero xs h = omega arith
  length-drop (suc n) [] h = absurd (omega (arith, h))
  length-drop (suc n) (x ∷ xs) h = omega (arith, length-drop n xs (omega (arith, h)))

  drop-append : (n : ℕ) (xs ys : List A) → length xs ≡ n → drop n (xs ++ ys) ≡ ys
  drop-append zero [] ys h = refl
  drop-append zero (x ∷ xs) ys h = absurd (omega (arith, h))
  drop-append (suc n) [] ys h = absurd (omega (arith, h))
  drop-append (suc n) (x ∷ xs) ys h = drop-append n xs ys (omega (arith, h))

  take-append : (n : ℕ) (xs ys : List A) → length xs ≡ n → take n (xs ++ ys) ≡ xs
  take-append zero [] ys h = refl
  take-append zero (x ∷ xs) ys h = absurd (omega (arith, h))
  take-append (suc n) [] ys h = absurd (omega (arith, h))
  take-append (suc n) (x ∷ xs) ys h = ap (λ l. x ∷ l) (take-append n xs ys (omega (arith, h)))

-- Writing a field of `width` bytes that lie inside the bytes, a value that fits in it, succeeds; the
-- value is read back, and the number of bytes, those before the field and those behind it are as they
-- were.
pub read_field-write_field :
    (width offset val : ℕ) (bytes : List ℕ)
    → val < 256 ^ width
    → offset + width ≤ length bytes
    → (bytes' : List ℕ) × (write_field width bytes offset val ≡ ok bytes')
      × (read_field width bytes' offset ≡ ok val)
      × (length bytes' ≡ length bytes)
      × (take offset bytes' ≡ take offset bytes)
      × (drop (offset + width) bytes' ≡ drop (offset + width) bytes)
unfolding read_field write_field
read_field-write_field width offset val bytes small inside =
    let before = take offset bytes in
    let field = to_le_bytes width val in
    let after = drop (offset + width) bytes in
    let bytes' = before ++ (field ++ after) in
    let before_length : length before ≡ offset = length-take offset bytes (omega (arith, inside)) in
    let field_length : length field ≡ width = length-to_le_bytes width val in
    let same_length : length bytes' ≡ length bytes =
      length-append before (field ++ after)
      ∙ ap (λ n. length before + n) (length-append field after)
      ∙ omega (arith, before_length, field_length, length-drop (offset + width) bytes inside) in
    let fits : leb (offset + width) (length bytes) ≡ true = ground (arith, inside) in
    let fits' : leb (offset + width) (length bytes') ≡ true =
      ap (leb (offset + width)) same_length ∙ fits in
    let field_read : take width (drop offset bytes') ≡ field =
      ap (take width) (drop-append offset before (field ++ after) before_length)
      ∙ take-append width field after field_length in
    (
      bytes',
      rw fits refl,
      rw fits' (ap ok (ap from_le_bytes field_read ∙ from_le_bytes-to_le_bytes width val small)),
      same_length,
      take-append offset before (field ++ after) before_length,
      ap (drop (offset + width)) (sym (append_assoc before field after))
          ∙ drop-append (offset + width) (before ++ field) after
              (length-append before field ∙ omega (arith, before_length, field_length)),
    )

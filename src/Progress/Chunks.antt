-- ===== src/Progress/Chunks.antt =====
-- A file that is sent in chunks counts as much as the file sent whole.
use rjrssync.Common.{
  ℕ, ◌+◌, ◌-◌, ◌<◌, ◌⊎◌, inl, inr, List, [], ◌∷◌, add_u32, add_u64, u64_mod, ◌≡◌, arith, ltb, ap,
  ◌∙◌, if◌then◌else◌,
}
use rjrssync.Interface.{file}
use rjrssync.Progress.{
  Progress, ProgressValues, for_copy, for_copy_partial, add_assign, copy_sent, copy_sent_partial,
  min_file_size,
}

-- The chunks of a file of `size` bytes, from `start` on: all but the last, and the last.
unfoldable pub send_chunks : ℕ → ℕ → List ℕ → ℕ → Progress → Progress
send_chunks size start [] last p = copy_sent_partial start last size p
send_chunks size start (c ∷ chunks) last p =
    send_chunks size (start + c) chunks last (copy_sent_partial start c size p)

abbrev pub total : List ℕ → ℕ
total [] = 0
total (c ∷ chunks) = c + total chunks

values_eq :
    {a b : ProgressValues}
    → a.work ≡ b.work
    → a.delete ≡ b.delete
    → a.copy ≡ b.copy
    → a.copy_bytes ≡ b.copy_bytes
    → a ≡ b
values_eq w d c b = λ i. record { work = w i; delete = d i; copy = c i; copy_bytes = b i }

-- What the chunks from `start` on add to what has been sent.
abbrev with_rest : ℕ → ℕ → ProgressValues → ProgressValues
with_rest size start sent = record {
  work = add_u64 sent.work (if ltb min_file_size size then size - start else min_file_size);
  delete = add_u32 sent.delete 0;
  copy = add_u32 sent.copy 1;
  copy_bytes = add_u64 sent.copy_bytes (size - start);
}

send_chunks-with_rest :
    (size start : ℕ) (chunks : List ℕ) (last : ℕ) (p : Progress)
    → size < u64_mod
    → start + total chunks + last ≡ size
    → 0 < last
    → send_chunks size start chunks last p ≡ record p { sent = with_rest size start p.sent }
unfolding send_chunks copy_sent_partial for_copy_partial add_assign
send_chunks-with_rest size start [] last p fits sum some_last =
    ap (λ (v : ProgressValues). record p { sent = v })
      (values_eq (ground arith) (ground arith) (ground arith) (ground arith))
send_chunks-with_rest size start (c ∷ chunks) last p fits sum some_last =
    send_chunks-with_rest size (start + c) chunks last _ fits (omega arith) some_last
    ∙ ap (λ (v : ProgressValues). record p { sent = v })
        (values_eq (ground arith) (ground arith) (ground arith) (ground arith))

-- A file that is sent in chunks adds exactly what `for_copy` counted for it, if the chunks add up to
-- its size and the last one is not empty, or is the only one.
pub send_chunks-copy_sent :
    (time size : ℕ) (chunks : List ℕ) (last : ℕ) (p : Progress)
    → size < u64_mod
    → total chunks + last ≡ size
    → (0 < last) ⊎ (chunks ≡ [])
    → send_chunks size 0 chunks last p ≡ copy_sent (file time size) p
unfolding copy_sent for_copy send_chunks copy_sent_partial for_copy_partial add_assign
send_chunks-copy_sent time size chunks last p fits sum (inl some_last) =
    send_chunks-with_rest size 0 chunks last p fits (omega arith) some_last
    ∙ ap (λ (v : ProgressValues). record p { sent = v })
        (values_eq (ground arith) (ground arith) (ground arith) (ground arith))
send_chunks-copy_sent time size chunks last p fits sum (inr alone) =
    rw alone (single (rw alone at sum))
  where
    single : 0 + last ≡ size → send_chunks size 0 [] last p ≡ copy_sent (file time size) p
    single e =
        ap (λ (v : ProgressValues). record p { sent = v })
          (values_eq (ground arith) (ground arith) (ground arith) (ground arith))

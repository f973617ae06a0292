-- ===== src/Tests/Streams.antt =====
-- Two messages over the encrypted connection.
use rjrssync.Common.{ℕ, Option, none, some, List, [], ◌∷◌, ◌++◌, ok, ◌≡◌, refl}
use rjrssync.Encrypted.{Crypto, to_le_bytes, send}
use rjrssync.Encrypted.Stream.{IsSound, send_all, receive_all, receive_all-send_all}

abbrev read_one : List ℕ → Option ℕ
read_one (b ∷ []) = some b
read_one _ = none

-- A cipher that changes nothing.
abbrev plain : Crypto ℕ
plain = record {
  serialize = λ x. x ∷ [];
  deserialize = read_one;
  encrypt = λ n bytes. bytes;
  decrypt = λ n bytes. some bytes;
}

plain-IsSound : IsSound plain
plain-IsSound = record { decrypts = λ n bytes. refl; reads = λ x. refl }

abbrev wire : List ℕ
wire = 1 ∷ 0 ∷ 0 ∷ 0 ∷ 0 ∷ 0 ∷ 0 ∷ 0 ∷ 7 ∷ 1 ∷ 0 ∷ 0 ∷ 0 ∷ 0 ∷ 0 ∷ 0 ∷ 0 ∷ 9 ∷ []

-- The nonce counter of the doer is odd, and does not move.
sent_run : send_all plain 1 (7 ∷ 9 ∷ []) 1 [] ≡ ok (1, wire)
unfolding send_all send to_le_bytes
sent_run = refl

receive_all-send_all_example :
    (frames : List ℕ) × (wire ≡ [] ++ frames)
    × ◌≡◌ {A = ℕ} 1 1
    × ((rest : List ℕ) → receive_all plain 1 2 1 (frames ++ rest) ≡ ok (7 ∷ 9 ∷ [], (1, rest)))
receive_all-send_all_example =
    receive_all-send_all plain 1 plain-IsSound (7 ∷ 9 ∷ []) 1 1 [] wire sent_run

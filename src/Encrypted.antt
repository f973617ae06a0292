-- ===== src/Encrypted.antt =====
-- src/encrypted_comms.rs, `send` and `receive`: one direction of the connection. The bytes on their
-- way are a list; flushing is left out.
pub mod Stream
use rjrssync.Common.{
  ℕ, zero, suc, ◌+◌, ◌*◌, ◌-◌, ◌/◌, ◌%◌, Bool, true, false, not, Option, none, some, List, [], ◌∷◌,
  ◌++◌, Outcome, ok, err, panic, ◌>>=◌, if◌then◌else◌, length, ltb, nat_beq, u64_mod,
}

-- The crates: `bincode` for the messages, and `aes_gcm`, whose nonce is the counter in 12 bytes.
pub record Crypto (M : Type 0) : Type 0 where
  pub serialize : M → List ℕ
  pub deserialize : List ℕ → Option M
  pub encrypt : ℕ → List ℕ → List ℕ
  pub decrypt : ℕ → List ℕ → Option (List ℕ)

pub data StreamError : Type 0 where
  serializing reading decrypting deserializing : StreamError

-- `vec![0u8; 8192 * 1024]`
abbrev pub buffer_len : ℕ
buffer_len = 8192 * 1024

-- The bytes of a number, the lowest first, and the number of such bytes.
unfoldable pub to_le_bytes : ℕ → ℕ → List ℕ
to_le_bytes zero n = []
to_le_bytes (suc w) n = n % 256 ∷ to_le_bytes w (n / 256)

unfoldable pub from_le_bytes : List ℕ → ℕ
from_le_bytes [] = 0
from_le_bytes (b ∷ bs) = b + 256 * from_le_bytes bs

-- `TcpStream::read_exact`
unfoldable pub read_exact : ℕ → List ℕ → Outcome StreamError (List ℕ × List ℕ)
read_exact zero wire = ok ([], wire)
read_exact (suc n) [] = err reading
read_exact (suc n) (b ∷ wire) = do (bytes, rest) ← read_exact n wire; ok (b ∷ bytes, rest)

-- The nonce of a message: the counter, if it has the parity of the direction. The sum of
-- `checked_add(2).unwrap()` is not stored: the counter stays as it is.
abbrev nonce : ℕ → ℕ → Outcome StreamError ℕ
nonce counter nonce_lsb =
    if not (nat_beq (counter % 2) nonce_lsb)
    then panic
    else if ltb (counter + 2) u64_mod
    then ok counter
    else panic

module _ {M : Type 0} (c : Crypto M) where
  unfoldable pub send : M → ℕ → ℕ → List ℕ → Outcome StreamError (ℕ × List ℕ)
  send x counter nonce_lsb wire =
      if ltb (buffer_len - 8) (length (c.serialize x)) then err serializing else (do
        n ← nonce counter nonce_lsb
        let encrypted = c.encrypt n (c.serialize x)
        if ltb (buffer_len - 8) (length encrypted)
            then panic
            else ok (counter, wire ++ (to_le_bytes 8 (length encrypted) ++ encrypted)))

  abbrev pub decode : List ℕ → Outcome StreamError M
  decode bytes = elim (c.deserialize bytes) [ none ↦ err deserializing | some x ↦ ok x ]

  abbrev pub decrypted : ℕ → List ℕ → Outcome StreamError (List ℕ)
  decrypted n bytes = elim (c.decrypt n bytes) [ none ↦ err decrypting | some plain ↦ ok plain ]

  -- The bytes behind the length.
  unfoldable pub receive_body : ℕ → ℕ → ℕ → List ℕ → Outcome StreamError (M × (ℕ × List ℕ))
  receive_body encrypted_len counter nonce_lsb wire =
      if ltb buffer_len encrypted_len then panic else (do
        (encrypted, rest) ← read_exact encrypted_len wire
        n ← nonce counter nonce_lsb
        plain ← decrypted n encrypted
        x ← decode plain
        ok (x, (counter, rest)))

  unfoldable pub receive : ℕ → ℕ → List ℕ → Outcome StreamError (M × (ℕ × List ℕ))
  unfolding receive_body
  receive counter nonce_lsb wire = do
    (len_buf, rest) ← read_exact 8 wire
    receive_body (from_le_bytes len_buf) counter nonce_lsb rest

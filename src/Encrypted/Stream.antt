-- ===== src/Encrypted/Stream.antt =====
-- A direction of the connection as a whole: a sequence of messages.
use rjrssync.Common.{
  ℕ, zero, suc, ◌+◌, ◌-◌, ◌/◌, ◌%◌, ◌^◌, ◌<◌, ◌≤◌, true, false, some, List, [], ◌∷◌, ◌++◌,
  append_assoc, append-nil, Outcome, ok, ◌>>=◌, >>=-eq-ok, length, ltb, nat_beq, u64_mod, ◌≡◌, refl,
  ap, ◌∙◌, arith,
}
use rjrssync.Encrypted.{
  Crypto, StreamError, buffer_len, to_le_bytes, from_le_bytes, read_exact, send, receive,
  receive_body,
}

-- What the program relies on: decryption under the same nonce undoes encryption, and reading a
-- message undoes its serialization.
pub record IsSound {M : Type 0} (c : Crypto M) : Type 0 where
  pub decrypts : (n : ℕ) (bytes : List ℕ) → c.decrypt n (c.encrypt n bytes) ≡ some bytes
  pub reads : (x : M) → c.deserialize (c.serialize x) ≡ some x

pub from_le_bytes-to_le_bytes : (w n : ℕ) → n < 256 ^ w → from_le_bytes (to_le_bytes w n) ≡ n
unfolding from_le_bytes to_le_bytes
from_le_bytes-to_le_bytes zero n h = omega arith
from_le_bytes-to_le_bytes (suc w) n h =
    omega (arith, from_le_bytes-to_le_bytes w (n / 256) (omega (arith, h)))

pub length-to_le_bytes : (w n : ℕ) → length (to_le_bytes w n) ≡ w
unfolding to_le_bytes
length-to_le_bytes zero n = refl
length-to_le_bytes (suc w) n = ap suc (length-to_le_bytes w (n / 256))

read_exact-append :
    (bytes rest : List ℕ) (n : ℕ)
    → length bytes ≡ n
    → read_exact n (bytes ++ rest) ≡ ok (bytes, rest)
unfolding read_exact
read_exact-append [] rest zero h = refl
read_exact-append [] rest (suc n) h = absurd (omega (arith, h))
read_exact-append (b ∷ bytes) rest zero h = absurd (omega (arith, h))
read_exact-append (b ∷ bytes) rest (suc n) h =
    rw (read_exact-append bytes rest n (omega (arith, h)), ◌>>=◌) refl

module _ {M : Type 0} (c : Crypto M) (nonce_lsb : ℕ) where
  -- The loop of the sending thread.
  unfoldable pub send_all : List M → ℕ → List ℕ → Outcome StreamError (ℕ × List ℕ)
  send_all [] counter wire = ok (counter, wire)
  send_all (x ∷ xs) counter wire = do
    (counter', wire') ← send c x counter nonce_lsb wire
    send_all xs counter' wire'

  -- As many rounds of the receiving thread.
  unfoldable pub receive_all : ℕ → ℕ → List ℕ → Outcome StreamError (List M × (ℕ × List ℕ))
  receive_all zero counter wire = ok ([], (counter, wire))
  receive_all (suc n) counter wire = do
    (x, (counter', wire')) ← receive c counter nonce_lsb wire
    (xs, after) ← receive_all n counter' wire'
    ok (x ∷ xs, after)

  module _ (sound : IsSound c) where
    sent :
        (x : M) (counter counter' : ℕ) (wire wire' : List ℕ)
        → send c x counter nonce_lsb wire ≡ ok (counter', wire')
        → let encrypted = c.encrypt counter (c.serialize x) in
          (nat_beq (counter % 2) nonce_lsb ≡ true)
          × (ltb (counter + 2) u64_mod ≡ true)
          × (length encrypted ≤ buffer_len - 8)
          × (counter' ≡ counter)
          × (wire' ≡ wire ++ (to_le_bytes 8 (length encrypted) ++ encrypted))
    unfolding send
    sent x counter counter' wire wire' h = ground arith

    receive_body-sent :
        (x : M) (counter : ℕ) (rest : List ℕ)
        → let encrypted = c.encrypt counter (c.serialize x) in
          nat_beq (counter % 2) nonce_lsb ≡ true
          → ltb (counter + 2) u64_mod ≡ true
          → length encrypted ≤ buffer_len - 8
          → receive_body c (length encrypted) counter nonce_lsb (encrypted ++ rest)
            ≡ ok (x, (counter, rest))
    unfolding receive_body
    receive_body-sent x counter rest parity fits short = rw (not_longer _ short) (
        rw (read_exact-append (c.encrypt counter (c.serialize x)) rest _ refl, ◌>>=◌)
          (rw (parity, fits, ◌>>=◌)
            (rw (sound.decrypts counter (c.serialize x), ◌>>=◌) (rw (sound.reads x, ◌>>=◌) refl))))
      where
        not_longer : (n : ℕ) → n ≤ buffer_len - 8 → ltb buffer_len n ≡ false
        not_longer n h = ground arith

    receive-send :
        (x : M) (counter counter' : ℕ) (wire wire' : List ℕ)
        → send c x counter nonce_lsb wire ≡ ok (counter', wire')
        → (frame : List ℕ) × (wire' ≡ wire ++ frame)
          × (counter' ≡ counter)
          × ((rest : List ℕ)
              → receive c counter nonce_lsb (frame ++ rest) ≡ ok (x, (counter, rest)))
    unfolding receive
    receive-send x counter counter' wire wire' h =
        let (parity, fits, short, same, appended) = sent x counter counter' wire wire' h in
        let encrypted : List ℕ = c.encrypt counter (c.serialize x) in
        let len_buf : List ℕ = to_le_bytes 8 (length encrypted) in
        (
          len_buf ++ encrypted,
          appended,
          same,
          λ rest. rw (append_assoc len_buf encrypted rest) (
              rw (read_exact-append len_buf (encrypted ++ rest) 8 (length-to_le_bytes 8 _), ◌>>=◌)
                (rw (from_le_bytes-to_le_bytes 8 (length encrypted) (omega (arith, short)))
                  (receive_body-sent x counter rest parity fits short))),
        )

    -- With a cipher and a serialization that can be undone: what the sending thread put on the wire,
    -- the receiving thread of the other side reads as the same messages in the same order, up to the
    -- bytes behind them; and both nonce counters are where they were before the first message.
    pub receive_all-send_all :
        (xs : List M) (counter counter' : ℕ) (wire wire' : List ℕ)
        → send_all xs counter wire ≡ ok (counter', wire')
        → (frames : List ℕ) × (wire' ≡ wire ++ frames)
          × (counter' ≡ counter)
          × ((rest : List ℕ)
              → receive_all (length xs) counter (frames ++ rest) ≡ ok (xs, (counter, rest)))
    unfolding send_all receive_all
    receive_all-send_all [] counter counter' wire wire' h =
        ([], rw append-nil (ground arith), ground arith, λ rest. refl)
    receive_all-send_all (x ∷ xs) counter counter' wire wire' h =
        let ((counter1, wire1), sent_one, more) = >>=-eq-ok (send c x counter nonce_lsb wire) _ h in
        let (frame, appended, same, received) =
          receive-send x counter counter1 wire wire1 sent_one in
        let (frames, appended_more, same_more, received_more) =
          receive_all-send_all xs counter counter' wire1 wire' (rw same at more) in
        (
          frame ++ frames,
          appended_more ∙ ap (λ w. w ++ frames) appended ∙ append_assoc wire frame frames,
          same_more,
          λ rest.
              rw (append_assoc frame frames rest)
                (rw (received (frames ++ rest), ◌>>=◌) (rw (received_more rest, ◌>>=◌) refl)),
        )

-- ===== src/Doer/Chunks.antt =====
-- A file is sent in chunks that make it up.
use rjrssync.Common.{
  ℕ, zero, suc, ◌+◌, ◌*◌, ◌<◌, ◌≤◌, min, true, false, List, [], ◌∷◌, ◌++◌, append_assoc, append-nil,
  length, length-append, Str, ok, if◌then◌else◌, ltb, All, ◌⊎◌, inl, inr, ◌≡◌, refl, sym, ap, ◌∙◌,
  arith,
}
use rjrssync.Doer.{done, Platform, Doer, send_response, with_os}
use rjrssync.Doer.Files.{
  read_chunks, send_previous, handle_get_file_contents, max_chunk, first_chunk,
}
use rjrssync.Interface.{Response, file_content}

abbrev pub concat : List (List ℕ) → List ℕ
concat [] = []
concat (b ∷ bs) = b ++ concat bs

-- The responses for chunks with more to follow, and for the last one.
abbrev pub contents : List (List ℕ) → List ℕ → List Response
contents [] last = file_content last false ∷ []
contents (b ∷ bs) last = file_content b true ∷ contents bs last

-- What was sent between two states: chunks that make up the bytes, none empty but that of an empty
-- file, none longer than the limit.
pub record Chunked {S H : Type 0} (bytes : List ℕ) (d d' : Doer S H) : Type 0 where
  pub pieces : List (List ℕ)
  pub last : List ℕ
  pub sent : d'.outbox ≡ d.outbox ++ contents pieces last
  pub whole : concat pieces ++ last ≡ bytes
  pub sizes : All (λ b. (0 < length b) × (length b ≤ max_chunk)) pieces
  pub last_size : length last ≤ max_chunk
  pub last_full : (0 < length last) ⊎ (bytes ≡ [])
  pub same_context : d'.context ≡ d.context
  pub still_connected : d'.connected ≡ true

-- What `Read::read` promises of a file: each call gives the next bytes of those that are left, at
-- most as many as asked for, and none only at the end of the file.
pub record ReadsFile {S H : Type 0} (p : Platform S H) (Left : H → List ℕ → S → Type 0)
    : Type 0 where
  pub read_next :
      (f : H) (bytes : List ℕ) (n : ℕ) (s : S)
      → Left f bytes s
      → 0 < n
      → (s' : S) × (got : List ℕ) × (rest : List ℕ) × (p.read f n s ≡ (s', done got))
        × (bytes ≡ got ++ rest)
        × (length got ≤ n)
        × (got ≡ [] → bytes ≡ [])
        × Left f rest s'

module _ {S H : Type 0} where
  no_piece :
      (prev bytes : List ℕ) (d d' : Doer S H)
      → d'.outbox ≡ d.outbox ++ file_content prev false ∷ []
      → d'.context ≡ d.context
      → d'.connected ≡ true
      → length prev ≤ max_chunk
      → bytes ≡ []
      → Chunked (prev ++ bytes) d d'
  no_piece prev bytes d d' sent context connected fits over = record {
    pieces = [];
    last = prev;
    sent = sent;
    whole = rw over (sym (append-nil prev));
    sizes = tt;
    last_size = fits;
    last_full = full prev over;
    same_context = context;
    still_connected = connected;
  }
    where
      full : (prev : List ℕ) → bytes ≡ [] → (0 < length prev) ⊎ (prev ++ bytes ≡ [])
      full [] over = inr over
      full (b ∷ bs) over = inl (omega arith)

  Chunked-same :
      {bytes bytes' : List ℕ} {d d' : Doer S H}
      → bytes ≡ bytes'
      → Chunked bytes d d'
      → Chunked bytes' d d'
  Chunked-same e c = rw e at c

  -- The files do not matter.
  Chunked-from :
      {bytes : List ℕ} {d d' : Doer S H} (s : S)
      → Chunked bytes (with_os s d) d'
      → Chunked bytes d d'
  Chunked-from s c = record {
    pieces = c.pieces;
    last = c.last;
    sent = c.sent;
    whole = c.whole;
    sizes = c.sizes;
    last_size = c.last_size;
    last_full = c.last_full;
    same_context = c.same_context;
    still_connected = c.still_connected;
  }

  -- The chunk that was read before goes first.
  after_previous :
      (prev bytes : List ℕ) (d d1 d2 : Doer S H)
      → length prev ≤ max_chunk
      → send_previous prev d ≡ (d1, ok tt)
      → d.connected ≡ true
      → Chunked bytes d1 d2
      → (0 < length bytes)
      → Chunked (prev ++ bytes) d d2
  unfolding send_previous send_response
  after_previous [] bytes d d1 d2 fits sent connected c some_left =
      let same : d1 ≡ d = ground arith in rw same at c
  after_previous (b ∷ bs) bytes d d1 d2 fits sent connected c some_left =
      let out : d1.outbox ≡ d.outbox ++ file_content (b ∷ bs) true ∷ [] = ground arith in
      let context : d1.context ≡ d.context = ground arith in
      record {
        pieces = (b ∷ bs) ∷ c.pieces;
        last = c.last;
        sent =
            c.sent
            ∙ rw out (
                append_assoc d.outbox (file_content (b ∷ bs) true ∷ []) (contents c.pieces c.last));
        whole = append_assoc (b ∷ bs) (concat c.pieces) c.last ∙ ap (λ l. (b ∷ bs) ++ l) c.whole;
        sizes = ((omega arith, fits), c.sizes);
        last_size = c.last_size;
        last_full = inl (elim c.last_full [
          | inl full ↦ full
          | inr nothing ↦ absurd (omega (arith, ap length nothing))
        ]);
        same_context = c.same_context ∙ context;
        still_connected = c.still_connected;
      }

  previous_sent :
      (prev : List ℕ) (d : Doer S H)
      → d.connected ≡ true
      → (d1 : Doer S H) × (send_previous prev d ≡ (d1, ok tt))
        × (d1.connected ≡ true)
        × (d1.os ≡ d.os)
  unfolding send_previous send_response
  previous_sent [] d connected = (d, refl, connected, refl)
  previous_sent (b ∷ bs) d connected = (
    record d { outbox = d.outbox ++ file_content (b ∷ bs) true ∷ [] },
    rw connected refl,
    connected,
    refl,
  )

module _ {S H : Type 0} (p : Platform S H) (Left : H → List ℕ → S → Type 0)
    (laws : ReadsFile p Left) where
  -- The loop with that many rounds sends any file that is short enough.
  abbrev Sends : ℕ → Type 0
  Sends rounds =
      (path : Str) (f : H) (chunk_size : ℕ) (prev : List ℕ) (next_len : ℕ) (bytes : List ℕ)
      (d : Doer S H)
      → Left f bytes d.os
      → d.connected ≡ true
      → length bytes < rounds
      → (0 < chunk_size) × (chunk_size ≤ max_chunk)
      → (0 < next_len) × (next_len ≤ max_chunk)
      → length prev ≤ max_chunk
      → (d' : Doer S H) × (read_chunks p rounds path f chunk_size prev next_len d ≡ (d', ok tt))
        × Chunked (prev ++ bytes) d d'

  read_round :
      (rounds : ℕ)
      → Sends rounds
      → (path : Str) (f : H) (chunk_size : ℕ) (prev : List ℕ) (next_len : ℕ) (bytes : List ℕ)
        (d : Doer S H)
      → d.connected ≡ true
      → length bytes < suc rounds
      → (0 < chunk_size) × (chunk_size ≤ max_chunk)
      → next_len ≤ max_chunk
      → length prev ≤ max_chunk
      → (s' : S) × (got : List ℕ) × (rest : List ℕ) × (p.read f next_len d.os ≡ (s', done got))
        × (bytes ≡ got ++ rest)
        × (length got ≤ next_len)
        × (got ≡ [] → bytes ≡ [])
        × Left f rest s'
      → (d' : Doer S H) × (read_chunks p (suc rounds) path f chunk_size prev next_len d
          ≡ (d', ok tt))
        × Chunked (prev ++ bytes) d d'
  unfolding read_chunks send_response
  read_round rounds sends path f chunk_size prev next_len bytes d connected enough c n_max fits
        (s', [], rest, read, split, short, over, left) =
      let d' : Doer S H = record d { os = s'; outbox = d.outbox ++ file_content prev false ∷ [] } in
      (d', rw (read, connected) refl, no_piece prev bytes d d' refl refl connected fits (over refl))
  read_round rounds sends path f chunk_size prev next_len bytes d connected enough (c_pos, c_max)
        n_max fits (s', b ∷ bs, rest, read, split, short, over, left) =
      let (d1, sent, connected1, same_os) = previous_sent prev (with_os s' d) connected in
      let small = ltb (length (b ∷ bs)) next_len in
      let bigger = min (chunk_size * 2) max_chunk in
      let lengths : length bytes ≡ suc (length bs) + length rest =
        ap length split ∙ length-append (b ∷ bs) rest in
      let (d', ran, chunked) =
        sends path f (if small then chunk_size else bigger) (b ∷ bs) (if small then 32 else bigger)
          rest d1 (rw same_os left) connected1 (omega (arith, lengths, enough))
          (ground (arith, c_pos, c_max)) (ground (arith, c_pos, c_max))
          (omega (arith, short, n_max)) in
      (
        d',
        rw (read, sent) ran,
        Chunked-from s' (
            after_previous prev bytes (with_os s' d) d1 d' fits sent connected
              (Chunked-same (sym split) chunked) (omega (arith, lengths))),
      )

  read_chunks-Chunked : (rounds : ℕ) → Sends rounds
  read_chunks-Chunked zero path f chunk_size prev next_len bytes d left connected enough c n fits =
      absurd (omega (arith, enough))
  read_chunks-Chunked (suc rounds) path f chunk_size prev next_len bytes d left connected enough c
        (n_pos, n_max) fits =
      read_round rounds (read_chunks-Chunked rounds) path f chunk_size prev next_len bytes d
        connected enough c n_max fits (laws.read_next f bytes next_len d.os left n_pos)

  -- A connected doer that is asked for a file which can be opened and read sends it, in no more rounds
  -- than one for each byte and one for the end: the chunks make up the file, each of them is at most
  -- 4 MiB long and none is empty unless the file is, and exactly the last says that nothing follows.
  pub handle_get_file_contents-Chunked :
      (rounds : ℕ) (path : Str) (f : H) (s : S) (bytes : List ℕ) (d : Doer S H)
      → p.open_file path d.os ≡ (s, done f)
      → Left f bytes s
      → d.connected ≡ true
      → length bytes < rounds
      → (d' : Doer S H) × (handle_get_file_contents p rounds path d ≡ (d', ok tt))
        × Chunked bytes d d'
  unfolding handle_get_file_contents
  handle_get_file_contents-Chunked rounds path f s bytes d opened left connected enough =
      let (d', ran, chunked) =
        read_chunks-Chunked rounds path f first_chunk [] first_chunk bytes (with_os s d) left
          connected enough (omega arith, omega arith) (omega arith, omega arith) (omega arith) in
      (d', rw (opened) ran, Chunked-from s chunked)

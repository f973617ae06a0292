-- ===== src/Doer/Transfer.antt =====
-- A file from one doer to another.
use rjrssync.Common.{ℕ, ◌<◌, true, none, List, [], ◌++◌, length, Str, ok, ◌≡◌}
use rjrssync.Doer.{done, Platform, Doer, get_full_path}
use rjrssync.Doer.Chunks.{contents, ReadsFile, handle_get_file_contents-Chunked}
use rjrssync.Doer.Exec.{message_loop}
use rjrssync.Doer.Files.{handle_get_file_contents}
use rjrssync.Doer.Receives.{received, holding, WritesFile, message_loop-Arrived}
use rjrssync.Path.{RootRelativePath}

module _ {S H : Type 0} (p : Platform S H) (Left : H → List ℕ → S → Type 0)
    (reads : ReadsFile p Left) {S' H' : Type 0} (q : Platform S' H')
    (Open : H' → Str → List ℕ → S' → Type 0) (Stored : Str → List ℕ → ℕ → S' → Type 0)
    (writes : WritesFile q Open Stored) (rounds : ℕ) where
  -- A file that the source doer can open and read, and the destination doer can create and write,
  -- arrives as it was: the source answers with chunks, and once the destination has carried out the
  -- commands with the same chunks, the file there has the same bytes, and the time that came with the
  -- last chunk, with no error reported.
  pub handle_get_file_contents-Arrived :
      (from : Str) (f : H) (s : S) (bytes : List ℕ) (src : Doer S H) (path : RootRelativePath)
      (root : Str) (g : H') (s1 s2 : S') (t : ℕ) (dest : Doer S' H')
      → p.open_file from src.os ≡ (s, done f)
      → Left f bytes s
      → src.connected ≡ true
      → length bytes < rounds
      → q.create_file (get_full_path q path root) s1 ≡ (s2, done g)
      → Open g (get_full_path q path root) [] s2
      → (pieces : List (List ℕ)) × (last : List ℕ) × (src' : Doer S H) × (dest' : Doer S' H')
        × (handle_get_file_contents p rounds from src ≡ (src', ok tt))
        × (src'.outbox ≡ src.outbox ++ contents pieces last)
        × (message_loop q rounds (received path pieces last t) true (holding root none s1 dest)
            ≡ ok dest')
        × Stored (get_full_path q path root) bytes t dest'.os
        × (dest'.outbox ≡ dest.outbox)
  handle_get_file_contents-Arrived from f s bytes src path root g s1 s2 t dest opened left connected
        enough created fresh =
      let (src', sent, chunked) =
        handle_get_file_contents-Chunked p Left reads rounds from f s bytes src opened left
          connected enough in
      let (dest', ran, (stored, quiet, context)) =
        message_loop-Arrived q Open Stored writes rounds path root chunked.pieces chunked.last t g
          s1 s2 dest created fresh in
      (
        chunked.pieces,
        chunked.last,
        src',
        dest',
        sent,
        chunked.sent,
        ran,
        stored_as chunked.whole dest'.os stored,
        quiet,
      )
    where
      stored_as :
          {bytes bytes' : List ℕ}
          → bytes ≡ bytes'
          → (s : S') → Stored (get_full_path q path root) bytes t s
          → Stored (get_full_path q path root) bytes' t s
      stored_as e s h = rw e at h

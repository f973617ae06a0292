-- ===== src/Tests/Doers.antt =====
-- A doer with one file to read and one to write.
use rjrssync.Common.{
  ℕ, zero, suc, ◌<◌, ◌≤◌, true, false, none, some, List, [], ◌∷◌, ◌++◌, length, Str, codes, ok, ◌≡◌,
  refl, sym, ap, arith,
}
use rjrssync.Doer.{IoResult, done, failed, Platform, Doer, not_found, get_full_path}
use rjrssync.Doer.Chunks.{contents, Chunked, ReadsFile, handle_get_file_contents-Chunked}
use rjrssync.Doer.Exec.{message_loop}
use rjrssync.Doer.Files.{handle_get_file_contents}
use rjrssync.Doer.Receives.{received, holding, WritesFile}
use rjrssync.Doer.Transfer.{handle_get_file_contents-Arrived}
use rjrssync.Interface
use rjrssync.Interface.{Command}
use rjrssync.Tests.Queries.{path}

-- The bytes of the open file that are left to read; and what was written, with its time.
record Disk : Type 0 where
  pub left : List ℕ
  pub written : List ℕ
  pub time : ℕ

abbrev front : ℕ → List ℕ → List ℕ
front zero bytes = []
front (suc n) [] = []
front (suc n) (b ∷ bytes) = b ∷ front n bytes

abbrev behind : ℕ → List ℕ → List ℕ
behind zero bytes = bytes
behind (suc n) [] = []
behind (suc n) (b ∷ bytes) = behind n bytes

front-behind : (n : ℕ) (bytes : List ℕ) → bytes ≡ front n bytes ++ behind n bytes
front-behind zero bytes = refl
front-behind (suc n) [] = refl
front-behind (suc n) (b ∷ bytes) = ap (λ l. b ∷ l) (front-behind n bytes)

length-front : (n : ℕ) (bytes : List ℕ) → length (front n bytes) ≤ n
length-front zero bytes = omega arith
length-front (suc n) [] = omega arith
length-front (suc n) (b ∷ bytes) = omega (arith, length-front n bytes)

front_nothing : (n : ℕ) (bytes : List ℕ) → 0 < n → front n bytes ≡ [] → bytes ≡ []
front_nothing zero bytes pos h = absurd (omega (arith, pos))
front_nothing (suc n) [] pos h = refl
front_nothing (suc n) (b ∷ bytes) pos h = cc

abbrev refused : Disk → Disk × IoResult Unit
refused s = (s, failed (codes "refused"))

abbrev contents_of_file : List ℕ
contents_of_file = 1 ∷ 2 ∷ 3 ∷ []

abbrev platform : Platform Disk ℕ
platform = record {
  windows = false;
  main_separator = b'/';
  join = λ root inner. root ++ inner;
  parent = λ p. none;
  symlink_metadata = λ p s. not_found;
  metadata = λ p s. failed (codes "none");
  read_link = λ p s. failed (codes "none");
  walk = λ p filters s. [];
  create_dir_all = λ p s. refused s;
  create_dir = λ p s. refused s;
  remove_file = λ p s. refused s;
  remove_dir = λ p s. refused s;
  create_link = λ kind target p s. refused s;
  create_file = λ p s. (record s { written = [] }, done 1);
  open_file = λ p s. (record s { left = contents_of_file }, done 0);
  read = λ f n s. (record s { left = behind n s.left }, done (front n s.left));
  write_all = λ f bytes s. (record s { written = s.written ++ bytes }, done tt);
  set_file_mtime = λ p t s. (record s { time = t }, done tt);
  elapsed = λ s. 0;
}

abbrev Left : ℕ → List ℕ → Disk → Type 0
Left f bytes s = s.left ≡ bytes

abbrev Open : ℕ → Str → List ℕ → Disk → Type 0
Open f p bytes s = s.written ≡ bytes

abbrev Stored : Str → List ℕ → ℕ → Disk → Type 0
Stored p bytes t s = (s.written ≡ bytes) × (s.time ≡ t)

reads : ReadsFile platform Left
reads = record {
  read_next = λ f bytes n s left pos. (
    record s { left = behind n s.left },
    front n s.left,
    behind n s.left,
    refl,
    rw (sym left) (front-behind n s.left),
    length-front n s.left,
    (λ h. rw (sym left) (front_nothing n s.left pos h)),
    refl,
  );
}

writes : WritesFile platform Open Stored
writes = record {
  write_next = λ f p bytes more s opened.
      (record s { written = s.written ++ more }, refl, ap (λ l. l ++ more) opened);
  set_time_of = λ f p bytes t s opened. (record s { time = t }, refl, (opened, refl));
}

abbrev disk : Disk
disk = record { left = []; written = 7 ∷ []; time = 0 }

abbrev idle : Doer Disk ℕ
idle = record {
  os = disk;
  context = some (record { root = codes "r/"; in_progress_file_receive = none });
  outbox = [];
  connected = true;
}

handle_get_file_contents-Chunked_example :
    (d' : Doer Disk ℕ) × (handle_get_file_contents platform 9 (codes "f") idle ≡ (d', ok tt))
    × Chunked contents_of_file idle d'
handle_get_file_contents-Chunked_example =
    handle_get_file_contents-Chunked platform Left reads 9 (codes "f") 0
      (record disk { left = contents_of_file }) contents_of_file idle refl refl refl (omega arith)

handle_get_file_contents-Arrived_example :
    (pieces : List (List ℕ)) × (last : List ℕ) × (src' : Doer Disk ℕ) × (dest' : Doer Disk ℕ)
    × (handle_get_file_contents platform 9 (codes "f") idle ≡ (src', ok tt))
    × (src'.outbox ≡ contents pieces last)
    × (message_loop platform 9
          (received (path "a") pieces last 5)
          true
          (holding (codes "r/") none disk idle)
        ≡ ok dest')
    × Stored (get_full_path platform (path "a") (codes "r/")) contents_of_file 5 dest'.os
    × (dest'.outbox ≡ [])
handle_get_file_contents-Arrived_example =
    handle_get_file_contents-Arrived platform Left reads platform Open Stored writes 9 (codes "f") 0
      (record disk { left = contents_of_file }) contents_of_file idle (path "a") (codes "r/") 1 disk
      (record disk { written = [] }) 5 idle refl refl refl (omega arith) refl refl

-- Reading a file, and deleting one, which fails.
abbrev commands : List Command
commands = Interface.get_file_content (path "a") ∷ Interface.delete_file (path "b") ∷ []

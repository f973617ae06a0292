-- ===== src/Doer/Receives.antt =====
-- The chunks of a file are put together again.
use rjrssync.Common.{
  ℕ, Bool, true, false, Option, none, some, List, [], ◌∷◌, ◌++◌, append_assoc, Str, ok, ◌≡◌, refl,
  sym, ap, ◌∙◌, eq_self,
}
use rjrssync.Doer.{done, Platform, DoerContext, Doer, get_full_path}
use rjrssync.Doer.Chunks.{concat}
use rjrssync.Doer.Exec.{exec_command, message_loop}
use rjrssync.Doer.Files.{create_or_update, take_handle}
use rjrssync.Interface.{Command, create_or_update_file}
use rjrssync.Path.{RootRelativePath, path_eq}

-- The commands in which a file arrives: the pieces, and the last one, with the modified time.
abbrev pub received : RootRelativePath → List (List ℕ) → List ℕ → ℕ → List Command
received path [] last t = create_or_update_file path last (some t) false ∷ []
received path (b ∷ bs) last t = create_or_update_file path b none true ∷ received path bs last t

-- What writing to a file promises, where no call fails: the handle's file grows by what is written,
-- and its time is set.
pub record WritesFile {S H : Type 0} (p : Platform S H) (Open : H → Str → List ℕ → S → Type 0)
    (Stored : Str → List ℕ → ℕ → S → Type 0) : Type 0 where
  pub write_next :
      (f : H) (path : Str) (bytes more : List ℕ) (s : S)
      → Open f path bytes s
      → (s' : S) × (p.write_all f more s ≡ (s', done tt)) × Open f path (bytes ++ more) s'
  pub set_time_of :
      (f : H) (path : Str) (bytes : List ℕ) (t : ℕ) (s : S)
      → Open f path bytes s
      → (s' : S) × (p.set_file_mtime path t s ≡ (s', done tt)) × Stored path bytes t s'

-- The context, with the transfer in progress.
abbrev pub context_of : {H : Type 0} → Str → Option (RootRelativePath × H) → DoerContext H
context_of root o = record { root = root; in_progress_file_receive = o }

abbrev pub holding : {S H : Type 0} → Str → Option (RootRelativePath × H) → S → Doer S H → Doer S H
holding root o s d = record d { os = s; context = some (context_of root o) }

module _ {S H : Type 0} (p : Platform S H) (Stored : Str → List ℕ → ℕ → S → Type 0)
    (path : RootRelativePath) (root : Str) where
  -- The file as it is in the end, and the doer ready for the next one, with nothing to report.
  abbrev pub Arrived : List ℕ → ℕ → Doer S H → Doer S H → Type 0
  Arrived bytes t d d' =
      Stored (get_full_path p path root) bytes t d'.os
      × (d'.outbox ≡ d.outbox)
      × (d'.context ≡ some (context_of root none))

module _ {S H : Type 0} (p : Platform S H) (Open : H → Str → List ℕ → S → Type 0)
    (Stored : Str → List ℕ → ℕ → S → Type 0) (laws : WritesFile p Open Stored) (rounds : ℕ)
    (path : RootRelativePath) (root : Str) where
  more_step :
      (f : H) (s s' : S) (bytes : List ℕ) (d : Doer S H)
      → p.write_all f bytes s ≡ (s', done tt)
      → exec_command p rounds
          (create_or_update_file path bytes none true)
          (holding root (some (path, f)) s d)
        ≡ ok (true, holding root (some (path, f)) s' d)
  unfolding exec_command create_or_update take_handle
  more_step f s s' bytes d written = rw (eq_self path, written) refl

  last_step :
      (f : H) (s s' s'' : S) (bytes : List ℕ) (t : ℕ) (d : Doer S H)
      → p.write_all f bytes s ≡ (s', done tt)
      → p.set_file_mtime (get_full_path p path root) t s' ≡ (s'', done tt)
      → exec_command p rounds
          (create_or_update_file path bytes (some t) false)
          (holding root (some (path, f)) s d)
        ≡ ok (true, holding root none s'' d)
  unfolding exec_command create_or_update take_handle
  last_step f s s' s'' bytes t d written timed = rw (eq_self path, written, timed) refl

  -- The first command has a new file; then it is as if the transfer were in progress.
  first_step :
      (f : H) (s s' : S) (bytes : List ℕ) (o : Option ℕ) (more : Bool) (d : Doer S H)
      → p.create_file (get_full_path p path root) s ≡ (s', done f)
      → exec_command p rounds (create_or_update_file path bytes o more) (holding root none s d)
        ≡ exec_command p rounds
            (create_or_update_file path bytes o more)
            (holding root (some (path, f)) s' d)
  unfolding exec_command create_or_update take_handle
  first_step f s s' bytes o more d created = rw (eq_self path, created) refl

  message_loop-received :
      (pieces : List (List ℕ)) (last : List ℕ) (t : ℕ) (f : H) (so_far : List ℕ) (s : S)
      (d : Doer S H)
      → Open f (get_full_path p path root) so_far s
      → (d' : Doer S H) × (message_loop p rounds
            (received path pieces last t)
            true
            (holding root (some (path, f)) s d)
          ≡ ok d')
        × Arrived p Stored path root (so_far ++ (concat pieces ++ last)) t d d'
  unfolding message_loop
  message_loop-received [] last t f so_far s d opened =
      let (s', written, opened') = laws.write_next f _ so_far last s opened in
      let (s'', timed, stored) = laws.set_time_of f _ (so_far ++ last) t s' opened' in
      (
        holding root none s'' d,
        rw (last_step f s s' s'' last t d written timed) refl,
        (stored, refl, refl),
      )
  message_loop-received (b ∷ bs) last t f so_far s d opened =
      let (s', written, opened') = laws.write_next f _ so_far b s opened in
      let (d', ran, arrived) = message_loop-received bs last t f (so_far ++ b) s' d opened' in
      (
        d',
        rw (more_step f s s' b d written) ran,
        arrived_as t d d'
            (append_assoc so_far b (concat bs ++ last)
              ∙ ap (λ l. so_far ++ l) (sym (append_assoc b (concat bs) last)))
            arrived,
      )
    where
      arrived_as :
          {bytes bytes' : List ℕ} (t : ℕ) (d d' : Doer S H)
          → bytes ≡ bytes'
          → Arrived p Stored path root bytes t d d'
          → Arrived p Stored path root bytes' t d d'
      arrived_as t d d' e a = rw e at a

  -- A file that arrives in pieces, while no call on it fails and no other transfer is in progress, is
  -- in the end made up of all of them in their order, with the time of the last one; nothing is
  -- reported, and the doer is ready for the next file.
  pub message_loop-Arrived :
      (pieces : List (List ℕ)) (last : List ℕ) (t : ℕ) (f : H) (s s' : S) (d : Doer S H)
      → p.create_file (get_full_path p path root) s ≡ (s', done f)
      → Open f (get_full_path p path root) [] s'
      → (d' : Doer S H) × (message_loop p rounds
            (received path pieces last t)
            true
            (holding root none s d)
          ≡ ok d')
        × Arrived p Stored path root (concat pieces ++ last) t d d'
  unfolding message_loop
  message_loop-Arrived [] last t f s s' d created opened =
      let (d', ran, arrived) = message_loop-received [] last t f [] s' d opened in
      (d', rw (first_step f s s' last (some t) false d created) ran, arrived)
  message_loop-Arrived (b ∷ bs) last t f s s' d created opened =
      let (d', ran, arrived) = message_loop-received (b ∷ bs) last t f [] s' d opened in
      (d', rw (first_step f s s' b none true d created) ran, arrived)

-- ===== src/Transfer/Sizes.antt =====
-- A copied file is sent as the source sent it, and comes to the size of its listing.
use rjrssync.Common.{
  true, ◌<◌, ltb→lt, if_true, if_false, ℕ, Bool, false, Option, none, some, List, [], ◌∷◌, ◌++◌,
  append_assoc, append-nil, ok, err, >>=-eq-ok, Outcome, if◌then◌else◌, ◌≡◌, refl, sym, ap, arith,
  ◌∙◌, add_u64, length, ltb, nat_beq, Bool-cases, inl, inr,
}
use rjrssync.Comms.{Comms, size_changed, SyncError, send_command}
use rjrssync.Interface.{
  get_file_content, Command, marker, create_or_update_file, ProgressMarker, Response, file_content,
}
use rjrssync.Path.{RootRelativePath}
use rjrssync.Progress.{copy_sent_partial, get_progress_marker_limited}
use rjrssync.Transfer.{
  Sending, send_marker, send_dest, send_progress_marker_limited, forward_chunk, copy_chunks,
  copy_content, copy_file, with_src_inbox,
}
use rjrssync.Transfer.Outbox.{
  without_markers, without_markers-append, unread, limited-unread, send_dest-unread,
  responses-unread, ok_unread, outbox, ok_outbox, limited_dry_run, process_dest_responses-outbox,
  send_dest-outbox,
}

abbrev after : ℕ → Command → ℕ
after offset (create_or_update_file _ bytes _ _) = add_u64 offset (length bytes)
after offset _ = offset

-- The offset after the contents that the commands carry, as a `u64`.
abbrev pub written : ℕ → List Command → ℕ
written offset [] = offset
written offset (c ∷ cs) = written (after offset c) cs

-- The commands with the contents that were read, in their order: the last ones set the time.
abbrev pub contents : RootRelativePath → ℕ → List Response → List Command
contents path modified_time [] = []
contents path modified_time (file_content bytes more ∷ rs) =
    create_or_update_file path bytes (if more then none else some modified_time) more
    ∷ contents path modified_time rs
contents path modified_time (_ ∷ rs) = contents path modified_time rs

-- The contents were taken from what the source sent, up to the last ones of the file, and the rest is
-- left; or all of them had more to follow, and what came next, which was dropped, went beyond the size.
abbrev pub Taken : ℕ → ℕ → List Response → List Response → List Response → Type 0
Taken size offset [] inbox left =
    (bytes : List ℕ) × (more : Bool) × (inbox ≡ file_content bytes more ∷ left)
    × (size < add_u64 offset (length bytes))
Taken size offset (file_content bytes true ∷ read) inbox left =
    (rest : List Response) × (inbox ≡ file_content bytes true ∷ rest)
    × Taken size offset read rest left
Taken size offset (file_content bytes false ∷ read) inbox left =
    (read ≡ []) × (inbox ≡ file_content bytes false ∷ left)
Taken size offset (_ ∷ read) inbox left = ⊥

-- Between two states, contents were sent that take the offset from one value to the other.
record Sent (path : RootRelativePath) (modified_time : ℕ) (read : List Response) (s s' : Sending)
    (offset offset' : ℕ) : Type 0 where
  pub commands : List Command
  pub appended : outbox s' ≡ outbox s ++ commands
  pub offset_after : written offset commands ≡ offset'
  pub forwarded : without_markers commands ≡ contents path modified_time read

written-append :
    (offset : ℕ) (xs ys : List Command) → written offset (xs ++ ys) ≡ written (written offset xs) ys
written-append offset [] ys = refl
written-append offset (c ∷ xs) ys = written-append (after offset c) xs ys

pair-injective :
    (a b : ℕ) (s s' : Sending)
    → ◌≡◌ {A = Outcome SyncError (ℕ × Sending)} (ok (a, s)) (ok (b, s'))
    → (a ≡ b) × (s ≡ s')
pair-injective a b s s' h = ground arith

contents-append :
    (path : RootRelativePath) (modified_time : ℕ) (xs ys : List Response)
    → contents path modified_time (xs ++ ys)
      ≡ contents path modified_time xs ++ contents path modified_time ys
contents-append path modified_time [] ys = refl
contents-append path modified_time (r ∷ xs) ys =
    ground (arith, contents-append path modified_time xs ys)

Taken-cons :
    (size offset : ℕ) (bytes : List ℕ) (more : Bool) (read rest left : List Response)
    → more ≡ true
    → Taken size offset read rest left
    → Taken size offset (file_content bytes more ∷ read) (file_content bytes more ∷ rest) left
Taken-cons size offset bytes true read rest left e t = (rest, refl, t)
Taken-cons size offset bytes false read rest left e t = absurd cc

Taken-last :
    (size offset : ℕ) (bytes : List ℕ) (more : Bool) (rest left : List Response)
    → more ≡ false
    → left ≡ rest
    → Taken size offset (file_content bytes more ∷ []) (file_content bytes more ∷ rest) left
Taken-last size offset bytes true rest left e l = absurd cc
Taken-last size offset bytes false rest left e l =
    (refl, ap (λ r. file_content bytes false ∷ r) (sym l))

module _ (times : ProgressMarker → ℕ) where
  module _ (path : RootRelativePath) (modified_time : ℕ) where
    join :
        {xs ys : List Response} {s s' s'' : Sending} {a b c : ℕ}
        → Sent path modified_time xs s s' a b
        → Sent path modified_time ys s' s'' b c
        → Sent path modified_time (xs ++ ys) s s'' a c
    join {xs} {ys} {s} {s'} {s''} {a} {b} {c} x y = record {
      commands = x.commands ++ y.commands;
      appended =
          y.appended
          ∙ ap (λ o. o ++ y.commands) x.appended
          ∙ append_assoc (outbox s) x.commands y.commands;
      offset_after =
          written-append a x.commands y.commands
          ∙ ap (λ o. written o y.commands) x.offset_after
          ∙ y.offset_after;
      forwarded =
          without_markers-append x.commands y.commands
          ∙ rw (x.forwarded, y.forwarded) (sym (contents-append path modified_time xs ys));
    }

    relabel :
        {xs : List Response} {s s1 s' : Sending} {a b c : ℕ}
        → Sent path modified_time xs s s1 a b
        → outbox s' ≡ outbox s1
        → b ≡ c
        → Sent path modified_time xs s s' a c
    relabel x e f = record {
      commands = x.commands;
      appended = e ∙ x.appended;
      offset_after = x.offset_after ∙ f;
      forwarded = x.forwarded;
    }

    relabel_from :
        {xs : List Response} {s s1 s' : Sending} {a b : ℕ}
        → Sent path modified_time xs s s' a b
        → outbox s ≡ outbox s1
        → Sent path modified_time xs s1 s' a b
    relabel_from x e = record {
      commands = x.commands;
      appended = x.appended ∙ ap (λ o. o ++ x.commands) e;
      offset_after = x.offset_after;
      forwarded = x.forwarded;
    }

    marker-Sent :
        (o : Option ProgressMarker) (s s' : Sending) (offset : ℕ)
        → send_marker o s ≡ ok s'
        → Sent path modified_time [] s s' offset offset
    marker-Sent none s s' offset h = record {
      commands = [];
      appended = rw append-nil (ground arith);
      offset_after = refl;
      forwarded = refl;
    }
    marker-Sent (some m) s s' offset h = record {
      commands = marker m ∷ [];
      appended = send_dest-outbox times (marker m) s s' h;
      offset_after = refl;
      forwarded = refl;
    }

    limited-Sent :
        (s s' : Sending) (offset : ℕ)
        → send_progress_marker_limited s ≡ ok s'
        → Sent path modified_time [] s s' offset offset
    unfolding send_progress_marker_limited
    limited-Sent s s' offset h =
        let sent =
          marker-Sent (get_progress_marker_limited s.progress).0
            (record s { progress = (get_progress_marker_limited s.progress).1 }) s' offset h in
        record {
          commands = sent.commands;
          appended = sent.appended;
          offset_after = sent.offset_after;
          forwarded = sent.forwarded;
        }

    forward_chunk-Sent :
        (size offset : ℕ) (bytes : List ℕ) (more : Bool) (s s' : Sending)
        → forward_chunk times path size modified_time offset bytes more s ≡ ok s'
        → Sent path modified_time
            (file_content bytes more ∷ [])
            s
            s'
            offset
            (add_u64 offset (length bytes))
          × (unread s' ≡ unread s)
    unfolding forward_chunk
    forward_chunk-Sent size offset bytes more s s' h =
        let command : Command =
          create_or_update_file path bytes (if more then none else some modified_time) more in
        let (s1, sent, processed) = >>=-eq-ok (send_dest command s) _ h in
        let counted : Sending = record s1 {
          progress = copy_sent_partial offset (length bytes) size s1.progress;
        } in
        (
          record {
            commands = command ∷ [];
            appended =
                process_dest_responses-outbox times false counted s' processed
                ∙ send_dest-outbox times command s s1 sent;
            offset_after = refl;
            forwarded = refl;
          },
          responses-unread times false counted s' processed ∙ send_dest-unread command s s1 sent,
        )

    copy_chunks-Sent :
        (size : ℕ) (inbox : List Response) (offset offset' : ℕ) (s s' : Sending)
        → copy_chunks times path size modified_time inbox offset s ≡ ok (offset', s')
        → (read : List Response) × Sent path modified_time read s s' offset offset'
          × Taken size offset' read inbox (unread s')
    unfolding copy_chunks
    copy_chunks-Sent size [] offset offset' s s' h =
        let (s1, marked, rest) = >>=-eq-ok (send_progress_marker_limited s) _ h in
        absurd (ground arith)
    copy_chunks-Sent size (file_content bytes more ∷ rest) offset offset' s s' h =
        let (s1, marked, goes_on) = >>=-eq-ok (send_progress_marker_limited s) _ h in
        let taken : Sending = with_src_inbox rest s1 in
        let next = add_u64 offset (length bytes) in
        elim (Bool-cases (ltb size next)) [
          | inl too_long ↦
              let (same, is_s') = pair-injective _ _ _ _ (sym (if_true _ _ too_long) ∙ goes_on) in
              (
                [],
                relabel (limited-Sent s s1 offset marked) (ap outbox (sym is_s')) same,
                (
                  bytes,
                  more,
                  ap (λ r. file_content bytes more ∷ r) (ap unread is_s'),
                  rw (sym same) (ltb→lt _ _ too_long),
                ),
              )
          | inr fits ↦
              let (s2, forwarded, last) =
                >>=-eq-ok (forward_chunk times path size modified_time offset bytes more taken) _
                  (sym (if_false _ _ fits) ∙ goes_on) in
              let (sent, kept) = forward_chunk-Sent size offset bytes more taken s2 forwarded in
              let so_far : Sent path modified_time (file_content bytes more ∷ []) s s2 offset next =
                join {xs = []} (relabel (limited-Sent s s1 offset marked) refl refl) sent in
              elim (Bool-cases more) [
                | inl goes ↦
                    let (read, more_sent, more_taken) =
                      copy_chunks-Sent size rest next offset' s2 s'
                        (sym (if_true _ _ goes) ∙ last) in
                    (
                      file_content bytes more ∷ read,
                      join so_far more_sent,
                      Taken-cons size offset' bytes more read rest (unread s') goes more_taken,
                    )
                | inr ends ↦
                    let (same, is_s') = pair-injective _ _ _ _ (sym (if_false _ _ ends) ∙ last) in
                    (
                      file_content bytes more ∷ [],
                      relabel so_far (ap outbox (sym is_s')) same,
                      Taken-last size offset' bytes more rest (unread s') ends
                          (ap unread (sym is_s') ∙ kept),
                    )
              ]
        ]
    copy_chunks-Sent size (r ∷ rest) offset offset' s s' h =
        let (s1, marked, refused) = >>=-eq-ok (send_progress_marker_limited s) _ h in
        absurd (ground arith)

    copy_content-Sent :
        (size : ℕ) (s s' : Sending)
        → copy_content times path size modified_time s ≡ ok s'
        → (read : List Response) × Sent path modified_time read s s' 0 size
          × Taken size size read (unread s) (unread s')
    unfolding copy_content send_command
    copy_content-Sent size s s' h =
        let (m, asked, rest) =
          >>=-eq-ok (send_command (get_file_content path) s.ctx.src_comms) _ h in
        let asking : Sending = record s { ctx = record (s.ctx) { src_comms = m } } in
        let ((offset, s1), copied, checked) =
          >>=-eq-ok (copy_chunks times path size modified_time m.inbox 0 asking) _ rest in
        let (same, is_s') = size_checked offset size s1 s' checked in
        let (read, sent, taken) = copy_chunks-Sent size m.inbox 0 offset asking s1 copied in
        (
          read,
          relabel (relabel_from sent refl) (ap outbox (sym is_s')) same,
          rw (same, is_s', send_command-inbox s.ctx.src_comms m asked) at taken,
        )
      where
        size_checked :
            (offset size : ℕ) (s1 s' : Sending)
            → ◌≡◌ {A = Outcome SyncError Sending}
                (if nat_beq offset size then ok s1 else err (size_changed path))
                (ok s')
            → (offset ≡ size) × (s1 ≡ s')
        size_checked offset size s1 s' h = ground arith

        send_command-inbox :
            (c m : Comms) → send_command (get_file_content path) c ≡ ok m → m.inbox ≡ c.inbox
        send_command-inbox c m h = ground arith

  -- Where `copy_file` returns, and not in a dry run, it took contents from what the source sent, and
  -- sent the destination just these, in their order, with the same bytes, and otherwise only progress
  -- markers; they come to the size that the file was listed with, in the 64 bits of the offset. They
  -- are all contents up to the last ones, which set the listed time; or none of them were the last, and
  -- what the source sent next went beyond the size and was dropped, without an error.
  pub copy_file-written :
      (log10 : ℕ → ℕ) (path : RootRelativePath) (size modified_time : ℕ) (s s' : Sending)
      → s.ctx.dry_run ≡ false
      → copy_file times log10 path size modified_time s ≡ ok s'
      → (sent : List Command) × (read : List Response) × (s'.ctx.dest_comms.outbox
          ≡ s.ctx.dest_comms.outbox ++ sent)
        × (written 0 sent ≡ size)
        × (without_markers sent ≡ contents path modified_time read)
        × Taken size size read s.ctx.src_comms.inbox s'.ctx.src_comms.inbox
  unfolding copy_file
  copy_file-written log10 path size modified_time s s' wet h =
      let (s1, marked, rest) = >>=-eq-ok (send_progress_marker_limited s) _ h in
      let (s2, chosen, ended) = >>=-eq-ok _ _ rest in
      let (read, whole, taken) =
        copy_content-Sent path modified_time size s1 s2
          (sym (if_false _ _ (limited_dry_run s s1 marked ∙ wet)) ∙ chosen) in
      let sent : Sent path modified_time read s s2 0 size =
        join path modified_time {xs = []} (limited-Sent path modified_time s s1 0 marked) whole in
      (
        sent.commands,
        read,
        ok_outbox _ s' ended ∙ sent.appended,
        sent.offset_after,
        sent.forwarded,
        rw (limited-unread s s1 marked, ok_unread _ s' ended) at taken,
      )

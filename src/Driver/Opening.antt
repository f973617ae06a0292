-- ===== src/Driver/Opening.antt =====
-- Up to the first deletion a sync only asks.
use rjrssync.Common.{
  ℕ, Bool, true, false, Option, none, some, List, [], ◌∷◌, ◌++◌, ok, >>=-eq-ok, ◌⊎◌, if◌then◌else◌,
  ◌≡◌, refl, sym, ◌∙◌, arith, ◌&&◌, Bool-cases, inl, inr,
}
use rjrssync.Comms.{Comms, send_command, receive_response}
use rjrssync.Confirm.{
  Terminal, Confirming, confirm_delete, confirm_deletes, confirm_copy, confirm_copies,
  confirm_actions,
}
use rjrssync.Driver.Roots.{
  take_src_details, src_details, take_dest_details, dest_details, take_moved, move_inside,
  get_root_details, create_ancestors, is_file_or_symlink, ends_in_slash, last_part, with_src,
  with_dest,
}
use rjrssync.Driver.Sends.{
  Sends, Quiet, Quiet-trans, Quiet-Sends, Sends-trans, Extends-one, Extends-none, asks, asks_dest,
  send_command-outbox, receive_response-outbox,
}
use rjrssync.Interface.{
  Command, Response, EntryDetails, set_root, get_entries, create_root_ancestors, file, folder,
  symlink, root_details, entry,
}
use rjrssync.OrderedMap.{iter}
use rjrssync.Path.{RootRelativePath, root, path_eq}
use rjrssync.Prompt.{Console}
use rjrssync.Query.{
  Pick, from_src, from_dest, Query, Round, process_src_entry, process_dest_entry, take_src,
  take_dest, round, loop, begin_dest, begin, query_entries, finish, ask_src, ask_dest, count_src,
  count_dest, empty_query,
}
use rjrssync.Sync.{SyncContext, Actions, DeleteReason, CopyReason}

-- The steps ask in the mode of the sync.
abbrev pub Asks : SyncContext → SyncContext → Type 0
Asks ctx ctx' = Sends asks (asks_dest ctx.dry_run) ctx ctx'

pub Asks-trans : {a b c : SyncContext} → Asks a b → Asks b c → Asks a c
Asks-trans {a} {b} {c} x y = Sends-trans x (rw (sym x.same_mode) y)

ask_src_once :
    (c : Command) (ctx ctx' : SyncContext) (m : Comms)
    → asks c ≡ true
    → send_command c ctx.src_comms ≡ ok m
    → Quiet (with_src m ctx) ctx'
    → Asks ctx ctx'
ask_src_once c ctx ctx' m a sent q = record {
  same_mode = q.mode_kept;
  src_sent =
      Extends-one asks c ctx.src_comms ctx'.src_comms a
        (q.src_kept ∙ send_command-outbox c ctx.src_comms m sent);
  dest_sent = Extends-none _ ctx.dest_comms ctx'.dest_comms q.dest_kept;
}

ask_dest_once :
    (c : Command) (ctx ctx' : SyncContext) (m : Comms)
    → asks_dest ctx.dry_run c ≡ true
    → send_command c ctx.dest_comms ≡ ok m
    → Quiet (with_dest m ctx) ctx'
    → Asks ctx ctx'
ask_dest_once c ctx ctx' m a sent q = record {
  same_mode = q.mode_kept;
  src_sent = Extends-none _ ctx.src_comms ctx'.src_comms q.src_kept;
  dest_sent =
      Extends-one _ c ctx.dest_comms ctx'.dest_comms a
        (q.dest_kept ∙ send_command-outbox c ctx.dest_comms m sent);
}

received_src :
    (ctx : SyncContext) (m m' : Comms) (r : Response)
    → receive_response m ≡ ok (r, m')
    → Quiet (with_src m ctx) (with_src m' ctx)
received_src ctx m m' r h = record {
  mode_kept = refl;
  src_kept = receive_response-outbox m m' r h;
  dest_kept = refl;
}

received_dest :
    (ctx : SyncContext) (m m' : Comms) (r : Response)
    → receive_response m ≡ ok (r, m')
    → Quiet (with_dest m ctx) (with_dest m' ctx)
received_dest ctx m m' r h = record {
  mode_kept = refl;
  src_kept = refl;
  dest_kept = receive_response-outbox m m' r h;
}

take_src_details-Quiet :
    (ctx ctx' : SyncContext) (r : Response) (d : EntryDetails)
    → take_src_details ctx r ≡ ok (d, ctx')
    → Quiet ctx ctx'
unfolding take_src_details
take_src_details-Quiet ctx ctx' (root_details none b c) d h = ground arith
take_src_details-Quiet ctx ctx' (root_details (some e) b c) d h = ground arith
take_src_details-Quiet ctx ctx' r d h = ground arith

take_dest_details-Quiet :
    (ctx ctx' : SyncContext) (r : Response) (d : Option EntryDetails) (b : Bool)
    → take_dest_details ctx r ≡ ok (d, (b, ctx'))
    → Quiet ctx ctx'
unfolding take_dest_details
take_dest_details-Quiet ctx ctx' (root_details none b c) d b' h = ground arith
take_dest_details-Quiet ctx ctx' (root_details (some e) b c) d b' h = ground arith
take_dest_details-Quiet ctx ctx' r d b' h = ground arith

src_details-Asks :
    (ctx ctx' : SyncContext) (d : EntryDetails) → src_details ctx ≡ ok (d, ctx') → Asks ctx ctx'
unfolding src_details
src_details-Asks ctx ctx' d h =
    let (m, sent, rest) = >>=-eq-ok (send_command _ _) _ h in
    let ((r, m'), received, taken) = >>=-eq-ok (receive_response m) _ rest in
    ask_src_once (set_root ctx.src_root) ctx ctx' m refl sent
      (Quiet-trans (received_src ctx m m' r received) (take_src_details-Quiet _ ctx' r d taken))

dest_details-Asks :
    (ctx ctx' : SyncContext) (d : Option EntryDetails) (b : Bool)
    → dest_details ctx ≡ ok (d, (b, ctx'))
    → Asks ctx ctx'
unfolding dest_details
dest_details-Asks ctx ctx' d b h =
    let (m, sent, rest) = >>=-eq-ok (send_command _ _) _ h in
    let ((r, m'), received, taken) = >>=-eq-ok (receive_response m) _ rest in
    ask_dest_once (set_root ctx.dest_root) ctx ctx' m refl sent
      (Quiet-trans (received_dest ctx m m' r received) (take_dest_details-Quiet _ ctx' r d b taken))

take_moved-Quiet :
    (ctx ctx' : SyncContext) (r : Response) (d : Option EntryDetails)
    → take_moved ctx r ≡ ok (d, ctx')
    → Quiet ctx ctx'
take_moved-Quiet ctx ctx' r d h = ground arith

moved_if :
    {A : Type 0} (b : Bool) (x y z : A)
    → (if b then x else y) ≡ z
    → ((b ≡ true) × (x ≡ z)) ⊎ (y ≡ z)
moved_if true x y z h = inl (refl, h)
moved_if false x y z h = inr h

move_inside-Asks :
    (s : EntryDetails) (d d' : Option EntryDetails) (ctx ctx' : SyncContext)
    → move_inside s d ctx ≡ ok (d', ctx')
    → Asks ctx ctx'
unfolding move_inside
move_inside-Asks s d d' ctx ctx' h =
    elim (moved_if (is_file_or_symlink s && ends_in_slash ctx.dest_root) _ _ _ h) [
      | inr same ↦ Quiet-Sends (ground arith)
      | inl (_, moved) ↦
          (let (m, sent, rest) = >>=-eq-ok (send_command _ _) _ moved in
            let ((r, m'), received, taken) = >>=-eq-ok (receive_response m) _ rest in
            ask_dest_once (set_root (ctx.dest_root ++ last_part ctx.src_root)) ctx ctx' m refl sent
              (record {
                mode_kept = (take_moved-Quiet _ ctx' r d' taken).mode_kept;
                src_kept = (take_moved-Quiet _ ctx' r d' taken).src_kept;
                dest_kept =
                    (take_moved-Quiet _ ctx' r d' taken).dest_kept
                    ∙ receive_response-outbox m m' r received;
              }))
    ]

-- The checks of the roots only ask.
pub get_root_details-Asks :
    (ctx ctx' : SyncContext) (roots : EntryDetails × (Option EntryDetails × Bool))
    → get_root_details ctx ≡ ok (roots, ctx')
    → Asks ctx ctx'
unfolding get_root_details
get_root_details-Asks ctx ctx' roots h =
    let ((s, ctx1), first, rest) = >>=-eq-ok (src_details ctx) _ h in
    let ((d, (b, ctx2)), second, rest') = >>=-eq-ok (dest_details ctx1) _ rest in
    let ((d', ctx3), third, ended) = >>=-eq-ok (move_inside s d ctx2) _ rest' in
    Asks-trans (src_details-Asks ctx ctx1 s first) (
      Asks-trans (dest_details-Asks ctx1 ctx2 d b second)
        (Asks-trans (move_inside-Asks s d d' ctx2 ctx3 third) (Quiet-Sends (ground arith))))

pub create_ancestors-Asks :
    (d : Option EntryDetails) (ctx ctx' : SyncContext)
    → create_ancestors d ctx ≡ ok ctx'
    → Asks ctx ctx'
unfolding create_ancestors
create_ancestors-Asks (some d) ctx ctx' h = Quiet-Sends (ground arith)
create_ancestors-Asks none ctx ctx' h = elim (Bool-cases ctx.dry_run) [
  | inl dry ↦ Quiet-Sends (ground arith)
  | inr wet ↦
      (let (m, sent, ended) =
          >>=-eq-ok (send_command create_root_ancestors ctx.dest_comms) _ (rw wet at h) in
        ask_dest_once create_root_ancestors ctx ctx' m (rw wet refl) sent (ground arith))
]

module _ (log10 : ℕ → ℕ) (differentiates : Bool) where
  process_src_entry-Quiet :
      (ctx ctx' : SyncContext) (p : RootRelativePath) (d : EntryDetails) (q q' : Query)
      → process_src_entry log10 ctx p d differentiates q ≡ ok (ctx', q')
      → Quiet ctx ctx'
  unfolding process_src_entry count_src
  process_src_entry-Quiet ctx ctx' p d q q' h = ground arith

  process_dest_entry-Quiet :
      (ctx ctx' : SyncContext) (p : RootRelativePath) (d : EntryDetails) (q q' : Query)
      → process_dest_entry ctx p d differentiates q ≡ ok (ctx', q')
      → Quiet ctx ctx'
  unfolding process_dest_entry count_dest
  process_dest_entry-Quiet ctx ctx' p d q q' h = ground arith

  take_src-Quiet :
      (r r' : Round) (response : Response)
      → take_src log10 differentiates r response ≡ ok r'
      → Quiet r.ctx r'.ctx
  unfolding take_src
  take_src-Quiet r r' (entry p d) h =
      let ((ctx, query), processed, ended) =
        >>=-eq-ok (process_src_entry log10 r.ctx p d differentiates r.query) _ h in
      Quiet-trans (process_src_entry-Quiet r.ctx ctx p d r.query query processed) (ground arith)
  take_src-Quiet r r' response h = ground arith

  take_dest-Quiet :
      (r r' : Round) (response : Response)
      → take_dest log10 differentiates r response ≡ ok r'
      → Quiet r.ctx r'.ctx
  unfolding take_dest
  take_dest-Quiet r r' (entry p d) h =
      let ((ctx, query), processed, ended) =
        >>=-eq-ok (process_dest_entry r.ctx p d differentiates r.query) _ h in
      Quiet-trans (process_dest_entry-Quiet r.ctx ctx p d r.query query processed) (ground arith)
  take_dest-Quiet r r' response h = ground arith

  round-Quiet :
      (pick : Pick) (r r' : Round) → round log10 differentiates pick r ≡ ok r' → Quiet r.ctx r'.ctx
  unfolding round
  round-Quiet from_src r r' h =
      let ((response, m), received, taken) = >>=-eq-ok (receive_response r.ctx.src_comms) _ h in
      Quiet-trans (received_src r.ctx r.ctx.src_comms m response received)
        (take_src-Quiet _ r' response taken)
  round-Quiet from_dest r r' h =
      let ((response, m), received, taken) = >>=-eq-ok (receive_response r.ctx.dest_comms) _ h in
      Quiet-trans (received_dest r.ctx r.ctx.dest_comms m response received)
        (take_dest-Quiet _ r' response taken)

  loop-Quiet :
      (picks : List Pick) (r r' : Round)
      → loop log10 differentiates picks r ≡ ok r'
      → Quiet r.ctx r'.ctx
  unfolding loop
  loop-Quiet [] r r' h = ground arith
  loop-Quiet (pick ∷ picks) r r' h = elim (Bool-cases (r.src_done && r.dest_done)) [
    | inl over ↦ ground arith
    | inr going ↦
        (let (next, taken, rest) =
            >>=-eq-ok (round log10 differentiates pick r) _ (rw (loop, going) at h) in
          Quiet-trans (round-Quiet pick r next taken) (loop-Quiet picks next r' rest))
  ]

  ask_src-Asks :
      (d : EntryDetails) (r r' : Round)
      → ask_src log10 differentiates d r ≡ ok r'
      → Asks r.ctx r'.ctx
  ask_src-Asks (file t n) r r' h = Quiet-Sends (ground arith)
  ask_src-Asks (symlink k t) r r' h = Quiet-Sends (ground arith)
  ask_src-Asks folder r r' h =
      let (m, sent, ended) =
        >>=-eq-ok (send_command (get_entries r.ctx.filters) r.ctx.src_comms) _ h in
      ask_src_once (get_entries r.ctx.filters) r.ctx r'.ctx m refl sent (ground arith)

  ask_dest-Asks :
      (d : EntryDetails) (r r' : Round)
      → ask_dest log10 differentiates d r ≡ ok r'
      → Asks r.ctx r'.ctx
  ask_dest-Asks (file t n) r r' h = Quiet-Sends (ground arith)
  ask_dest-Asks (symlink k t) r r' h = Quiet-Sends (ground arith)
  ask_dest-Asks folder r r' h =
      let (m, sent, ended) =
        >>=-eq-ok (send_command (get_entries r.ctx.filters) r.ctx.dest_comms) _ h in
      ask_dest_once (get_entries r.ctx.filters) r.ctx r'.ctx m refl sent (ground arith)

  begin_dest-Asks :
      (d : Option EntryDetails) (r r' : Round)
      → begin_dest log10 differentiates d r ≡ ok r'
      → Asks r.ctx r'.ctx
  unfolding begin_dest
  begin_dest-Asks none r r' h = Quiet-Sends (ground arith)
  begin_dest-Asks (some d) r r' h =
      let ((ctx, query), processed, rest) =
        >>=-eq-ok (process_dest_entry r.ctx root d differentiates r.query) _ h in
      Asks-trans (Quiet-Sends (process_dest_entry-Quiet r.ctx ctx root d r.query query processed))
        (ask_dest-Asks d _ r' rest)

  -- The querying phase only asks.
  pub query_entries-Asks :
      (ctx ctx' : SyncContext) (src_root : EntryDetails) (dest_root : Option EntryDetails)
      (picks : List Pick) (actions : Actions)
      → query_entries log10 differentiates ctx src_root dest_root picks ≡ ok (ctx', actions)
      → Asks ctx ctx'
  unfolding query_entries begin finish
  query_entries-Asks ctx ctx' src_root dest_root picks actions h =
      let (started, begun, rest) =
        >>=-eq-ok (begin log10 differentiates ctx src_root dest_root) _ h in
      let ((ctx1, query), processed, more) =
        >>=-eq-ok (process_src_entry log10 ctx root src_root differentiates empty_query) _ begun in
      let (r1, asked, started_dest) = >>=-eq-ok (ask_src log10 differentiates src_root _) _ more in
      let (r, looped, ended) = >>=-eq-ok (loop log10 differentiates picks started) _ rest in
      Asks-trans
        (Quiet-Sends (process_src_entry-Quiet ctx ctx1 root src_root empty_query query processed))
        (Asks-trans (ask_src-Asks src_root _ r1 asked) (
          Asks-trans (begin_dest-Asks dest_root r1 started started_dest) (
            Asks-trans (Quiet-Sends (loop-Quiet picks started r looped))
              (Quiet-Sends (ground arith)))))

module _ (t : Terminal) where
  confirm_delete-Quiet :
      (p : RootRelativePath) (d : EntryDetails) (reason : DeleteReason) (s s' : Confirming)
      → confirm_delete t p d reason s ≡ ok s'
      → Quiet s.ctx s'.ctx
  unfolding confirm_delete
  confirm_delete-Quiet p d reason s s' h = ground arith

  confirm_copy-Quiet :
      (p : RootRelativePath) (reason : CopyReason) (s s' : Confirming)
      → confirm_copy t p reason s ≡ ok s'
      → Quiet s.ctx s'.ctx
  unfolding confirm_copy
  confirm_copy-Quiet p reason s s' h = ground arith

  confirm_deletes-Quiet :
      (items : List (RootRelativePath × (EntryDetails × DeleteReason))) (s s' : Confirming)
      → confirm_deletes t items s ≡ ok s'
      → Quiet s.ctx s'.ctx
  unfolding confirm_deletes
  confirm_deletes-Quiet [] s s' h = ground arith
  confirm_deletes-Quiet ((p, (d, reason)) ∷ items) s s' h =
      let (s1, first, rest) = >>=-eq-ok (confirm_delete t p d reason s) _ h in
      Quiet-trans (confirm_delete-Quiet p d reason s s1 first)
        (confirm_deletes-Quiet items s1 s' rest)

  confirm_copies-Quiet :
      (items : List (RootRelativePath × (EntryDetails × CopyReason))) (s s' : Confirming)
      → confirm_copies t items s ≡ ok s'
      → Quiet s.ctx s'.ctx
  unfolding confirm_copies
  confirm_copies-Quiet [] s s' h = ground arith
  confirm_copies-Quiet ((p, (d, reason)) ∷ items) s s' h =
      let (s1, first, rest) = >>=-eq-ok (confirm_copy t p reason s) _ h in
      Quiet-trans (confirm_copy-Quiet p reason s s1 first) (confirm_copies-Quiet items s1 s' rest)

  -- Confirming sends nothing.
  pub confirm_actions-Quiet :
      (ctx ctx' : SyncContext) (console console' : Console) (actions confirmed : Actions)
      → confirm_actions t ctx console actions ≡ ok (ctx', console', confirmed)
      → Quiet ctx ctx'
  unfolding confirm_actions
  confirm_actions-Quiet ctx ctx' console console' actions confirmed h =
      let (s, deleted, rest) = >>=-eq-ok (confirm_deletes t (iter actions.to_delete) _) _ h in
      let (s', copied, ended) = >>=-eq-ok (confirm_copies t (iter actions.to_copy) _) _ rest in
      Quiet-trans (confirm_deletes-Quiet (iter actions.to_delete) _ s deleted)
        (Quiet-trans (confirm_copies-Quiet (iter actions.to_copy) _ s' copied) (ground arith))

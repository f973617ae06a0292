-- ===== src/Driver/Whole.antt =====
-- The whole sync: it asks, and then performs the confirmed plan.
use rjrssync.Common.{
  ℕ, Bool, true, false, Option, List, [], ◌∷◌, ◌++◌, ok, Outcome, >>=-eq-ok, if_true, if_false, ◌≡◌,
  sym, ◌∙◌, ap, arith, Bool-cases, ◌⊎◌, inl, inr,
}
use rjrssync.Comms.{SyncError}
use rjrssync.Confirm.{Terminal, confirm_actions}
use rjrssync.Driver.{
  delete_all, copy_all, start_copies, ready, finish_stats, perform, sync_entries, sync_impl,
}
use rjrssync.Driver.Copies.{CopiedAll, CopiedAll-mode, delete_all-unread, copy_all-CopiedAll}
use rjrssync.Driver.Opening.{
  Asks, Asks-trans, get_root_details-Asks, create_ancestors-Asks, query_entries-Asks,
  confirm_actions-Quiet,
}
use rjrssync.Driver.Performs.{
  reads, Passes-trans, send_dest-Passes, responses-Passes, deletions_told, delete_all-Tells,
}
use rjrssync.Transfer.Outbox.{without_markers, unread, send_dest-unread, responses-unread}
use rjrssync.Driver.Copies.{Still-trans, responses-Still}
use rjrssync.Driver.Requests.{
  requests, told_src, delete_all-Still, send_dest-Still, copy_all-requests,
}
use rjrssync.Driver.Roots.{get_root_details, check_dest_root, create_ancestors}
use rjrssync.Driver.Sends.{Extends, Quiet-Sends}
use rjrssync.Interface.{Command, EntryDetails, ProgressMarker, marker}
use rjrssync.OrderedMap.{iter}
use rjrssync.Path.{path_eq}
use rjrssync.Progress.{all_work_sent, get_progress_marker}
use rjrssync.Prompt.{Console}
use rjrssync.Query.{Pick, query_entries}
use rjrssync.Sync.{SyncContext, Actions}
use rjrssync.Transfer.{Sending, send_dest, process_dest_responses}

-- From the first state to the second the destination was told just the actions: first all deletions,
-- then all copies, each group followed by a progress marker; and the source was asked just for the
-- contents of the files.
pub record Performed (actions : Actions) (ctx ctx' : SyncContext) : Type 0 where
  pub deletes : List Command
  pub copies : List Command
  pub start : ProgressMarker
  pub finish : ProgressMarker
  pub told :
      ctx'.dest_comms.outbox
      ≡ ctx.dest_comms.outbox ++ (deletes ++ ((marker start ∷ copies) ++ (marker finish ∷ [])))
  pub deleted : without_markers deletes ≡ deletions_told ctx.dry_run (iter actions.to_delete)
  pub copied :
      CopiedAll ctx.dry_run (iter actions.to_copy) ctx.src_comms.inbox ctx'.src_comms.inbox copies
  pub asked :
      ctx'.src_comms.outbox ≡ ctx.src_comms.outbox ++ requests ctx.dry_run (iter actions.to_copy)
  pub src_read : Extends (reads ctx.dry_run) ctx.src_comms ctx'.src_comms
  pub same_mode : ctx'.dry_run ≡ ctx.dry_run

module _ (t : Terminal) (times : ProgressMarker → ℕ) (delete_start copy_end : ℕ) (log10 : ℕ → ℕ)
    (hidden : Bool) where
  performed :
      (ctx ctx' : SyncContext) (actions : Actions) (s1 s2 s3 s4 s5 : Sending)
      → delete_all times (iter actions.to_delete) (ready delete_start hidden ctx actions) ≡ ok s1
      → start_copies s1 ≡ ok s2
      → copy_all times log10 (iter actions.to_copy) s2 ≡ ok s3
      → send_dest (marker (all_work_sent s3.progress)) s3 ≡ ok s4
      → process_dest_responses times true s4 ≡ ok s5
      → finish_stats copy_end s5 ≡ ctx'
      → Performed actions ctx ctx'
  performed ctx ctx' actions s1 s2 s3 s4 s5 deleted marked copied sent processed ended =
      let deletes = delete_all-Tells times (iter actions.to_delete) _ s1 deleted in
      let start = send_dest-Passes (marker (get_progress_marker s1.progress).0) _ s2 marked in
      let (copies, passes, said) =
        copy_all-CopiedAll times log10 (iter actions.to_copy) s2 s3 copied in
      let last = send_dest-Passes (marker (all_work_sent s3.progress)) s3 s4 sent in
      let all = Passes-trans deletes.passes (
        Passes-trans
          (Passes-trans {a = s1}
            (record {
              appended = start.appended;
              same_mode = start.same_mode;
              src_read = start.src_read;
            })
            passes)
          (Passes-trans last (responses-Passes times true s4 s5 processed))) in
      let before : unread s2 ≡ ctx.src_comms.inbox =
        send_dest-unread (marker (get_progress_marker s1.progress).0) _ s2 marked
        ∙ delete_all-unread times (iter actions.to_delete) _ s1 deleted in
      let after : unread s3 ≡ unread s5 = sym (
        responses-unread times true s4 s5 processed
        ∙ send_dest-unread (marker (all_work_sent s3.progress)) s3 s4 sent) in
      let silent_start = delete_all-Still times (iter actions.to_delete) _ s1 deleted in
      let start_still = send_dest-Still (marker (get_progress_marker s1.progress).0) _ s2 marked in
      let end_still =
        Still-trans (send_dest-Still (marker (all_work_sent s3.progress)) s3 s4 sent)
          (responses-Still times true s4 s5 processed) in
      let asked_files : told_src s5
          ≡ ctx.src_comms.outbox ++ requests ctx.dry_run (iter actions.to_copy) =
        end_still.src_kept
        ∙ copy_all-requests times log10 (iter actions.to_copy) s2 s3 copied
        ∙ ap (λ l. l ++ requests s2.ctx.dry_run (iter actions.to_copy))
            (start_still.src_kept ∙ silent_start.src_kept)
        ∙ ap (λ b. ctx.src_comms.outbox ++ requests b (iter actions.to_copy))
            (start_still.same_mode ∙ silent_start.same_mode) in
      rw (sym ended) (record {
        deletes = deletes.sent;
        copies = copies;
        start = (get_progress_marker s1.progress).0;
        finish = all_work_sent s3.progress;
        told = all.appended;
        deleted = deletes.told;
        copied =
            rw (before, after) at
              (CopiedAll-mode times log10 s2.ctx.dry_run ctx.dry_run (iter actions.to_copy)
                (unread s2) (unread s3) copies (start.same_mode ∙ deletes.passes.same_mode) said);
        asked = asked_files;
        src_read = all.src_read;
        same_mode = all.same_mode;
      })

  -- Where the confirmed actions have been performed, the destination was told each of them once, in
  -- their order, the deletions before the copies, and nothing else but progress markers. For a file it
  -- was told just the contents that were taken for it from what the source sent, which come to the size
  -- of its listing: all up to the last ones, or, if none of them were the last, all until the source
  -- went beyond the size. The source was asked once for the contents of each file, in their order, and
  -- for nothing else. In a dry run the destination was told only progress markers, and the source was
  -- asked for nothing.
  pub perform-Performed :
      (ctx ctx' : SyncContext) (actions : Actions)
      → perform t times delete_start copy_end log10 hidden ctx actions ≡ ok ctx'
      → Performed actions ctx ctx'
  unfolding perform
  perform-Performed ctx ctx' actions h =
      let (s1, deleted, rest) = >>=-eq-ok (delete_all times (iter actions.to_delete) _) _ h in
      let (s2, marked, rest') = >>=-eq-ok (start_copies s1) _ rest in
      let (s3, copied, rest'') =
        >>=-eq-ok (copy_all times log10 (iter actions.to_copy) s2) _ rest' in
      let (s4, sent, rest''') =
        >>=-eq-ok (send_dest (marker (all_work_sent s3.progress)) s3) _ rest'' in
      let (s5, processed, ended) = >>=-eq-ok (process_dest_responses times true s4) _ rest''' in
      performed ctx ctx' actions s1 s2 s3 s4 s5 deleted marked copied sent processed
        (finished ended)
    where
      finished : {x y : SyncContext} → ◌≡◌ {A = Outcome SyncError SyncContext} (ok x) (ok y) → x ≡ y
      finished h = ground arith

  -- What the sync found out of the two roots, and whether it is to go on.
  pub record Rooted (ctx : SyncContext) (go_on : Bool) (console console' : Console) : Type 0 where
    pub src_root : EntryDetails
    pub dest_root : Option EntryDetails
    pub differentiates : Bool
    pub rooted : SyncContext
    pub roots : get_root_details ctx ≡ ok ((src_root, (dest_root, differentiates)), rooted)
    pub checked :
        check_dest_root t rooted src_root dest_root differentiates console ≡ ok (go_on, console')
    pub asked_roots : Asks ctx rooted

  -- The sync that goes on from the two roots: what was planned, what was confirmed of it, and what was
  -- performed.
  pub record Ran (picks : List Pick) (ctx ctx' : SyncContext) (src_root : EntryDetails)
      (dest_root : Option EntryDetails) (differentiates : Bool) (console console' : Console)
      : Type 0 where
    pub asking : SyncContext
    pub planned : SyncContext
    pub confirmed_ctx : SyncContext
    pub actions : Actions
    pub confirmed : Actions
    pub creates : create_ancestors dest_root ctx ≡ ok asking
    pub plans :
        query_entries log10 differentiates asking src_root dest_root picks ≡ ok (planned, actions)
    pub confirms :
        confirm_actions t planned console actions ≡ ok (confirmed_ctx, console', confirmed)
    pub asked_first : Asks ctx confirmed_ctx
    pub performs : Performed confirmed confirmed_ctx ctx'

  -- The outcome of a sync: skipped, with no more than the roots asked for, or run.
  pub data Synced (picks : List Pick) (ctx ctx' : SyncContext) (console console' : Console)
      : Type 0 where
    skipped :
        (r : Rooted ctx false console console')
        → ctx' ≡ r.rooted
        → Synced picks ctx ctx' console console'
    ran :
        (console1 : Console) (r : Rooted ctx true console console1)
        → Ran picks r.rooted ctx' r.src_root r.dest_root r.differentiates console1 console'
        → Synced picks ctx ctx' console console'

  second_is :
      {A B : Type 0} (a a' : A) (b b' : B)
      → ◌≡◌ {A = Outcome SyncError (A × B)} (ok (a, b)) (ok (a', b'))
      → (a ≡ a') × (b ≡ b')
  second_is a a' b b' h = ground arith

  sync_entries-Ran :
      (ctx ctx' : SyncContext) (src_root : EntryDetails) (dest_root : Option EntryDetails)
      (differentiates : Bool) (picks : List Pick) (console console' : Console)
      → sync_entries t times delete_start copy_end log10 hidden ctx src_root dest_root
          differentiates picks console
        ≡ ok (ctx', console')
      → Ran picks ctx ctx' src_root dest_root differentiates console console'
  unfolding sync_entries
  sync_entries-Ran ctx ctx' src_root dest_root differentiates picks console console' h =
      let (ctx1, created, rest) = >>=-eq-ok (create_ancestors dest_root ctx) _ h in
      let ((ctx2, actions), queried, rest') =
        >>=-eq-ok (query_entries log10 differentiates ctx1 src_root dest_root picks) _ rest in
      let ((ctx3, console1, confirmed), agreed, rest'') =
        >>=-eq-ok (confirm_actions t ctx2 console actions) _ rest' in
      let (ctx4, done, ended) =
        >>=-eq-ok (perform t times delete_start copy_end log10 hidden ctx3 confirmed) _ rest'' in
      let (same_ctx, same_console) = second_is ctx4 ctx' console1 console' ended in
      record {
        asking = ctx1;
        planned = ctx2;
        confirmed_ctx = ctx3;
        actions = actions;
        confirmed = confirmed;
        creates = created;
        plans = queried;
        confirms = rw (sym same_console) agreed;
        asked_first = Asks-trans (create_ancestors-Asks dest_root ctx ctx1 created) (
            Asks-trans
              (query_entries-Asks log10 differentiates ctx1 ctx2 src_root dest_root picks actions
                queried)
              (Quiet-Sends
                (confirm_actions-Quiet t ctx2 ctx3 console console1 actions confirmed agreed)));
        performs = rw (sym same_ctx) (perform-Performed ctx3 ctx4 confirmed done);
      }

  pub sync_impl-Synced :
      (ctx ctx' : SyncContext) (picks : List Pick) (console console' : Console)
      → sync_impl t times delete_start copy_end log10 hidden ctx picks console ≡ ok (ctx', console')
      → Synced picks ctx ctx' console console'
  unfolding sync_impl
  sync_impl-Synced ctx ctx' picks console console' h =
      let (((src_root, (dest_root, differentiates)), ctx1), rooted, rest) =
        >>=-eq-ok (get_root_details ctx) _ h in
      let asked = get_root_details-Asks ctx ctx1 (src_root, (dest_root, differentiates)) rooted in
      let ((go_on, console1), checked, rest') =
        >>=-eq-ok (check_dest_root t ctx1 src_root dest_root differentiates console) _ rest in
      elim (Bool-cases go_on) [
        | inl on ↦
            ran console1
              (record {
                src_root = src_root;
                dest_root = dest_root;
                differentiates = differentiates;
                rooted = ctx1;
                roots = rooted;
                checked = checked ∙ ap (λ b. ok (b, console1)) on;
                asked_roots = asked;
              })
              (sync_entries-Ran ctx1 ctx' src_root dest_root differentiates picks console1 console'
                (sym (if_true _ _ on) ∙ rest'))
        | inr off ↦
            let (same, same_console) =
              second_is ctx1 ctx' console1 console' (sym (if_false _ _ off) ∙ rest') in
            skipped
              (record {
                src_root = src_root;
                dest_root = dest_root;
                differentiates = differentiates;
                rooted = ctx1;
                roots = rooted;
                checked =
                    checked ∙ ap (λ b. ok (b, console1)) off ∙ ap (λ c. ok (false, c)) same_console;
                asked_roots = asked;
              })
              (sym same)
      ]

  -- A sync that only asked, or that performed something after it had only asked, and created at most
  -- the folders above the destination.
  pub record Acted (ctx ctx' : SyncContext) : Type 0 where
    pub confirmed_ctx : SyncContext
    pub confirmed : Actions
    pub asked_first : Asks ctx confirmed_ctx
    pub performs : Performed confirmed confirmed_ctx ctx'

  pub sync_impl-Acted :
      (ctx ctx' : SyncContext) (picks : List Pick) (console console' : Console)
      → sync_impl t times delete_start copy_end log10 hidden ctx picks console ≡ ok (ctx', console')
      → Asks ctx ctx' ⊎ Acted ctx ctx'
  sync_impl-Acted ctx ctx' picks console console' h =
      elim (sync_impl-Synced ctx ctx' picks console console' h) [
        | skipped r same ↦ inl (rw (sym same) at r.asked_roots)
        | ran console1 r x ↦ inr (record {
          confirmed_ctx = x.confirmed_ctx;
          confirmed = x.confirmed;
          asked_first = Asks-trans r.asked_roots x.asked_first;
          performs = x.performs;
        })
      ]

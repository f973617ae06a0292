-- ===== src/Driver/Safety.antt =====
-- What a sync never does: change the source, and, in a dry run, change anything; and when it deletes
-- the root of the destination.
use rjrssync.Common.{
  ℕ, Bool, true, false, some, List, [], ◌∷◌, ◌++◌, All, All-append, ok, err, Outcome, ◌>>=◌,
  if◌then◌else◌, ◌≡◌, refl, ◌∙◌, arith, inl, inr, codes,
}
use rjrssync.Comms.{Comms, SyncError, root_will_not_delete}
use rjrssync.Confirm.{Terminal}
use rjrssync.Confirm.Safety.{Unattended}
use rjrssync.Driver.{sync_impl}
use rjrssync.Driver.Copies.{CopiedAll, Copied}
use rjrssync.Driver.Performs.{reads, deletions_told}
use rjrssync.Transfer.Outbox.{without_markers}
use rjrssync.Driver.Roots.{check_dest_root, root_message}
use rjrssync.Driver.Sends.{Extends, Extends-trans, Sends, asks, asks_dest}
use rjrssync.Driver.Whole.{Performed, sync_impl-Acted}
use rjrssync.Interface.{Response, Command, EntryDetails, ProgressMarker, marker, get_file_content}
use rjrssync.Path.{RootRelativePath, path_eq}
use rjrssync.Prompt.{Console}
use rjrssync.Prompt.Answers.{resolve_prompt_unattended}
use rjrssync.Query.{Pick}
use rjrssync.Spec.{DestRootNeedsDeletingBehaviour}
use rjrssync.Sync.{SyncContext, Actions, DeleteReason, CopyReason}
use rjrssync.Sync.Decide.{needs_delete}

All-weaken :
    {A : Type 0} (P Q : A → Type 0) → ((x : A) → P x → Q x) → (xs : List A) → All P xs → All Q xs
All-weaken P Q h [] _ = tt
All-weaken P Q h (x ∷ xs) (p, ps) = (h x p, All-weaken P Q h xs ps)

-- Commands that only read: the side has nothing created, written or deleted.
abbrev pub only_reads : Command → Bool
only_reads (get_file_content _) = true
only_reads c = asks c

-- Commands that change nothing, with the progress markers among them.
abbrev pub harmless : Command → Bool
harmless (marker _) = true
harmless c = only_reads c

module _ (test : Command → Bool) {m m' : Comms} where
  weaken :
      (other : Command → Bool)
      → ((c : Command) → other c ≡ true → test c ≡ true)
      → Extends other m m'
      → Extends test m m'
  weaken other h x = record {
    sent = x.sent;
    appended = x.appended;
    all_pass = All-weaken (λ c. other c ≡ true) (λ c. test c ≡ true) h x.sent x.all_pass;
  }

asks-reads : (c : Command) → asks c ≡ true → only_reads c ≡ true
asks-reads c h = ground arith

reads-reads : (dry : Bool) (c : Command) → reads dry c ≡ true → only_reads c ≡ true
reads-reads dry c h = ground arith

reads-none : (dry : Bool) (c : Command) → dry ≡ true → reads dry c ≡ true → asks c ≡ true
reads-none dry c e h = ground arith

asks_dest-harmless :
    (dry : Bool) (c : Command) → dry ≡ true → asks_dest dry c ≡ true → harmless c ≡ true
asks_dest-harmless dry c e h = ground arith

unmarked-harmless : (cs : List Command) → without_markers cs ≡ [] → All (λ c. harmless c ≡ true) cs
unmarked-harmless [] h = tt
unmarked-harmless (marker m ∷ cs) h = (refl, unmarked-harmless cs h)
unmarked-harmless (c ∷ cs) h = ground arith

deletions_dry :
    (dry : Bool) (items : List (RootRelativePath × (EntryDetails × DeleteReason)))
    → dry ≡ true
    → deletions_told dry items ≡ []
deletions_dry dry [] h = refl
deletions_dry dry ((p, (d, r)) ∷ items) h = ground (arith, deletions_dry dry items h)

copies_dry :
    (dry : Bool) (items : List (RootRelativePath × (EntryDetails × CopyReason)))
    (inbox left : List Response) (sent : List Command)
    → dry ≡ true
    → CopiedAll dry items inbox left sent
    → All (λ c. harmless c ≡ true) sent
copies_dry dry [] inbox left sent e (h, _) = rw h tt
copies_dry dry ((p, (d, r)) ∷ items) inbox left sent e (first, rest, between, split, copied, more) =
    rw split (
      All-append _ first rest (unmarked-harmless first (dry_copied dry d between first e copied))
        (copies_dry dry items between left rest e more))
  where
    dry_copied :
        (dry : Bool) (d : EntryDetails) (between : List Response) (first : List Command)
        → dry ≡ true
        → Copied dry p d inbox between first
        → without_markers first ≡ []
    dry_copied true d between first e (h, _) = h
    dry_copied false d between first e h = cc

Performed-harmless :
    (actions : Actions) (ctx ctx' : SyncContext)
    → ctx.dry_run ≡ true
    → Performed actions ctx ctx'
    → Extends harmless ctx.dest_comms ctx'.dest_comms
Performed-harmless actions ctx ctx' dry p = record {
  sent = p.deletes ++ ((marker p.start ∷ p.copies) ++ (marker p.finish ∷ []));
  appended = p.told;
  all_pass =
      All-append _ p.deletes _
        (unmarked-harmless p.deletes (p.deleted ∙ deletions_dry ctx.dry_run _ dry))
        (All-append _ (marker p.start ∷ p.copies) _
          (refl, copies_dry ctx.dry_run _ _ _ p.copies dry p.copied) (refl, tt));
}

module _ (t : Terminal) (times : ProgressMarker → ℕ) (delete_start copy_end : ℕ) (log10 : ℕ → ℕ)
    (hidden : Bool) where
  -- A sync that returns never told the source anything but to list its entries and to send the
  -- contents of files: the source is not changed.
  pub sync_impl-source :
      (ctx ctx' : SyncContext) (picks : List Pick) (console console' : Console)
      → sync_impl t times delete_start copy_end log10 hidden ctx picks console ≡ ok (ctx', console')
      → Extends only_reads ctx.src_comms ctx'.src_comms
  sync_impl-source ctx ctx' picks console console' h =
      elim (sync_impl-Acted t times delete_start copy_end log10 hidden ctx ctx' picks console
        console' h) [
          | inl asked ↦ weaken only_reads asks asks-reads asked.src_sent
          | inr ran ↦
              Extends-trans only_reads (weaken only_reads asks asks-reads ran.asked_first.src_sent)
                (weaken only_reads (reads ran.confirmed_ctx.dry_run)
                  (reads-reads ran.confirmed_ctx.dry_run) ran.performs.src_read)
        ]

  -- A dry run that returns asked the source only for its entries, and told the destination nothing
  -- that changes it: requests, and progress markers.
  pub sync_impl_dry_run :
      (ctx ctx' : SyncContext) (picks : List Pick) (console console' : Console)
      → ctx.dry_run ≡ true
      → sync_impl t times delete_start copy_end log10 hidden ctx picks console ≡ ok (ctx', console')
      → Sends asks harmless ctx ctx'
  sync_impl_dry_run ctx ctx' picks console console' dry h =
      elim (sync_impl-Acted t times delete_start copy_end log10 hidden ctx ctx' picks console
        console' h) [
          | inl asked ↦ record {
            same_mode = asked.same_mode;
            src_sent = asked.src_sent;
            dest_sent =
                weaken harmless (asks_dest ctx.dry_run) (λ c. asks_dest-harmless ctx.dry_run c dry)
                  asked.dest_sent;
          }
          | inr ran ↦
              (let still : ran.confirmed_ctx.dry_run ≡ true = ran.asked_first.same_mode ∙ dry in
                record {
                  same_mode = ran.performs.same_mode ∙ ran.asked_first.same_mode;
                  src_sent = Extends-trans asks ran.asked_first.src_sent (
                      weaken asks (reads ran.confirmed_ctx.dry_run)
                        (λ c. reads-none ran.confirmed_ctx.dry_run c still) ran.performs.src_read);
                  dest_sent =
                      Extends-trans harmless
                        (weaken harmless (asks_dest ctx.dry_run)
                          (λ c. asks_dest-harmless ctx.dry_run c dry) ran.asked_first.dest_sent)
                        (Performed-harmless ran.confirmed ran.confirmed_ctx ctx' still
                          ran.performs);
                })
        ]

-- What becomes of a destination root that is in the way, when nobody answers.
abbrev pub root_verdict : DestRootNeedsDeletingBehaviour → Outcome SyncError Bool
root_verdict DestRootNeedsDeletingBehaviour.prompt = err root_will_not_delete
root_verdict DestRootNeedsDeletingBehaviour.error = err root_will_not_delete
root_verdict DestRootNeedsDeletingBehaviour.skip = ok false
root_verdict DestRootNeedsDeletingBehaviour.delete = ok true

abbrev pub with_console : Outcome SyncError Bool → Console → Outcome SyncError (Bool × Console)
with_console o console = o >>= λ b. ok (b, console)

-- With no prepared answer and nobody at the terminal: a destination root that need not be deleted is
-- no obstacle; else the sync goes on only if the behaviour is to delete it, ends if it is to skip,
-- and fails if it is an error or a prompt.
pub check_dest_root-Unattended :
    (t : Terminal) (ctx : SyncContext) (src_root d : EntryDetails) (differentiates : Bool)
    (console : Console)
    → Unattended console
    → check_dest_root t ctx src_root (some d) differentiates console ≡ (
        if needs_delete src_root d differentiates
        then with_console (root_verdict ctx.dest_root_needs_deleting_behaviour) console
        else ok (true, console))
unfolding check_dest_root
check_dest_root-Unattended t ctx src_root d differentiates console (no_answer, nobody) = ground (
  arith,
  resolve_prompt_unattended t.is_match (root_message t ctx src_root d ++ codes ". What do?")
      ((codes "Skip", DestRootNeedsDeletingBehaviour.skip)
        ∷ (codes "Delete", DestRootNeedsDeletingBehaviour.delete)
        ∷ [])
      false DestRootNeedsDeletingBehaviour.error console no_answer nobody,
)

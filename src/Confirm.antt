-- ===== src/Confirm.antt =====
-- src/boss_sync.rs, `confirm_actions`: the user's behaviours and answers decide which of the planned
-- actions are taken.
pub mod Safety
pub mod Verdicts
use rjrssync.Common.{
  ℕ, Bool, true, false, Option, none, some, List, [], ◌∷◌, ◌++◌, Str, codes, Outcome, ok, err,
  panic, ◌>>=◌,
}
use rjrssync.Comms.{SyncError, will_not_delete, will_not_overwrite}
use rjrssync.Interface.{EntryDetails, file, folder, symlink}
use rjrssync.OrderedMap
use rjrssync.OrderedMap.{OrderedMap, iter}
use rjrssync.Path.{RootRelativePath, path_eq, PrettyPath, source, dest, pretty}
use rjrssync.Prompt.{Console, ResolvePromptResult, once, resolve_prompt}
use rjrssync.Spec.{DestFileUpdateBehaviour, DestEntryNeedsDeletingBehaviour}
use rjrssync.Sync.{
  SyncContext, Actions, DeleteReason, not_on_source, incompatible, CopyReason, not_on_dest,
  dest_newer, dest_older, same_time_and_not_skipped,
}

-- The `regex` and `console` crates: pattern matching, and the styling of a path.
pub record Terminal : Type 0 where
  pub is_match : Str → Str → Bool
  pub italic : Str → Str

abbrev pub or_else : Option ℕ → ℕ → ℕ
or_else none d = d
or_else (some c) d = c

abbrev kind_name : EntryDetails → Str
kind_name (file _ _) = codes "file"
kind_name folder = codes "folder"
kind_name (symlink _ _) = codes "symlink"

unfoldable pub pretty_src_kind : SyncContext → RootRelativePath → Str → PrettyPath
pretty_src_kind ctx path kind = record {
  side = source;
  dir_separator = or_else ctx.src_dir_separator b'/';
  root = ctx.src_root;
  path = path;
  kind = kind;
}

unfoldable pub pretty_dest_kind : SyncContext → RootRelativePath → Str → PrettyPath
pretty_dest_kind ctx path kind = record {
  side = dest;
  dir_separator = or_else ctx.dest_dir_separator b'/';
  root = ctx.dest_root;
  path = path;
  kind = kind;
}

unfoldable pub pretty_src : SyncContext → RootRelativePath → EntryDetails → PrettyPath
unfolding pretty_src_kind
pretty_src ctx path details = pretty_src_kind ctx path (kind_name details)

unfoldable pub pretty_dest : SyncContext → RootRelativePath → EntryDetails → PrettyPath
unfolding pretty_dest_kind
pretty_dest ctx path details = pretty_dest_kind ctx path (kind_name details)

-- The variables of the two loops.
pub record Confirming : Type 0 where
  pub ctx : SyncContext
  pub console : Console
  pub to_remove : List RootRelativePath

-- `for p in to_remove { map.remove(&p); }`
unfoldable pub remove_all :
    {V : Type 0}
    → List RootRelativePath
    → OrderedMap RootRelativePath V
    → OrderedMap RootRelativePath V
remove_all [] m = m
remove_all (p ∷ ps) m = remove_all ps (OrderedMap.remove p m)

module _ (t : Terminal) where
  abbrev resolve_entry :
      DestEntryNeedsDeletingBehaviour
      → Str
      → Console
      → Outcome SyncError (ResolvePromptResult DestEntryNeedsDeletingBehaviour × Console)
  resolve_entry DestEntryNeedsDeletingBehaviour.prompt msg console =
      resolve_prompt t.is_match (msg ++ codes ". What do?")
        ((codes "Skip", DestEntryNeedsDeletingBehaviour.skip)
          ∷ (codes "Delete", DestEntryNeedsDeletingBehaviour.delete)
          ∷ [])
        true DestEntryNeedsDeletingBehaviour.error console
  resolve_entry b msg console = ok (once b, console)

  abbrev remember_entry : Option DestEntryNeedsDeletingBehaviour → SyncContext → SyncContext
  remember_entry none ctx = ctx
  remember_entry (some b) ctx = record ctx { dest_entry_needs_deleting_behaviour = b }

  abbrev take_entry :
      DestEntryNeedsDeletingBehaviour → RootRelativePath → Confirming → Outcome SyncError Confirming
  take_entry DestEntryNeedsDeletingBehaviour.prompt path s = panic
  take_entry DestEntryNeedsDeletingBehaviour.error path s = err (will_not_delete path)
  take_entry DestEntryNeedsDeletingBehaviour.skip path s =
      ok (record s { to_remove = s.to_remove ++ path ∷ [] })
  take_entry DestEntryNeedsDeletingBehaviour.delete path s = ok s

  abbrev pub delete_message : SyncContext → RootRelativePath → EntryDetails → DeleteReason → Str
  delete_message ctx path d not_on_source =
      pretty t.italic (pretty_dest ctx path d)
      ++ codes " needs deleting "
      ++ codes "as it doesn't exist on the src"
  delete_message ctx path d incompatible =
      pretty t.italic (pretty_dest ctx path d)
      ++ codes " needs deleting "
      ++ codes "to allow the source entry to be copied"

  -- One round of the loop over `to_delete`.
  unfoldable pub confirm_delete :
      RootRelativePath → EntryDetails → DeleteReason → Confirming → Outcome SyncError Confirming
  confirm_delete path d reason s = do
    (r, console) ←
        resolve_entry s.ctx.dest_entry_needs_deleting_behaviour (delete_message s.ctx path d reason)
          s.console
    take_entry r.immediate_behaviour path
        (record s { ctx = remember_entry r.remembered_behaviour s.ctx; console = console })

  unfoldable pub confirm_deletes :
      List (RootRelativePath × (EntryDetails × DeleteReason))
      → Confirming
      → Outcome SyncError Confirming
  unfolding confirm_delete
  confirm_deletes [] s = ok s
  confirm_deletes ((path, (d, reason)) ∷ rest) s = do
    s' ← confirm_delete path d reason s
    confirm_deletes rest s'

  abbrev resolve_file :
      DestFileUpdateBehaviour
      → Str
      → Console
      → Outcome SyncError (ResolvePromptResult DestFileUpdateBehaviour × Console)
  resolve_file DestFileUpdateBehaviour.prompt msg console =
      resolve_prompt t.is_match (msg ++ codes ". What do?")
        ((codes "Skip", DestFileUpdateBehaviour.skip)
          ∷ (codes "Overwrite", DestFileUpdateBehaviour.overwrite)
          ∷ [])
        true DestFileUpdateBehaviour.error console
  resolve_file b msg console = ok (once b, console)

  abbrev take_file :
      DestFileUpdateBehaviour → RootRelativePath → Confirming → Outcome SyncError Confirming
  take_file DestFileUpdateBehaviour.prompt path s = panic
  take_file DestFileUpdateBehaviour.error path s = err (will_not_overwrite path)
  take_file DestFileUpdateBehaviour.skip path s =
      ok (record s { to_remove = s.to_remove ++ path ∷ [] })
  take_file DestFileUpdateBehaviour.overwrite path s = ok s

  abbrev pub copy_message : SyncContext → RootRelativePath → Str → Str
  copy_message ctx path relation =
      pretty t.italic (pretty_dest_kind ctx path (codes "file"))
      ++ relation
      ++ pretty t.italic (pretty_src_kind ctx path (codes "file"))

  abbrev remember_newer : Option DestFileUpdateBehaviour → SyncContext → SyncContext
  remember_newer none ctx = ctx
  remember_newer (some b) ctx = record ctx { dest_file_newer_behaviour = b }

  abbrev remember_older : Option DestFileUpdateBehaviour → SyncContext → SyncContext
  remember_older none ctx = ctx
  remember_older (some b) ctx = record ctx { dest_file_older_behaviour = b }

  abbrev remember_same : Option DestFileUpdateBehaviour → SyncContext → SyncContext
  remember_same none ctx = ctx
  remember_same (some b) ctx = record ctx { files_same_time_behaviour = b }

  -- One round of the loop over `to_copy`.
  unfoldable pub confirm_copy :
      RootRelativePath → CopyReason → Confirming → Outcome SyncError Confirming
  confirm_copy path not_on_dest s = ok s
  confirm_copy path dest_newer s = do
    (r, console) ←
        resolve_file s.ctx.dest_file_newer_behaviour
          (copy_message s.ctx path (codes " is newer than ")) s.console
    take_file r.immediate_behaviour path
        (record s { ctx = remember_newer r.remembered_behaviour s.ctx; console = console })
  confirm_copy path dest_older s = do
    (r, console) ←
        resolve_file s.ctx.dest_file_older_behaviour
          (copy_message s.ctx path (codes " is older than ")) s.console
    take_file r.immediate_behaviour path
        (record s { ctx = remember_older r.remembered_behaviour s.ctx; console = console })
  confirm_copy path same_time_and_not_skipped s = do
    (r, console) ←
        resolve_file s.ctx.files_same_time_behaviour
          (copy_message s.ctx path (codes " has the same modified time as ")) s.console
    take_file r.immediate_behaviour path
        (record s { ctx = remember_same r.remembered_behaviour s.ctx; console = console })

  unfoldable pub confirm_copies :
      List (RootRelativePath × (EntryDetails × CopyReason))
      → Confirming
      → Outcome SyncError Confirming
  unfolding confirm_copy
  confirm_copies [] s = ok s
  confirm_copies ((path, (_, reason)) ∷ rest) s = do
    s' ← confirm_copy path reason s
    confirm_copies rest s'

  unfoldable pub confirm_actions :
      SyncContext → Console → Actions → Outcome SyncError (SyncContext × Console × Actions)
  unfolding confirm_deletes confirm_copies remove_all
  confirm_actions ctx console actions = do
    s ←
        confirm_deletes (iter actions.to_delete)
          (record { ctx = ctx; console = console; to_remove = [] })
    s' ← confirm_copies (iter actions.to_copy) (record s { to_remove = [] })
    ok (
      s'.ctx,
      s'.console,
      record {
        to_delete = remove_all s.to_remove actions.to_delete;
        to_copy = remove_all s'.to_remove actions.to_copy;
      },
    )

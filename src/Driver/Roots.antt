-- ===== src/Driver/Roots.antt =====
-- src/boss_sync.rs, `get_root_details` and `check_dest_root_delete_ok`: the checks of the two roots
-- at the start of a sync.
use rjrssync.Common.{
  ℕ, Bool, true, false, ◌||◌, ◌&&◌, Option, none, some, [], ◌∷◌, ◌++◌, Str, codes, Outcome, ok, err,
  panic, ◌>>=◌, if◌then◌else◌, last?, nat_beq,
}
use rjrssync.Comms.{
  SyncError, src_missing, src_trailing_slash, dest_trailing_slash, unexpected_from_src,
  unexpected_from_dest, root_will_not_delete, send_command, receive_response,
}
use rjrssync.Confirm.{Terminal, pretty_src, pretty_dest}
use rjrssync.Interface.{
  EntryDetails, file, folder, symlink, set_root, create_root_ancestors, Response, root_details,
}
use rjrssync.Path.{root, path_eq, pretty}
use rjrssync.Prompt.{Console, resolve_prompt}
use rjrssync.Spec.{DestRootNeedsDeletingBehaviour}
use rjrssync.Sync.{SyncContext}
use rjrssync.Sync.Decide.{needs_delete}
use rjrssync.Comms.{Comms}

abbrev pub is_separator : ℕ → Bool
is_separator c = nat_beq c b'/' || nat_beq c b'\\'

abbrev pub is_file_or_symlink : EntryDetails → Bool
is_file_or_symlink (file _ _) = true
is_file_or_symlink folder = false
is_file_or_symlink (symlink _ _) = true

-- The error is `problem`, which says of which side the path is. An empty path panics.
unfoldable pub validate_trailing_slash : Str → EntryDetails → SyncError → Outcome {0} SyncError Unit
validate_trailing_slash root_path d problem =
    if is_file_or_symlink d
    then elim (last? root_path) [
      | none ↦ panic
      | some c ↦ if is_separator c then err problem else ok tt
    ]
    else ok tt

-- The last part of a path between the separators.
abbrev pub last_part_from : Str → Str → Str
last_part_from part [] = part
last_part_from part (c ∷ path) = last_part_from (if is_separator c then [] else part ++ c ∷ []) path

abbrev pub last_part : Str → Str
last_part path = last_part_from [] path

abbrev pub ends_in_slash : Str → Bool
ends_in_slash path = elim (last? path) [ none ↦ false | some c ↦ is_separator c ]

abbrev pub with_src : Comms → SyncContext → SyncContext
with_src m ctx = record ctx { src_comms = m }

abbrev pub with_dest : Comms → SyncContext → SyncContext
with_dest m ctx = record ctx { dest_comms = m }

-- The match on the response of the source.
unfoldable pub take_src_details :
    SyncContext → Response → Outcome SyncError (EntryDetails × SyncContext)
unfolding validate_trailing_slash
take_src_details ctx (root_details none _ separator) = err (src_missing ctx.src_root)
take_src_details ctx (root_details (some d) _ separator) = do
  _ ← validate_trailing_slash ctx.src_root d (src_trailing_slash ctx.src_root)
  ok (d, record ctx { src_dir_separator = some separator })
take_src_details ctx r = err (unexpected_from_src r)

unfoldable pub src_details : SyncContext → Outcome SyncError (EntryDetails × SyncContext)
unfolding take_src_details
src_details ctx = do
  m ← send_command (set_root ctx.src_root) ctx.src_comms
  (r, m') ← receive_response m
  take_src_details (with_src m' ctx) r

-- The match on the response of the destination, and whether it tells kinds of symlinks apart.
unfoldable pub take_dest_details :
    SyncContext → Response → Outcome SyncError (Option EntryDetails × (Bool × SyncContext))
unfolding validate_trailing_slash
take_dest_details ctx (root_details none differentiates separator) =
    ok (none, (differentiates, record ctx { dest_dir_separator = some separator }))
take_dest_details ctx (root_details (some d) differentiates separator) = do
  _ ← validate_trailing_slash ctx.dest_root d (dest_trailing_slash ctx.dest_root)
  ok (some d, (differentiates, record ctx { dest_dir_separator = some separator }))
take_dest_details ctx r = err (unexpected_from_dest r)

unfoldable pub dest_details :
    SyncContext → Outcome SyncError (Option EntryDetails × (Bool × SyncContext))
unfolding take_dest_details
dest_details ctx = do
  m ← send_command (set_root ctx.dest_root) ctx.dest_comms
  (r, m') ← receive_response m
  take_dest_details (with_dest m' ctx) r

abbrev pub take_moved :
    SyncContext → Response → Outcome SyncError (Option EntryDetails × SyncContext)
take_moved ctx (root_details d _ _) = ok (d, ctx)
take_moved ctx r = err (unexpected_from_dest r)

-- A file goes inside the folder that the user wrote with a slash: the name is appended to the
-- destination, which is asked again.
unfoldable pub move_inside :
    EntryDetails
    → Option EntryDetails
    → SyncContext
    → Outcome SyncError (Option EntryDetails × SyncContext)
move_inside src_root dest_root ctx =
    if is_file_or_symlink src_root && ends_in_slash ctx.dest_root
    then (do
      m ← send_command (set_root (ctx.dest_root ++ last_part ctx.src_root)) ctx.dest_comms
      (r, m') ← receive_response m
      take_moved (with_dest m' (record ctx { dest_root = ctx.dest_root ++ last_part ctx.src_root }))
          r)
    else ok (dest_root, ctx)

unfoldable pub get_root_details :
    SyncContext → Outcome SyncError ((EntryDetails × (Option EntryDetails × Bool)) × SyncContext)
unfolding src_details dest_details move_inside
get_root_details ctx = do
  (src_root, ctx1) ← src_details ctx
  (dest_root, (differentiates, ctx2)) ← dest_details ctx1
  (dest_root', ctx3) ← move_inside src_root dest_root ctx2
  ok ((src_root, (dest_root', differentiates)), ctx3)

module _ (t : Terminal) where
  abbrev pub root_message : SyncContext → EntryDetails → EntryDetails → Str
  root_message ctx src_root dest_root =
      pretty t.italic (pretty_dest ctx root dest_root)
      ++ codes " needs deleting as it is incompatible with "
      ++ pretty t.italic (pretty_src ctx root src_root)

  abbrev resolve_root :
      DestRootNeedsDeletingBehaviour
      → Str
      → Console
      → Outcome SyncError (DestRootNeedsDeletingBehaviour × Console)
  resolve_root DestRootNeedsDeletingBehaviour.prompt msg console = do
    (r, console') ←
        resolve_prompt t.is_match (msg ++ codes ". What do?")
          ((codes "Skip", DestRootNeedsDeletingBehaviour.skip)
            ∷ (codes "Delete", DestRootNeedsDeletingBehaviour.delete)
            ∷ [])
          false DestRootNeedsDeletingBehaviour.error console
    ok (r.immediate_behaviour, console')
  resolve_root b msg console = ok (b, console)

  abbrev pub root_ok : DestRootNeedsDeletingBehaviour → Outcome SyncError Bool
  root_ok DestRootNeedsDeletingBehaviour.prompt = panic
  root_ok DestRootNeedsDeletingBehaviour.error = err root_will_not_delete
  root_ok DestRootNeedsDeletingBehaviour.skip = ok false
  root_ok DestRootNeedsDeletingBehaviour.delete = ok true

  unfoldable pub check_dest_root_delete_ok :
      SyncContext → EntryDetails → EntryDetails → Console → Outcome SyncError (Bool × Console)
  check_dest_root_delete_ok ctx src_root dest_root console = do
    (b, console') ←
        resolve_root ctx.dest_root_needs_deleting_behaviour (root_message ctx src_root dest_root)
          console
    go_on ← root_ok b
    ok (go_on, console')

  -- Whether the sync goes on.
  unfoldable pub check_dest_root :
      SyncContext
      → EntryDetails
      → Option EntryDetails
      → Bool
      → Console
      → Outcome SyncError (Bool × Console)
  unfolding check_dest_root_delete_ok
  check_dest_root ctx src_root none differentiates console = ok (true, console)
  check_dest_root ctx src_root (some d) differentiates console =
      if needs_delete src_root d differentiates
      then check_dest_root_delete_ok ctx src_root d console
      else ok (true, console)

unfoldable pub create_ancestors : Option EntryDetails → SyncContext → Outcome SyncError SyncContext
create_ancestors (some d) ctx = ok ctx
create_ancestors none ctx =
    if ctx.dry_run
    then ok ctx
    else (do m ← send_command create_root_ancestors ctx.dest_comms; ok (with_dest m ctx))

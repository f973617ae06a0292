-- ===== src/Tests/Frontends.antt =====
-- The command line at small inputs.
use rjrssync.Common.{All, false, none, some, [], ◌∷◌, ok, ◌≡◌, refl, codes, str_beq}
use rjrssync.Filter.{RegexCrate, apply_filters, compile_filters, filter_kind, read_filters}
use rjrssync.Filter.Last.{selected, apply_filters-compile_filters}
use rjrssync.Frontend.RemotePath.{
  RemotePathDesc, from_str, print, is_empty, print-from_str, from_str-print, split_once,
}
use rjrssync.Frontend.SpecFile.{
  Reading, Yaml, text, array, hash, nil, cons, end, entry, parse_spec_file, spec_keys, parse_string,
  parse_sync_spec, push_syncs, sync_keys,
}
use rjrssync.Frontend.Resolve.{BossCliArgs, resolve_spec, initial_spec, override_sync}
use rjrssync.Frontend.Overrides.{
  NeverDestroys, Obeys, resolve_spec-NeverDestroys, resolve_spec-Obeys,
}
use rjrssync.Frontend.Paths.{HasPaths, resolve_spec-HasPaths}
use rjrssync.Interface.{FilterKind}
use rjrssync.Spec.{
  Spec, default_spec, default_sync_spec, DestFileUpdateBehaviour, DestEntryNeedsDeletingBehaviour,
  DestRootNeedsDeletingBehaviour, AllDestructiveBehaviour,
}
use rjrssync.Tests.Queries.{path}

abbrev remote : RemotePathDesc
remote = record { username = codes "me"; hostname = codes "host"; path = codes "/d" }

print-from_str_example : (print remote ≡ codes "me@host:/d") × (is_empty remote.path ≡ false)
unfolding from_str split_once
print-from_str_example = print-from_str (codes "me@host:/d") remote refl

from_str-print_example : from_str (print remote) ≡ ok remote
from_str-print_example =
    from_str-print (codes "me") (codes "host") (codes "/d") refl refl refl refl refl refl

-- A drive letter is no host.
from_str_drive :
    from_str (codes "C:\\d") ≡ ok (record { username = []; hostname = []; path = codes "C:\\d" })
unfolding from_str split_once
from_str_drive = refl

abbrev document : Yaml
document = hash (
    entry (text (codes "syncs"))
      (array (
        cons
          (hash (
            entry (text (codes "src")) (text (codes "a"))
              (entry (text (codes "dest")) (text (codes "b")) end)))
          nil))
      end)

abbrev reading : Reading
reading = record {
  load = λ s. some (document ∷ []);
  file_update = λ s. none;
  entry_needs_deleting = λ s. none;
  root_needs_deleting = λ s. none;
  deploy = λ s. none;
}

abbrev args : BossCliArgs
args = record {
  src = none;
  dest = none;
  spec = some (codes "spec.yaml");
  filter = codes "+x" ∷ [];
  deploy = none;
  dest_file_newer = none;
  dest_file_older = some DestFileUpdateBehaviour.skip;
  dest_entry_needs_deleting = none;
  dest_root_needs_deleting = none;
  files_same_time = none;
  all_destructive_behaviour = some AllDestructiveBehaviour.error;
}

abbrev resolved : Spec
resolved = record default_spec {
  syncs =
      record default_sync_spec {
        src = codes "a";
        dest = codes "b";
        filters = codes "+x" ∷ [];
        dest_file_newer_behaviour = DestFileUpdateBehaviour.error;
        dest_file_older_behaviour = DestFileUpdateBehaviour.skip;
        dest_entry_needs_deleting_behaviour = DestEntryNeedsDeletingBehaviour.error;
        dest_root_needs_deleting_behaviour = DestRootNeedsDeletingBehaviour.error;
      }
      ∷ [];
}

resolve_run : resolve_spec reading args ≡ ok resolved
unfolding resolve_spec initial_spec override_sync parse_spec_file spec_keys push_syncs
    parse_sync_spec sync_keys parse_string
resolve_run = refl

resolve_spec-NeverDestroys_example : All NeverDestroys resolved.syncs
resolve_spec-NeverDestroys_example =
    resolve_spec-NeverDestroys reading args resolved AllDestructiveBehaviour.error resolve_run refl
      (λ e. cc) ((λ e. cc), (λ e. cc), (λ e. cc), (λ e. cc), (λ e. cc))

resolve_spec-Obeys_example : All (Obeys args) resolved.syncs
resolve_spec-Obeys_example = resolve_spec-Obeys reading args resolved resolve_run

resolve_spec-HasPaths_example : All HasPaths resolved.syncs
resolve_spec-HasPaths_example =
    resolve_spec-HasPaths reading args resolved (λ r e. cc) (λ r e. cc) resolve_run

-- A crate whose patterns match just themselves.
abbrev crate : RegexCrate
crate = record { compile_error = λ ps. none; is_match = str_beq }

apply_filters-compile_filters_example :
    apply_filters crate (path "x") (record {
      regex_set = codes "^x$" ∷ codes "^y$" ∷ [];
      kinds = FilterKind.include ∷ FilterKind.exclude ∷ [];
    })
    ≡ ok (selected crate (codes "+x" ∷ codes "-y" ∷ []) (path "x"))
unfolding compile_filters read_filters filter_kind
apply_filters-compile_filters_example =
    apply_filters-compile_filters crate (codes "+x" ∷ codes "-y" ∷ [])
      (record {
        regex_set = codes "^x$" ∷ codes "^y$" ∷ [];
        kinds = FilterKind.include ∷ FilterKind.exclude ∷ [];
      })
      (path "x") refl

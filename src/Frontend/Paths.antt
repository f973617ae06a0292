-- ===== src/Frontend/Paths.antt =====
-- Where the paths of a sync come from.
use rjrssync.Common.{
  All, false, Option, none, some, List, [], ◌∷◌, ◌++◌, Str, map, Outcome, ok, >>=-eq-ok, ◌≡◌, refl,
  ap, sym, arith, Option-cases, ◌⊎◌, inl, inr, str_eq,
}
use rjrssync.Frontend.{UsageError}
use rjrssync.Frontend.RemotePath.{RemotePathDesc, is_empty}
use rjrssync.Frontend.SpecFile.{
  Reading, Yaml, Yamls, Entries, nil, cons, array, hash, other, text, end, entry, as_hash,
  sync_keys, check_sync, parse_sync_spec, push_syncs, parse_syncs, spec_key, spec_keys,
  parse_spec_file, parse_string, parse_behaviour,
}
use rjrssync.Frontend.Resolve.{BossCliArgs, resolve_spec, override_sync, initial_spec}
use rjrssync.Frontend.Overrides.{syncs_made}
use rjrssync.Spec.{SyncSpec, default_sync_spec, Spec, default_spec}

-- Both paths of the sync are there.
abbrev pub HasPaths : SyncSpec → Type 0
HasPaths sync = (is_empty sync.src ≡ false) × (is_empty sync.dest ≡ false)

All-append : {A : Type 0} (P : A → Type 0) (xs ys : List A) → All P xs → All P ys → All P (xs ++ ys)
All-append P [] ys _ h = h
All-append P (x ∷ xs) ys (p, ps) h = (p, All-append P xs ys ps h)

check_sync-HasPaths : (r sync : SyncSpec) → check_sync r ≡ ok sync → HasPaths sync
check_sync-HasPaths r sync h = ground arith

parse_sync_spec-HasPaths :
    (reading : Reading) (y : Yaml) (sync : SyncSpec)
    → parse_sync_spec reading y ≡ ok sync
    → HasPaths sync
unfolding parse_sync_spec
parse_sync_spec-HasPaths reading y sync h =
    let (entries, _, rest) = >>=-eq-ok (as_hash y) _ h in
    let (r, _, checked) = >>=-eq-ok (sync_keys reading entries default_sync_spec) _ rest in
    check_sync-HasPaths r sync checked

ok-injective : {A : Type 0} {x y : A} → ◌≡◌ {A = Outcome UsageError A} (ok x) (ok y) → x ≡ y
ok-injective h = cc

push_syncs-HasPaths :
    (reading : Reading) (ys : Yamls) (syncs syncs' : List SyncSpec)
    → push_syncs reading ys syncs ≡ ok syncs'
    → All HasPaths syncs
    → All HasPaths syncs'
unfolding push_syncs
push_syncs-HasPaths reading nil syncs syncs' h a = rw (sym (ok-injective h)) a
push_syncs-HasPaths reading (cons y ys) syncs syncs' h a =
    let (sync, parsed, rest) = >>=-eq-ok (parse_sync_spec reading y) _ h in
    push_syncs-HasPaths reading ys (syncs ++ sync ∷ []) syncs' rest
      (All-append HasPaths syncs (sync ∷ []) a (parse_sync_spec-HasPaths reading y sync parsed, tt))

-- Only the key `syncs` adds to the syncs.
spec_key-syncs :
    (reading : Reading) (k : Str) (v : Yaml) (r r' : Spec)
    → spec_key reading k v r ≡ ok r'
    → (r'.syncs ≡ r.syncs) ⊎ (parse_syncs reading v r.syncs ≡ ok r'.syncs)
unfolding parse_string parse_behaviour
spec_key-syncs reading k v r r' h = ground arith

parse_syncs-HasPaths :
    (reading : Reading) (v : Yaml) (syncs syncs' : List SyncSpec)
    → parse_syncs reading v syncs ≡ ok syncs'
    → All HasPaths syncs
    → All HasPaths syncs'
parse_syncs-HasPaths reading (array ys) syncs syncs' h a =
    push_syncs-HasPaths reading ys syncs syncs' h a
parse_syncs-HasPaths reading (text s) syncs syncs' h a = cc
parse_syncs-HasPaths reading (hash s) syncs syncs' h a = cc
parse_syncs-HasPaths reading other syncs syncs' h a = cc

spec_keys-HasPaths :
    (reading : Reading) (entries : Entries) (r r' : Spec)
    → spec_keys reading entries r ≡ ok r'
    → All HasPaths r.syncs
    → All HasPaths r'.syncs
unfolding spec_keys
spec_keys-HasPaths reading end r r' h a = rw (sym (ok-injective h)) a
spec_keys-HasPaths reading (entry (text k) v more) r r' h a =
    let (s, read, rest) = >>=-eq-ok (spec_key reading k v r) _ h in
    spec_keys-HasPaths reading more s r' rest (elim (spec_key-syncs reading k v r s read) [
      | inl same ↦ rw same a
      | inr added ↦ parse_syncs-HasPaths reading v r.syncs s.syncs added a
    ])
spec_keys-HasPaths reading (entry (array _) v more) r r' h a = cc
spec_keys-HasPaths reading (entry (hash _) v more) r r' h a = cc
spec_keys-HasPaths reading (entry other v more) r r' h a = cc

parse_spec_file-HasPaths :
    (reading : Reading) (path : Str) (spec : Spec)
    → parse_spec_file reading path ≡ ok spec
    → All HasPaths spec.syncs
unfolding parse_spec_file
parse_spec_file-HasPaths reading path spec h = loaded (reading.load path) refl
  where
    loaded : (o : Option (List Yaml)) → reading.load path ≡ o → All HasPaths spec.syncs
    loaded none e = absurd (cc (rw (e, parse_spec_file) at h))
    loaded (some []) e = absurd (cc (rw (e, parse_spec_file) at h))
    loaded (some (doc ∷ docs)) e =
        let (entries, _, rest) = >>=-eq-ok (as_hash doc) _ (rw (e, parse_spec_file) at h) in
        spec_keys-HasPaths reading entries default_spec spec rest tt

override_sync-HasPaths :
    (args : BossCliArgs) (syncs : List SyncSpec)
    → All HasPaths syncs
    → All HasPaths (map (override_sync args) syncs)
unfolding override_sync
override_sync-HasPaths args [] _ = tt
override_sync-HasPaths args (sync ∷ syncs) (p, ps) =
    (ground arith, override_sync-HasPaths args syncs ps)

initial_spec-HasPaths :
    (reading : Reading) (args : BossCliArgs) (spec : Spec)
    → ((r : RemotePathDesc) → args.src ≡ some r → is_empty r.path ≡ false)
    → ((r : RemotePathDesc) → args.dest ≡ some r → is_empty r.path ≡ false)
    → initial_spec reading args ≡ ok spec
    → All HasPaths spec.syncs
unfolding initial_spec
initial_spec-HasPaths reading args spec src_there dest_there h = elim (Option-cases args.spec) [
  | inr (path, given) ↦ parse_spec_file-HasPaths reading path spec (rw (given, initial_spec) at h)
  | inl no_file ↦ elim (Option-cases args.src) [
    | inl missing ↦ absurd (cc (rw (no_file, missing, initial_spec) at h))
    | inr (s, is_s) ↦ elim (Option-cases args.dest) [
      | inl missing ↦ absurd (cc (rw (no_file, is_s, missing, initial_spec) at h))
      | inr (d, is_d) ↦
          rw
            (ap (λ r. Spec.syncs r)
              (sym (ok-injective (rw (no_file, is_s, is_d, initial_spec) at h))))
            ((src_there s is_s, dest_there d is_d), tt)
    ]
  ]
]

-- If the paths of the command line are not empty, as `RemotePathDesc` makes sure, no sync that
-- `resolve_spec` returns lacks its source or its destination path, also with a spec file.
pub resolve_spec-HasPaths :
    (reading : Reading) (args : BossCliArgs) (spec : Spec)
    → ((r : RemotePathDesc) → args.src ≡ some r → is_empty r.path ≡ false)
    → ((r : RemotePathDesc) → args.dest ≡ some r → is_empty r.path ≡ false)
    → resolve_spec reading args ≡ ok spec
    → All HasPaths spec.syncs
unfolding resolve_spec
resolve_spec-HasPaths reading args spec src_there dest_there returned =
    let (initial, begun, made) = >>=-eq-ok (initial_spec reading args) _ returned in
    rw (syncs_made args initial spec made) (
      override_sync-HasPaths args initial.syncs
        (initial_spec-HasPaths reading args initial src_there dest_there begun))

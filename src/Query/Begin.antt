-- ===== src/Query/Begin.antt =====
-- The start of `query_entries`: the two roots, and the requests for the entries below them.
use rjrssync.Common.{
  ℕ, Bool, true, false, Option, none, some, List, [], ◌∷◌, ◌++◌, ok, ◌>>=◌, ◌≡◌, refl, arith,
}
use rjrssync.Common.HashMap.{keys, NodupKeys, get-nil}
use rjrssync.Comms.{send_command}
use rjrssync.Interface.{EntryDetails, file, folder, symlink, Response, get_entries}
use rjrssync.OrderedMap.Contents.{Nodup}
use rjrssync.OrderedMap.Tracks.{new-Tracks}
use rjrssync.Path.{root, path_eq}
use rjrssync.Spec.{DestFileUpdateBehaviour}
use rjrssync.Sync.{SyncContext}
use rjrssync.Query.{Round, empty_query, begin, count_src, count_dest, ask_src, ask_dest, begin_dest}
use rjrssync.Query.Steps.{
  Listing, Agrees, process_src_entry-Agrees, process_dest_entry-Agrees, contains-keys,
}
use rjrssync.Query.Loop.{coming, left, Waiting}

-- A side is asked for its entries only if its root is a folder.
abbrev pub asked : EntryDetails → Listing → Option Listing
asked folder l = some l
asked _ l = none

abbrev pub asked_dest : Option EntryDetails → Listing → Option Listing
asked_dest none l = none
asked_dest (some d) l = asked d l

-- All that a side has: its root, and its entries if the root is a folder.
abbrev pub contents : EntryDetails → Listing → Listing
contents d l = (root, d) ∷ left (asked d l)

-- The root of a destination that exists.
abbrev pub root_of : Option EntryDetails → Listing
root_of none = []
root_of (some d) = (root, d) ∷ []

abbrev pub dest_contents : Option EntryDetails → Listing → Listing
dest_contents d l = root_of d ++ left (asked_dest d l)

pub Nodup-keys : (l : Listing) → NodupKeys l → Nodup (keys l)
Nodup-keys [] _ = tt
Nodup-keys ((p, d) ∷ l) (fresh, u) = (contains-keys p l fresh, Nodup-keys l u)

empty-Agrees :
    (differentiates : Bool) (same_time : DestFileUpdateBehaviour)
    → Agrees differentiates same_time [] [] empty_query
empty-Agrees differentiates same_time = record {
  src_entries = new-Tracks _ (λ k. get-nil k);
  dest_entries = new-Tracks _ (λ k. get-nil k);
  to_delete = new-Tracks _ (λ k. ground (arith, get-nil {V = EntryDetails} k));
  to_copy = new-Tracks _ (λ k. ground (arith, get-nil {V = EntryDetails} k));
}

module _ (log10 : ℕ → ℕ) (differentiates : Bool) (same_time : DestFileUpdateBehaviour)
    {srcs dests : Listing} where
  -- Asking a side for its entries: what was to come later now belongs to the loop.
  ask_src-Waiting :
      (src_later dest_later : List Response) (s : EntryDetails) (l : Listing) (r : Round)
      → r.ctx.src_comms.sends ≡ true
      → Waiting log10 differentiates same_time
          (coming (asked s l) src_later)
          dest_later
          srcs
          none
          dests
          none
          r
      → (r' : Round) × (ask_src log10 differentiates s r ≡ ok r')
        × Waiting log10 differentiates same_time src_later dest_later srcs (asked s l) dests none r'
        × (r'.ctx.dest_comms.sends ≡ r.ctx.dest_comms.sends)
  unfolding send_command
  ask_src-Waiting src_later dest_later (file t n) l r sends w = (r, refl, w, refl)
  ask_src-Waiting src_later dest_later (symlink k t) l r sends w = (r, refl, w, refl)
  ask_src-Waiting src_later dest_later folder l r sends w = (
    record r {
      ctx = record (r.ctx) {
        src_comms = record (r.ctx.src_comms) {
          outbox = r.ctx.src_comms.outbox ++ get_entries (r.ctx.filters) ∷ [];
        };
      };
      src_done = false;
    },
    ground arith,
    record {
      agrees = w.agrees;
      behaviour = w.behaviour;
      src_flag = refl;
      dest_flag = w.dest_flag;
      src_inbox = w.src_inbox;
      dest_inbox = w.dest_inbox;
    },
    refl,
  )

  ask_dest-Waiting :
      (src_later dest_later : List Response) (d : EntryDetails) (l : Listing) (r : Round)
      {src_left : Option Listing}
      → r.ctx.dest_comms.sends ≡ true
      → Waiting log10 differentiates same_time src_later
          (coming (asked d l) dest_later)
          srcs
          src_left
          dests
          none
          r
      → (r' : Round) × (ask_dest log10 differentiates d r ≡ ok r')
        × Waiting log10 differentiates same_time src_later dest_later srcs src_left dests
            (asked d l)
            r'
  unfolding send_command
  ask_dest-Waiting src_later dest_later (file t n) l r sends w = (r, refl, w)
  ask_dest-Waiting src_later dest_later (symlink k t) l r sends w = (r, refl, w)
  ask_dest-Waiting src_later dest_later folder l r sends w = (
    record r {
      ctx = record (r.ctx) {
        dest_comms = record (r.ctx.dest_comms) {
          outbox = r.ctx.dest_comms.outbox ++ get_entries (r.ctx.filters) ∷ [];
        };
      };
      dest_done = false;
    },
    ground arith,
    record {
      agrees = w.agrees;
      behaviour = w.behaviour;
      src_flag = w.src_flag;
      dest_flag = refl;
      src_inbox = w.src_inbox;
      dest_inbox = w.dest_inbox;
    },
  )

module _ (log10 : ℕ → ℕ) (differentiates : Bool) (same_time : DestFileUpdateBehaviour)
    (src_later dest_later : List Response) where
  begin_dest-Waiting :
      {srcs : Listing} (dest_root : Option EntryDetails) (l : Listing) (r : Round)
      {src_left : Option Listing}
      → r.ctx.dest_comms.sends ≡ true
      → Waiting log10 differentiates same_time src_later
          (coming (asked_dest dest_root l) dest_later)
          srcs
          src_left
          []
          none
          r
      → (r' : Round) × (begin_dest log10 differentiates dest_root r ≡ ok r')
        × Waiting log10 differentiates same_time src_later dest_later srcs src_left
            (root_of dest_root)
            (asked_dest dest_root l)
            r'
  unfolding begin_dest count_dest
  begin_dest-Waiting none l r sends w = (r, refl, w)
  begin_dest-Waiting {srcs} (some d) l r sends w =
      let (query, processed, agrees) =
        process_dest_entry-Agrees differentiates same_time r.ctx w.behaviour srcs [] r.query root d
          w.agrees (get-nil root) in
      let (r', asked, w') =
        ask_dest-Waiting log10 differentiates same_time src_later dest_later d l
          (record r { ctx = count_dest (r.ctx) d; query = query }) (ground (arith, sends))
          (record {
            agrees = agrees;
            behaviour = ground (arith, w.behaviour);
            src_flag = w.src_flag;
            dest_flag = w.dest_flag;
            src_inbox = ground (arith, w.src_inbox);
            dest_inbox = ground (arith, w.dest_inbox);
          }) in
      (r', rw (processed, ◌>>=◌) asked, w')

  -- Both roots are taken up, and the sides whose root is a folder are asked for their entries.
  pub begin-Waiting :
      (ctx : SyncContext) (src_root : EntryDetails) (dest_root : Option EntryDetails)
      (srcs dests : Listing)
      → ctx.files_same_time_behaviour ≡ same_time
      → ctx.src_comms.sends ≡ true
      → ctx.dest_comms.sends ≡ true
      → ctx.src_comms.inbox ≡ coming (asked src_root srcs) src_later
      → ctx.dest_comms.inbox ≡ coming (asked_dest dest_root dests) dest_later
      → (r : Round) × (begin log10 differentiates ctx src_root dest_root ≡ ok r)
        × Waiting log10 differentiates same_time src_later dest_later
            ((root, src_root) ∷ [])
            (asked src_root srcs)
            (root_of dest_root)
            (asked_dest dest_root dests)
            r
  unfolding begin count_src
  begin-Waiting ctx src_root dest_root srcs dests behaviour src_sends dest_sends src_inbox
        dest_inbox =
      let (query, processed, agrees) =
        process_src_entry-Agrees differentiates same_time log10 ctx behaviour [] [] empty_query root
          src_root (empty-Agrees differentiates same_time) (get-nil root) in
      let (r, asked, w, sends) =
        ask_src-Waiting log10 differentiates same_time src_later
          (coming (asked_dest dest_root dests) dest_later) src_root srcs
          (record {
            ctx = count_src log10 ctx src_root;
            query = query;
            src_done = true;
            dest_done = true;
          })
          (ground (arith, src_sends))
          (record {
            agrees = agrees;
            behaviour = ground (arith, behaviour);
            src_flag = refl;
            dest_flag = refl;
            src_inbox = ground (arith, src_inbox);
            dest_inbox = ground (arith, dest_inbox);
          }) in
      let (r', begun, w') =
        begin_dest-Waiting dest_root dests r (ground (arith, sends, dest_sends)) w in
      (r', rw (processed, ◌>>=◌) (rw (asked, ◌>>=◌) begun), w')

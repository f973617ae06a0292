-- ===== src/Query/Loop.antt =====
-- The loop of `query_entries`: with complete listings from both sides it ends, for every order in
-- which `select_ready` serves them.
use rjrssync.Common.{
  ℕ, suc, Bool, true, false, ◌&&◌, Option, none, some, List, [], ◌∷◌, ◌++◌, ok, length, ◌≡◌, refl,
  arith, append_assoc, append-nil, ◌>>=◌,
}
use rjrssync.Common.HashMap.{get, NodupKeys}
use rjrssync.Comms.{receive_response}
use rjrssync.Interface.{Response, entry, end_of_entries, EntryDetails}
use rjrssync.Path.{RootRelativePath, path_eq}
use rjrssync.Spec.{DestFileUpdateBehaviour}
use rjrssync.Sync.{SyncContext}
use rjrssync.Query.{Pick, from_src, from_dest, Round, round, loop, count_src, count_dest}
use rjrssync.Query.Steps.{Listing, Agrees, process_src_entry-Agrees, process_dest_entry-Agrees}

-- What a doer answers to `GetEntries`: its entries, then `EndOfEntries`.
abbrev pub answers : Listing → List Response
answers [] = end_of_entries ∷ []
answers ((p, d) ∷ l) = entry p d ∷ answers l

-- What a side still sends: `none` when it is done. The rest is for later phases.
abbrev pub coming : Option Listing → List Response → List Response
coming none later = later
coming (some l) later = answers l ++ later

abbrev pub left : Option Listing → Listing
left none = []
left (some l) = l

abbrev pub is_done : Option Listing → Bool
is_done none = true
is_done (some l) = false

abbrev pub messages : Option Listing → ℕ
messages none = 0
messages (some l) = suc (length l)

abbrev pub src_picks : List Pick → ℕ
src_picks [] = 0
src_picks (from_src ∷ picks) = suc (src_picks picks)
src_picks (from_dest ∷ picks) = src_picks picks

abbrev pub dest_picks : List Pick → ℕ
dest_picks [] = 0
dest_picks (from_src ∷ picks) = dest_picks picks
dest_picks (from_dest ∷ picks) = suc (dest_picks picks)

present_middle :
    (p k : RootRelativePath) (d : EntryDetails) (l m : Listing)
    → get k (l ++ (p, d) ∷ m) ≡ none
    → path_eq.beq p k ≡ false
unfolding get
present_middle p k d [] m h = ground arith
present_middle p k d ((j, e) ∷ l) m h = ground (arith, present_middle p k d l m)

-- A key of a duplicate-free list does not stand before its place.
pub fresh_key :
    (p : RootRelativePath) (d : EntryDetails) (l m : Listing)
    → NodupKeys (l ++ (p, d) ∷ m)
    → get p l ≡ none
unfolding get
fresh_key p d [] m u = refl
fresh_key p d ((k, e) ∷ l) m (fresh, u) = ground (
  arith,
  fresh_key p d l m u,
  present_middle p k d l m fresh,
  path_eq.beq_iff k p,
  path_eq.beq_iff p k,
)

module _ (log10 : ℕ → ℕ) (differentiates : Bool) (same_time : DestFileUpdateBehaviour)
    (src_later dest_later : List Response) where
  -- The loop's state, with what each side has sent and still sends.
  pub record Waiting (srcs : Listing) (src_left : Option Listing) (dests : Listing)
      (dest_left : Option Listing) (r : Round) : Type 0 where
    pub agrees : Agrees differentiates same_time srcs dests r.query
    pub behaviour : r.ctx.files_same_time_behaviour ≡ same_time
    pub src_flag : r.src_done ≡ is_done src_left
    pub dest_flag : r.dest_done ≡ is_done dest_left
    pub src_inbox : r.ctx.src_comms.inbox ≡ coming src_left src_later
    pub dest_inbox : r.ctx.dest_comms.inbox ≡ coming dest_left dest_later

  module _ {srcs dests : Listing} {r : Round} where
    round_src_end :
        {dest_left : Option Listing}
        → Waiting srcs (some []) dests dest_left r
        → (r' : Round) × (round log10 differentiates from_src r ≡ ok r')
          × Waiting srcs none dests dest_left r'
    unfolding round receive_response
    round_src_end w = (
      record r {
        ctx = record (r.ctx) { src_comms = record (r.ctx.src_comms) { inbox = src_later } };
        src_done = true;
      },
      ground (arith, w.src_inbox),
      record {
        agrees = w.agrees;
        behaviour = w.behaviour;
        src_flag = refl;
        dest_flag = w.dest_flag;
        src_inbox = refl;
        dest_inbox = w.dest_inbox;
      },
    )

    round_src_entry :
        {dest_left : Option Listing} (p : RootRelativePath) (d : EntryDetails) (l : Listing)
        → Waiting srcs (some ((p, d) ∷ l)) dests dest_left r
        → get p srcs ≡ none
        → (r' : Round) × (round log10 differentiates from_src r ≡ ok r')
          × Waiting (srcs ++ (p, d) ∷ []) (some l) dests dest_left r'
    unfolding round receive_response count_src
    round_src_entry p d l w fresh =
        let ctx : SyncContext = record (r.ctx) {
          src_comms = record (r.ctx.src_comms) { inbox = answers l ++ src_later };
        } in
        let (q, processed, agrees) =
          process_src_entry-Agrees differentiates same_time log10 ctx w.behaviour srcs dests r.query
            p d w.agrees fresh in
        (
          record r { ctx = count_src log10 ctx d; query = q },
          ground (arith, w.src_inbox, processed),
          record {
            agrees = agrees;
            behaviour = ground (arith, w.behaviour);
            src_flag = w.src_flag;
            dest_flag = w.dest_flag;
            src_inbox = ground arith;
            dest_inbox = ground (arith, w.dest_inbox);
          },
        )

    round_dest_end :
        {src_left : Option Listing}
        → Waiting srcs src_left dests (some []) r
        → (r' : Round) × (round log10 differentiates from_dest r ≡ ok r')
          × Waiting srcs src_left dests none r'
    unfolding round receive_response
    round_dest_end w = (
      record r {
        ctx = record (r.ctx) { dest_comms = record (r.ctx.dest_comms) { inbox = dest_later } };
        dest_done = true;
      },
      ground (arith, w.dest_inbox),
      record {
        agrees = w.agrees;
        behaviour = w.behaviour;
        src_flag = w.src_flag;
        dest_flag = refl;
        src_inbox = w.src_inbox;
        dest_inbox = refl;
      },
    )

    round_dest_entry :
        {src_left : Option Listing} (p : RootRelativePath) (d : EntryDetails) (l : Listing)
        → Waiting srcs src_left dests (some ((p, d) ∷ l)) r
        → get p dests ≡ none
        → (r' : Round) × (round log10 differentiates from_dest r ≡ ok r')
          × Waiting srcs src_left (dests ++ (p, d) ∷ []) (some l) r'
    unfolding round receive_response count_dest
    round_dest_entry p d l w fresh =
        let ctx : SyncContext = record (r.ctx) {
          dest_comms = record (r.ctx.dest_comms) { inbox = answers l ++ dest_later };
        } in
        let (q, processed, agrees) =
          process_dest_entry-Agrees differentiates same_time ctx w.behaviour srcs dests r.query p d
            w.agrees fresh in
        (
          record r { ctx = count_dest ctx d; query = q },
          ground (arith, w.dest_inbox, processed),
          record {
            agrees = agrees;
            behaviour = ground (arith, w.behaviour);
            src_flag = w.src_flag;
            dest_flag = w.dest_flag;
            src_inbox = ground (arith, w.src_inbox);
            dest_inbox = ground arith;
          },
        )

  abbrev Ends : Listing → Listing → List Pick → Round → Type 0
  Ends srcs dests picks r =
      (r' : Round) × (loop log10 differentiates picks r ≡ ok r') × Waiting srcs none dests none r'

  -- The rest of the loop after a round.
  after_round :
      {srcs dests : Listing} (pick : Pick) (picks : List Pick) (r r' : Round)
      → r.src_done && r.dest_done ≡ false
      → round log10 differentiates pick r ≡ ok r'
      → Ends srcs dests picks r'
      → Ends srcs dests (pick ∷ picks) r
  unfolding loop
  after_round pick picks r r' goes_on took (last, ended, w) =
      (last, rw (goes_on, loop) (rw (took, ◌>>=◌) ended), w)

  -- Served in any order, with as many turns for each side as it has messages, the loop ends and has
  -- taken every entry.
  pub loop-Ends :
      (picks : List Pick) (r : Round) (srcs : Listing) (src_left : Option Listing) (dests : Listing)
      (dest_left : Option Listing)
      → Waiting srcs src_left dests dest_left r
      → NodupKeys (srcs ++ left src_left)
      → NodupKeys (dests ++ left dest_left)
      → src_picks picks ≡ messages src_left
      → dest_picks picks ≡ messages dest_left
      → Ends (srcs ++ left src_left) (dests ++ left dest_left) picks r
  unfolding loop
  loop-Ends [] r srcs none dests none w u v m n =
      (r, ground (arith, w.src_flag, w.dest_flag), rw (append-nil, append-nil) w)
  loop-Ends [] r srcs (some l) dests dest_left w u v m n = absurd (omega arith)
  loop-Ends [] r srcs none dests (some l) w u v m n = absurd (omega arith)
  loop-Ends (from_src ∷ picks) r srcs none dests dest_left w u v m n = absurd (omega arith)
  loop-Ends (from_src ∷ picks) r srcs (some []) dests dest_left w u v m n =
      let (r', took, w') = round_src_end w in
      after_round from_src picks r r' (ground (arith, w.src_flag)) took
        (loop-Ends picks r' srcs none dests dest_left w' u v (omega arith) n)
  loop-Ends (from_src ∷ picks) r srcs (some ((p, d) ∷ l)) dests dest_left w u v m n =
      let (r', took, w') = round_src_entry p d l w (fresh_key p d srcs l u) in
      after_round from_src picks r r' (ground (arith, w.src_flag)) took (
        rw append_assoc at (
          loop-Ends picks r' (srcs ++ (p, d) ∷ []) (some l) dests dest_left w' (rw append_assoc u) v
            (omega arith) n))
  loop-Ends (from_dest ∷ picks) r srcs src_left dests none w u v m n = absurd (omega arith)
  loop-Ends (from_dest ∷ picks) r srcs src_left dests (some []) w u v m n =
      let (r', took, w') = round_dest_end w in
      after_round from_dest picks r r' (ground (arith, w.dest_flag)) took
        (loop-Ends picks r' srcs src_left dests none w' u v m (omega arith))
  loop-Ends (from_dest ∷ picks) r srcs src_left dests (some ((p, d) ∷ l)) w u v m n =
      let (r', took, w') = round_dest_entry p d l w (fresh_key p d dests l v) in
      after_round from_dest picks r r' (ground (arith, w.dest_flag)) took (
        rw append_assoc at (
          loop-Ends picks r' srcs src_left (dests ++ (p, d) ∷ []) (some l) w' u (rw append_assoc v)
            m (omega arith)))

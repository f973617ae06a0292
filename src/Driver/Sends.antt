-- ===== src/Driver/Sends.antt =====
-- What each step of a sync sends to the two sides.
use rjrssync.Common.{
  Bool, true, false, not, List, [], ◌∷◌, ◌++◌, append_assoc, append-nil, All, All-append, ok, ◌≡◌,
  sym, ◌∙◌, arith,
}
use rjrssync.Comms.{Comms, send_command, receive_response}
use rjrssync.Interface.{Command, Response, set_root, get_entries, create_root_ancestors}
use rjrssync.Sync.{SyncContext}

-- The second state of a channel has sent more than the first: commands that pass the test.
pub record Extends (test : Command → Bool) (m m' : Comms) : Type 0 where
  pub sent : List Command
  pub appended : m'.outbox ≡ m.outbox ++ sent
  pub all_pass : All (λ c. test c ≡ true) sent

-- From the first state to the second, only commands that pass the first test were sent to the source,
-- and only those that pass the second to the destination.
pub record Sends (to_src to_dest : Command → Bool) (ctx ctx' : SyncContext) : Type 0 where
  pub same_mode : ctx'.dry_run ≡ ctx.dry_run
  pub src_sent : Extends to_src ctx.src_comms ctx'.src_comms
  pub dest_sent : Extends to_dest ctx.dest_comms ctx'.dest_comms

-- Nothing was sent.
pub record Quiet (ctx ctx' : SyncContext) : Type 0 where
  pub mode_kept : ctx'.dry_run ≡ ctx.dry_run
  pub src_kept : ctx'.src_comms.outbox ≡ ctx.src_comms.outbox
  pub dest_kept : ctx'.dest_comms.outbox ≡ ctx.dest_comms.outbox

pub Quiet-trans : {a b c : SyncContext} → Quiet a b → Quiet b c → Quiet a c
Quiet-trans x y = record {
  mode_kept = y.mode_kept ∙ x.mode_kept;
  src_kept = y.src_kept ∙ x.src_kept;
  dest_kept = y.dest_kept ∙ x.dest_kept;
}

module _ (test : Command → Bool) where
  pub Extends-none : (m m' : Comms) → m'.outbox ≡ m.outbox → Extends test m m'
  Extends-none m m' h = record {
    sent = [];
    appended = h ∙ sym (append-nil m.outbox);
    all_pass = tt;
  }

  pub Extends-one :
      (c : Command) (m m' : Comms)
      → test c ≡ true
      → m'.outbox ≡ m.outbox ++ c ∷ []
      → Extends test m m'
  Extends-one c m m' t h = record { sent = c ∷ []; appended = h; all_pass = (t, tt) }

  pub Extends-trans : {a b c : Comms} → Extends test a b → Extends test b c → Extends test a c
  Extends-trans {a} {b} {c} x y = record {
    sent = x.sent ++ y.sent;
    appended = y.appended ∙ rw x.appended (append_assoc a.outbox x.sent y.sent);
    all_pass = All-append _ x.sent y.sent x.all_pass y.all_pass;
  }

module _ {to_src to_dest : Command → Bool} where
  pub Quiet-Sends : {ctx ctx' : SyncContext} → Quiet ctx ctx' → Sends to_src to_dest ctx ctx'
  Quiet-Sends {ctx} {ctx'} q = record {
    same_mode = q.mode_kept;
    src_sent = Extends-none to_src ctx.src_comms ctx'.src_comms q.src_kept;
    dest_sent = Extends-none to_dest ctx.dest_comms ctx'.dest_comms q.dest_kept;
  }

  pub Sends-trans :
      {a b c : SyncContext}
      → Sends to_src to_dest a b
      → Sends to_src to_dest b c
      → Sends to_src to_dest a c
  Sends-trans x y = record {
    same_mode = y.same_mode ∙ x.same_mode;
    src_sent = Extends-trans to_src x.src_sent y.src_sent;
    dest_sent = Extends-trans to_dest x.dest_sent y.dest_sent;
  }

pub send_command-outbox :
    (c : Command) (m m' : Comms) → send_command c m ≡ ok m' → m'.outbox ≡ m.outbox ++ c ∷ []
unfolding send_command
send_command-outbox c m m' h = ground arith

pub receive_response-outbox :
    (m m' : Comms) (r : Response) → receive_response m ≡ ok (r, m') → m'.outbox ≡ m.outbox
unfolding receive_response
receive_response-outbox m m' r h = ground arith

-- The commands by which a sync asks a side what is there.
abbrev pub asks : Command → Bool
asks (set_root _) = true
asks (get_entries _) = true
asks _ = false

-- What may reach the destination before the first deletion: in a dry run nothing that creates.
abbrev pub asks_dest : Bool → Command → Bool
asks_dest dry create_root_ancestors = not dry
asks_dest dry c = asks c

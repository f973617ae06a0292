-- ===== src/Comms.antt =====
-- src/boss_launch.rs, `Comms`: the boss's end of the two channels to a doer. What the doer does is
-- the environment's: `inbox` lists the responses that it will send, in their order.
use rjrssync.Common.{
  Bool, true, false, Option, none, some, List, [], ◌∷◌, ◌++◌, Str, Outcome, ok, err, blocked,
  if◌then◌else◌,
}
use rjrssync.Interface.{Command, Response}
use rjrssync.Path.{RootRelativePath}

-- One of the reports that `process_dest_responses` joins into a message.
pub data DestReport : Type 0 where
  reported : Str → DestReport
  lost : Str → DestReport
  unexpected : Response → DestReport

-- The errors of a sync, by their kind and what they are about, without their wording.
pub data SyncError : Type 0 where
  lost_communication : Str → SyncError
  invalid_filter bad_pattern : Str → SyncError
  src_missing : Str → SyncError
  src_trailing_slash dest_trailing_slash : Str → SyncError
  unexpected_from_src unexpected_from_dest : Response → SyncError
  root_will_not_delete : SyncError
  will_not_delete will_not_overwrite : RootRelativePath → SyncError
  unexpected_content size_changed : RootRelativePath → SyncError
  dest_reported : List DestReport → SyncError

-- `outbox`: the commands sent so far. `sends`: the doer still takes commands. `closes`: the channel
-- is closed after the last response. `arrivals`: for each coming poll, whether the next response is
-- there already.
pub record Comms : Type 0 where
  pub name : Str
  pub outbox : List Command
  pub sends : Bool
  pub inbox : List Response
  pub closes : Bool
  pub arrivals : List Bool

unfoldable pub send_command : Command → Comms → Outcome SyncError Comms
send_command c m =
    if m.sends
    then ok (record m { outbox = m.outbox ++ c ∷ [] })
    else err (lost_communication m.name)

unfoldable pub receive_response : Comms → Outcome SyncError (Response × Comms)
receive_response m = elim m.inbox [
  | [] ↦ if m.closes then err (lost_communication m.name) else blocked
  | r ∷ rest ↦ ok (r, record m { inbox = rest })
]

-- The response that a poll finds, if any.
abbrev poll : Comms → Outcome SyncError (Option Response × Comms)
poll m = elim m.inbox [
  | [] ↦ if m.closes then err (lost_communication m.name) else ok (none, m)
  | r ∷ rest ↦ ok (some r, record m { inbox = rest })
]

unfoldable pub try_receive_response : Comms → Outcome SyncError (Option Response × Comms)
try_receive_response m = elim m.arrivals [
  | [] ↦ ok (none, m)
  | false ∷ more ↦ ok (none, record m { arrivals = more })
  | true ∷ more ↦ poll (record m { arrivals = more })
]

-- ===== src/Channel.antt =====
-- src/memory_bound_channel.rs: a channel whose sender waits while the messages in it take too much
-- memory. The two ends take turns; an event says what happens next.
pub mod Memory
use rjrssync.Common.{
  ℕ, ◌+◌, ◌-◌, ◌≤◌, Bool, true, false, Option, none, some, List, [], ◌∷◌, ◌++◌, if◌then◌else◌, leb,
}

-- The messages in the channel with their memory usage; the counter; the message that is being sent,
-- whose usage is counted already; and the message that the receiver has taken, whose usage is still
-- counted. The counter is a `usize`; the messages that it counts are in memory, so it does not wrap.
pub record Channel (M : Type 0) : Type 0 where
  pub inner : List (M × ℕ)
  pub channel_memory_usage : ℕ
  pub sending : Option (M × ℕ)
  pub taken : Option (M × ℕ)

abbrev pub new : {M : Type 0} → Channel M
new = record { inner = []; channel_memory_usage = 0; sending = none; taken = none }

module _ {M : Type 0} (serialized_size : M → ℕ) (memory_capacity : ℕ) where
  -- `send` up to its `fetch_add`. The sender is one thread: it sends one message at a time.
  unfoldable pub begin_send : M → Channel M → Channel M
  begin_send msg c = elim c.sending [
    | some m ↦ c
    | none ↦ record c {
      channel_memory_usage = c.channel_memory_usage + serialized_size msg;
      sending = some (msg, serialized_size msg);
    }
  ]

  -- One round of the loop that waits: the message is put in as soon as the others take no more than
  -- the capacity. Where the usage was low before the `fetch_add`, the first round succeeds, since
  -- nobody else sends.
  unfoldable pub poll_send : Channel M → Channel M
  poll_send c = elim c.sending [
    | none ↦ c
    | some (msg, usage) ↦
        if leb (c.channel_memory_usage - usage) memory_capacity
        then record c { inner = c.inner ++ (msg, usage) ∷ []; sending = none }
        else c
  ]

-- `recv` and `try_recv` up to taking a message, if one is there. The receiver is one thread: it takes
-- no other message before it has reduced the counter.
unfoldable pub take_message : {M : Type 0} → Channel M → Channel M
take_message c = elim c.taken [
  | some m ↦ c
  | none ↦ elim c.inner [ [] ↦ c | m ∷ rest ↦ record c { inner = rest; taken = some m } ]
]

-- `recv` and `try_recv` from their `fetch_sub` on.
unfoldable pub end_recv : {M : Type 0} → Channel M → Option M × Channel M
end_recv c = elim c.taken [
  | none ↦ (none, c)
  | some (msg, usage) ↦
      (some msg, record c { channel_memory_usage = c.channel_memory_usage - usage; taken = none })
]

pub data Event (M : Type 0) : Type 0 where
  sends : M → Event M
  polls : Event M
  takes : Event M
  returns : Event M

-- The channel, with the messages that were accepted and those that were received so far.
pub record History (M : Type 0) : Type 0 where
  pub channel : Channel M
  pub accepted : List M
  pub received : List M

abbrev pub received_one : {M : Type 0} → Option M → List M → List M
received_one none l = l
received_one (some m) l = l ++ m ∷ []

abbrev pub accept : {M : Type 0} → M → Option (M × ℕ) → List M → List M
accept msg (some m) l = l
accept msg none l = l ++ msg ∷ []

module _ {M : Type 0} (serialized_size : M → ℕ) (memory_capacity : ℕ) where
  unfoldable pub happen : Event M → History M → History M
  unfolding begin_send poll_send take_message end_recv
  happen (sends msg) h = record h {
    channel = begin_send serialized_size memory_capacity msg h.channel;
    accepted = accept msg h.channel.sending h.accepted;
  }
  happen polls h = record h { channel = poll_send serialized_size memory_capacity h.channel }
  happen takes h = record h { channel = take_message h.channel }
  happen returns h =
      let (m, channel) = end_recv h.channel in
      record h { channel = channel; received = received_one m h.received }

  unfoldable pub run : List (Event M) → History M → History M
  unfolding happen
  run [] h = h
  run (e ∷ es) h = run es (happen e h)

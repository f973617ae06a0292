-- ===== src/Channel/Memory.antt =====
-- The memory of the channel is counted and bounded, its messages keep their order, and a sender that
-- waits can go on once the channel is empty.
use rjrssync.Common.{
  ℕ, ◌+◌, ◌-◌, ◌≤◌, true, Option, none, some, List, [], ◌∷◌, ◌++◌, append_assoc, append-nil, leb,
  leb→le, ◌≡◌, refl, sym, ap, ◌∙◌, arith, inl, inr, Bool-cases,
}
use rjrssync.Channel.{new, poll_send, Event, sends, polls, takes, returns, History, happen, run}

module _ {M : Type 0} where
  abbrev pub total : List (M × ℕ) → ℕ
  total [] = 0
  total ((m, usage) ∷ ms) = usage + total ms

  abbrev pub usage_of : Option (M × ℕ) → ℕ
  usage_of none = 0
  usage_of (some (m, usage)) = usage

  -- The usage of all but the newest message.
  abbrev pub all_but_last : List (M × ℕ) → ℕ
  all_but_last [] = 0
  all_but_last (m ∷ []) = 0
  all_but_last ((m, usage) ∷ n ∷ ms) = usage + all_but_last (n ∷ ms)

  abbrev pub messages : List (M × ℕ) → List M
  messages [] = []
  messages ((m, _) ∷ ms) = m ∷ messages ms

  abbrev pub pending : Option (M × ℕ) → List M
  pending none = []
  pending (some (m, _)) = m ∷ []

  total-append : (xs ys : List (M × ℕ)) → total (xs ++ ys) ≡ total xs + total ys
  total-append [] ys = omega arith
  total-append ((m, u) ∷ xs) ys = omega (arith, total-append xs ys)

  all_but_last-append : (xs : List (M × ℕ)) (m : M × ℕ) → all_but_last (xs ++ m ∷ []) ≡ total xs
  all_but_last-append [] m = refl
  all_but_last-append (x ∷ []) m = omega arith
  all_but_last-append ((x, u) ∷ y ∷ xs) m = omega (arith, all_but_last-append (y ∷ xs) m)

  all_but_last-tail : (x : M × ℕ) (xs : List (M × ℕ)) → all_but_last xs ≤ all_but_last (x ∷ xs)
  all_but_last-tail x [] = omega arith
  all_but_last-tail (x, u) (y ∷ ys) = omega arith

  messages-append : (xs ys : List (M × ℕ)) → messages (xs ++ ys) ≡ messages xs ++ messages ys
  messages-append [] ys = refl
  messages-append ((m, u) ∷ xs) ys = ap (λ l. m ∷ l) (messages-append xs ys)

-- The counter is the memory of the messages in the channel, of the one being sent and of the one being
-- received; without the newest message, those in the channel take no more than the capacity; and what
-- was accepted has been received, is being received, is in the channel, or is being sent, in this order.
pub record Bounded {M : Type 0} (memory_capacity : ℕ) (h : History M) : Type 0 where
  pub counted :
      h.channel.channel_memory_usage
      ≡ usage_of h.channel.taken + (total h.channel.inner + usage_of h.channel.sending)
  pub bounded : all_but_last h.channel.inner ≤ memory_capacity
  pub in_order :
      h.accepted
      ≡ h.received
        ++ (pending h.channel.taken ++ (messages h.channel.inner ++ pending h.channel.sending))

abbrev pub nothing_yet : {M : Type 0} → History M
nothing_yet = record { channel = new; accepted = []; received = [] }

module _ {M : Type 0} (serialized_size : M → ℕ) (memory_capacity : ℕ) where
  abbrev state : List (M × ℕ) → ℕ → Option (M × ℕ) → Option (M × ℕ) → List M → List M → History M
  state inner usage sending taken accepted received = record {
    channel = record {
      inner = inner;
      channel_memory_usage = usage;
      sending = sending;
      taken = taken;
    };
    accepted = accepted;
    received = received;
  }

  happen-Bounded :
      (e : Event M) (inner : List (M × ℕ)) (usage : ℕ) (sending taken : Option (M × ℕ))
      (accepted received : List M)
      → Bounded memory_capacity (state inner usage sending taken accepted received)
      → Bounded memory_capacity (
          happen serialized_size memory_capacity e
            (state inner usage sending taken accepted received))
  unfolding happen
  happen-Bounded (sends msg) inner usage (some m) taken accepted received x = x
  happen-Bounded (sends msg) inner usage none taken accepted received x = record {
    counted = omega (arith, x.counted);
    bounded = x.bounded;
    in_order =
        ap (λ l. l ++ msg ∷ [])
          (x.in_order ∙ ap (λ l. received ++ (pending taken ++ l)) (append-nil (messages inner)))
        ∙ append_assoc received (pending taken ++ messages inner) (msg ∷ [])
        ∙ ap (λ l. received ++ l) (append_assoc (pending taken) (messages inner) (msg ∷ []));
  }
  happen-Bounded polls inner usage none taken accepted received x = x
  happen-Bounded polls inner usage (some (msg, u)) taken accepted received x =
      elim (Bool-cases (leb (usage - u) memory_capacity)) [
        | inr full ↦ rw full x
        | inl room ↦ rw room (record {
          counted = omega (arith, x.counted, total-append inner ((msg, u) ∷ []));
          bounded = omega (arith, leb→le _ _ room, x.counted, all_but_last-append inner (msg, u));
          in_order =
              x.in_order
              ∙ ap (λ l. received ++ (pending taken ++ l))
                  (sym (append-nil _ ∙ messages-append inner ((msg, u) ∷ [])));
        })
      ]
  happen-Bounded takes inner usage sending (some m) accepted received x = x
  happen-Bounded takes [] usage sending none accepted received x = x
  happen-Bounded takes ((m, u) ∷ rest) usage sending none accepted received x = record {
    counted = omega (arith, x.counted);
    bounded = omega (arith, x.bounded, all_but_last-tail (m, u) rest);
    in_order = x.in_order;
  }
  happen-Bounded returns inner usage sending none accepted received x = x
  happen-Bounded returns inner usage sending (some (m, u)) accepted received x = record {
    counted = omega (arith, x.counted);
    bounded = x.bounded;
    in_order =
        x.in_order ∙ sym (append_assoc received (m ∷ []) (messages inner ++ pending sending));
  }

  run-Bounded :
      (es : List (Event M)) (h : History M)
      → Bounded memory_capacity h
      → Bounded memory_capacity (run serialized_size memory_capacity es h)
  unfolding run
  run-Bounded [] h x = x
  run-Bounded (e ∷ es) h x = run-Bounded es (happen serialized_size memory_capacity e h) (
      happen-Bounded e h.channel.inner h.channel.channel_memory_usage h.channel.sending
        h.channel.taken h.accepted h.received x)

  -- However the sender's and the receiver's steps are mixed on a new channel: the counter is the memory
  -- of the messages in it, of the one being sent and of the one being received; the messages in it,
  -- without the newest, take no more than the capacity; and the messages are received in the order in
  -- which they were sent, none lost.
  pub run_new-Bounded :
      (es : List (Event M))
      → Bounded memory_capacity (run serialized_size memory_capacity es nothing_yet)
  run_new-Bounded es =
      run-Bounded es nothing_yet (record { counted = refl; bounded = omega arith; in_order = refl })

  goes_through :
      (inner : List (M × ℕ)) (usage : ℕ) (m : M × ℕ) (taken : Option (M × ℕ))
      → usage ≡ usage_of taken + (total inner + m.1)
      → usage_of taken + total inner ≤ memory_capacity
      → poll_send serialized_size memory_capacity
          (record { inner = inner; channel_memory_usage = usage; sending = some m; taken = taken })
        ≡ record {
          inner = inner ++ m ∷ [];
          channel_memory_usage = usage;
          sending = none;
          taken = taken;
        }
  unfolding poll_send
  goes_through inner usage (msg, u) taken counted room =
      let fits : leb (usage - u) memory_capacity ≡ true = ground (arith, counted, room) in
      rw fits refl

  -- However the steps were mixed on a new channel: a message that is being sent goes in with the next
  -- round of the sender's loop once the messages in the channel and the one being received take no more
  -- than the capacity, however large it is itself; so when these are gone the sender never waits on.
  pub run_new_goes_on :
      (es : List (Event M)) (m : M × ℕ)
      → let c = (run serialized_size memory_capacity es nothing_yet).channel in
        c.sending ≡ some m
        → usage_of c.taken + total c.inner ≤ memory_capacity
        → let c' = poll_send serialized_size memory_capacity c in
          (c'.sending ≡ none) × (c'.inner ≡ c.inner ++ m ∷ [])
  run_new_goes_on es m e room =
      let h = run serialized_size memory_capacity es nothing_yet in
      let x = run_new-Bounded es in
      let gone =
        ap (λ o. poll_send serialized_size memory_capacity (record (h.channel) { sending = o })) e
        ∙ goes_through h.channel.inner h.channel.channel_memory_usage m h.channel.taken
            (x.counted
              ∙ ap (λ o. usage_of h.channel.taken + (total h.channel.inner + usage_of o)) e)
            room in
      (ap (λ c. c.sending) gone, ap (λ c. c.inner) gone)

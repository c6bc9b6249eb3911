-- ===== src/Mqtt/Consumer.antt =====
-- `Consumer`. The client library runs OnConnect and each call of Subscribe on its own, so an event of
-- the model is one stretch of code between two points where another one can run. What the broker
-- answers to a subscription is part of the event.
pub mod Served
mod Tests
use mesh_monday.Base.{
  ℕ, suc, Bool, true, false, List, [], ◌∷◌, ◌++◌, Option, none, some, Bytes, if◌then◌else◌, ltb,
  length,
}
use mesh_monday.Base.Int.{ℤ, pos, ltb_ℤ}
use mesh_monday.Go.Time.{Time}
use mesh_monday.Go.Trim.{trim_space}

pub record Message : Type 0 where
  pub topic : Bytes
  pub payload_hex : Bytes
  pub observed_at : Time

-- `buildMessage`; a payload that is too large is dropped.
pub build_message : ℤ → Bytes → Bytes → Time → Option Message
build_message max_payload_bytes topic payload now =
    if ltb_ℤ max_payload_bytes (pos (length payload))
    then none
    else some (record { topic = topic; payload_hex = trim_space payload; observed_at = now })

-- A subscription is its topic, since the handlers are all the same. Besides `subs` and whether the
-- connection is open: the calls of Subscribe that have not yet looked at the connection, how many runs of
-- OnConnect have yet to copy the list, what each loop over a copy has not yet sent, and what the
-- broker has granted on this connection.
pub record Consumer : Type 0 where
  pub subs : List Bytes
  pub is_open : Bool
  pub pending : List Bytes
  pub to_copy : ℕ
  pub copied : List (List Bytes)
  pub granted : List Bytes

abbrev pub new_consumer : Consumer
new_consumer = record {
  subs = [];
  is_open = false;
  pending = [];
  to_copy = 0;
  copied = [];
  granted = [];
}

-- `subscribeWithClient`: an error leaves the topic out.
pub subscribe_with_client : Bytes → Bool → Consumer → Consumer
subscribe_with_client topic answer c =
    if answer then record c { granted = topic ∷ c.granted } else c

-- `Subscribe` up to the look at the connection.
unfoldable pub add_subscription : Bytes → Consumer → Consumer
add_subscription topic c = record c { subs = c.subs ++ topic ∷ []; pending = topic ∷ c.pending }

-- The rest of it, which leaves the calls `rest` pending: nothing is sent while there is no connection.
pub finish_subscribe : Bytes → List Bytes → Bool → Consumer → Consumer
unfolding subscribe_with_client
finish_subscribe topic rest answer c =
    let c' = record c { pending = rest } in
    if c.is_open then subscribe_with_client topic answer c' else c'

-- A connection opens, and OnConnect is to run.
pub open_connection : Consumer → Consumer
open_connection c = record c { is_open = true; to_copy = suc c.to_copy; granted = [] }

pub lose_connection : Consumer → Consumer
lose_connection c = record c { is_open = false; granted = [] }

-- `resubscribeAll` copies the list under the lock; `waiting` other runs have yet to do so.
pub copy_subscriptions : ℕ → Consumer → Consumer
copy_subscriptions waiting c = record c { to_copy = waiting; copied = c.copied ++ c.subs ∷ [] }

-- One round of a loop, which leaves `loops` to be sent; an error is logged. What is sent while there is
-- no connection fails.
pub resubscribe_next : Bytes → List (List Bytes) → Bool → Consumer → Consumer
unfolding subscribe_with_client
resubscribe_next topic loops answer c =
    let c' = record c { copied = loops } in
    if c.is_open then subscribe_with_client topic answer c' else c'

-- One event, of any of the calls and loops that are under way; the index tells whether the broker granted what it was asked.
pub data Step : Bool → Consumer → Consumer → Type 0 where
  add : (topic : Bytes) (c : Consumer) → Step true c (add_subscription topic c)
  finish :
      (topic : Bytes) (before after : List Bytes) (answer : Bool) (c : Consumer)
      → Step answer
          (record c { pending = before ++ topic ∷ after })
          (finish_subscribe topic
            (before ++ after)
            answer
            (record c { pending = before ++ topic ∷ after }))
  connect : (c : Consumer) → Step true c (open_connection c)
  lose : (c : Consumer) → Step true c (lose_connection c)
  copy :
      (waiting : ℕ) (c : Consumer)
      → Step true
          (record c { to_copy = suc waiting })
          (copy_subscriptions waiting (record c { to_copy = suc waiting }))
  resubscribe :
      (topic : Bytes) (rest : List Bytes) (before after : List (List Bytes)) (answer : Bool)
      (c : Consumer)
      → Step answer
          (record c { copied = before ++ (topic ∷ rest) ∷ after })
          (resubscribe_next topic
            (before ++ rest ∷ after)
            answer
            (record c { copied = before ++ (topic ∷ rest) ∷ after }))

-- What a broker that grants every subscription lets the consumer reach.
pub data IsReached : Consumer → Type 0 where
  start : IsReached new_consumer
  next : (c d : Consumer) → IsReached c → Step true c d → IsReached d

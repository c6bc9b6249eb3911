-- ===== src/Mqtt/Connect.antt =====
-- `Connect` and `Close` of the consumer, and `connectMQTTWithRetry` of cmd/server/main.go. How the client's
-- attempt to connect ends is an argument; OnConnect runs on its own once the connection is open.
use mesh_monday.Base.{
  Bool, true, false, List, [], ◌∷◌, Option, none, some, Bytes, codes, if◌then◌else◌,
}
use mesh_monday.Mqtt.Consumer.{
  Consumer, open_connection, lose_connection, connect, lose, IsReached, next,
}

-- What the select sees first: the end of the context, or the token, with the error that it has.
pub data Attempt : Type 0 where
  expired : Attempt
  finished : Option Bytes → Attempt

attempt : Attempt → Consumer → Option Bytes × Consumer
attempt expired c = (some (codes "context deadline exceeded"), c)
attempt (finished (some e)) c = (some e, c)
attempt (finished none) c = (none, open_connection c)

-- `Connect`: the error, if there is one.
pub connect_consumer : Attempt → Consumer → Option Bytes × Consumer
unfolding attempt
connect_consumer a c = if c.is_open then (none, c) else attempt a c

-- `Close`
pub close : Consumer → Consumer
close c = if c.is_open then lose_connection c else c

after_attempt : (Consumer → Option Consumer) → Option Bytes × Consumer → Option Consumer
after_attempt again (none, c) = some c
after_attempt again (some e, c) = again c

-- `connectMQTTWithRetry`, for as many attempts as are given; `none` where it goes on beyond them.
pub connect_mqtt_with_retry : List Attempt → Consumer → Option Consumer
unfolding after_attempt
connect_mqtt_with_retry [] c = none
connect_mqtt_with_retry (a ∷ attempts) c =
    after_attempt (connect_mqtt_with_retry attempts) (connect_consumer a c)

attempt-IsReached : (a : Attempt) (c : Consumer) → IsReached c → IsReached (attempt a c).1
unfolding attempt
attempt-IsReached expired c r = r
attempt-IsReached (finished (some e)) c r = r
attempt-IsReached (finished none) c r = next c (open_connection c) r (connect c)

-- What both branches reach, a test reaches.
either-IsReached :
    (b : Bool) (x y : Option Bytes × Consumer)
    → IsReached x.1
    → IsReached y.1
    → IsReached (if b then x else y).1
either-IsReached true x y r k = r
either-IsReached false x y r k = k

-- Connecting and closing are steps of the consumer, or none.
pub connect_consumer-IsReached :
    (a : Attempt) (c : Consumer) → IsReached c → IsReached (connect_consumer a c).1
unfolding connect_consumer
connect_consumer-IsReached a c r =
    either-IsReached c.is_open (none, c) (attempt a c) r (attempt-IsReached a c r)

pub close-IsReached : (c : Consumer) → IsReached c → IsReached (close c)
unfolding close
close-IsReached c r = closed c.is_open
  where
    closed : (b : Bool) → IsReached (if b then lose_connection c else c)
    closed true = next c (lose_connection c) r (lose c)
    closed false = r

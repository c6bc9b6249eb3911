-- ===== src/Mqtt/Consumer/Tests.antt =====
-- Two topics that are subscribed before the connection opens, which is lost once.
use mesh_monday.Base.{◌≡◌, refl, true, false, [], ◌∷◌, Bytes, codes, same, any_of}
use mesh_monday.Mqtt.Consumer.{
  Consumer, new_consumer, add_subscription, finish_subscribe, open_connection, lose_connection,
  copy_subscriptions, resubscribe_next, subscribe_with_client, add, finish, connect, lose, copy,
  resubscribe, IsReached, start, next,
}
use mesh_monday.Mqtt.Consumer.Served.{names, reached_granted}

abbrev topic : Bytes
topic = codes "meshcore/+/+/packets"

abbrev other : Bytes
other = codes "meshcore/SEA/+/packets"

abbrev registered : Consumer
registered = record new_consumer { subs = topic ∷ []; pending = topic ∷ [] }

abbrev waiting_two : Consumer
waiting_two = record new_consumer { subs = topic ∷ other ∷ []; pending = other ∷ topic ∷ [] }

-- The call that came first ends first.
abbrev waiting_one : Consumer
waiting_one = record waiting_two { pending = other ∷ [] }

abbrev waiting_none : Consumer
waiting_none = record waiting_two { pending = [] }

abbrev connected : Consumer
connected = record waiting_none { is_open = true; to_copy = 1 }

abbrev copied_list : Consumer
copied_list = record connected { to_copy = 0; copied = (topic ∷ other ∷ []) ∷ [] }

-- The connection is lost and opens again while the loop runs, and a second loop begins.
abbrev lost : Consumer
lost = record copied_list { is_open = false }

abbrev again : Consumer
again = record lost { is_open = true; to_copy = 1 }

abbrev copied_twice : Consumer
copied_twice = record again {
  to_copy = 0;
  copied = (topic ∷ other ∷ []) ∷ (topic ∷ other ∷ []) ∷ [];
}

abbrev second_sent : Consumer
second_sent = record copied_twice {
  copied = (topic ∷ other ∷ []) ∷ (other ∷ []) ∷ [];
  granted = topic ∷ [];
}

abbrev first_sent : Consumer
first_sent = record second_sent {
  copied = (other ∷ []) ∷ (other ∷ []) ∷ [];
  granted = topic ∷ topic ∷ [];
}

abbrev one_done : Consumer
one_done = record first_sent {
  copied = (other ∷ []) ∷ [] ∷ [];
  granted = other ∷ topic ∷ topic ∷ [];
}

abbrev subscribed : Consumer
subscribed = record one_done { copied = [] ∷ [] ∷ []; granted = other ∷ other ∷ topic ∷ topic ∷ [] }

connected-IsReached : IsReached connected
unfolding add_subscription finish_subscribe open_connection
connected-IsReached =
    next waiting_none connected
      (next waiting_one waiting_none
        (next waiting_two waiting_one
          (next registered waiting_two (next new_consumer registered start (add topic new_consumer))
            (add other registered))
          (finish topic (other ∷ []) [] true waiting_two))
        (finish other [] [] true waiting_one))
      (connect waiting_none)

copied_twice-IsReached : IsReached copied_twice
unfolding open_connection lose_connection copy_subscriptions
copied_twice-IsReached =
    next again copied_twice
      (next lost again
        (next copied_list lost (next connected copied_list connected-IsReached (copy 0 connected))
          (lose copied_list))
        (connect lost))
      (copy 0 again)

-- The loops take turns.
subscribed-IsReached : IsReached subscribed
unfolding resubscribe_next subscribe_with_client
subscribed-IsReached =
    next one_done subscribed
      (next first_sent one_done
        (next second_sent first_sent
          (next copied_twice second_sent copied_twice-IsReached
            (resubscribe topic (other ∷ []) ((topic ∷ other ∷ []) ∷ []) [] true copied_twice))
          (resubscribe topic (other ∷ []) [] ((other ∷ []) ∷ []) true second_sent))
        (resubscribe other [] ((other ∷ []) ∷ []) [] true first_sent))
      (resubscribe other [] [] ([] ∷ []) true one_done)

named : names topic subscribed.subs ≡ true
unfolding any_of same
named = refl

reached_granted_example : names topic subscribed.granted ≡ true
reached_granted_example =
    reached_granted subscribed topic subscribed-IsReached named refl refl refl (refl, (refl, tt))

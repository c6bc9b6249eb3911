-- ===== src/Mqtt/Consumer/Served.antt =====
-- What becomes of a subscription while calls of Subscribe and connections interleave.
use mesh_monday.Base.{
  ◌≡◌, refl, ◌++◌, ltb, All, Bool, true, false, ◌||◌, List, [], ◌∷◌, arith, inl, inr, Bool-cases,
  Bytes, same, any_of, any_of-append,
}
use mesh_monday.Mqtt.Consumer.{
  Consumer, subscribe_with_client, add_subscription, finish_subscribe, open_connection,
  lose_connection, copy_subscriptions, resubscribe_next, Step, add, finish, connect, lose, copy,
  resubscribe, IsReached, start, next,
}

sent :
    (t : Bytes) (rest : List Bytes) (c : Consumer)
    → c.is_open ≡ true
    → finish_subscribe t rest true c ≡ record c { pending = rest; granted = t ∷ c.granted }
unfolding finish_subscribe subscribe_with_client
sent t rest c e = rw e refl

not_sent :
    (t : Bytes) (rest : List Bytes) (c : Consumer)
    → c.is_open ≡ false
    → finish_subscribe t rest true c ≡ record c { pending = rest }
unfolding finish_subscribe subscribe_with_client
not_sent t rest c e = rw e refl

resent :
    (t : Bytes) (loops : List (List Bytes)) (c : Consumer)
    → c.is_open ≡ true
    → resubscribe_next t loops true c ≡ record c { copied = loops; granted = t ∷ c.granted }
unfolding resubscribe_next subscribe_with_client
resent t loops c e = rw e refl

not_resent :
    (t : Bytes) (loops : List (List Bytes)) (c : Consumer)
    → c.is_open ≡ false
    → resubscribe_next t loops true c ≡ record c { copied = loops }
unfolding resubscribe_next subscribe_with_client
not_resent t loops c e = rw e refl

module _ (topic : Bytes) where
  abbrev pub names : List Bytes → Bool
  names = any_of (λ t. same t topic)

  abbrev listed : List (List Bytes) → Bool
  listed = any_of names

  -- Where the topic is on its way, as long as it is not granted.
  abbrev under_way : Consumer → Bool
  under_way c = names c.granted || (names c.pending || (ltb 0 c.to_copy || listed c.copied))

  abbrev IsServed : Consumer → Type 0
  IsServed c = names c.subs ≡ true → c.is_open ≡ true → under_way c ≡ true

  finish-IsServed :
      (t : Bytes) (before after : List Bytes) (c : Consumer)
      → IsServed (record c { pending = before ++ t ∷ after })
      → IsServed
          (finish_subscribe t (before ++ after) true (record c { pending = before ++ t ∷ after }))
  unfolding any_of
  finish-IsServed t before after c h = elim (Bool-cases c.is_open) [
    | inl f ↦
        rw (sent t (before ++ after) (record c { pending = before ++ t ∷ after }) f)
          (λ i o. let h' = rw any_of-append at h i o in rw any_of-append (ground (arith, h')))
    | inr f ↦
        rw (not_sent t (before ++ after) (record c { pending = before ++ t ∷ after }) f) (λ i o. cc)
  ]

  resubscribe-IsServed :
      (t : Bytes) (rest : List Bytes) (before after : List (List Bytes)) (c : Consumer)
      → IsServed (record c { copied = before ++ (t ∷ rest) ∷ after })
      → IsServed (
          resubscribe_next t
            (before ++ rest ∷ after)
            true
            (record c { copied = before ++ (t ∷ rest) ∷ after }))
  unfolding any_of
  resubscribe-IsServed t rest before after c h = elim (Bool-cases c.is_open) [
    | inl f ↦
        rw (resent t _ (record c { copied = before ++ (t ∷ rest) ∷ after }) f)
          (λ i o. let h' = rw any_of-append at h i o in rw any_of-append (ground (arith, h')))
    | inr f ↦ rw (not_resent t _ (record c { copied = before ++ (t ∷ rest) ∷ after }) f) (λ i o. cc)
  ]

  Step-IsServed : {g : Bool} {c d : Consumer} → g ≡ true → Step g c d → IsServed c → IsServed d
  unfolding add_subscription open_connection lose_connection copy_subscriptions any_of
  Step-IsServed e (add t c) h i o = let kept = rw any_of-append at i in ground (arith, h, kept, o)
  Step-IsServed e (finish t before after true c) h i o = finish-IsServed t before after c h i o
  Step-IsServed e (finish t before after false c) h i o = cc
  Step-IsServed e (connect c) h i o = ground arith
  Step-IsServed e (lose c) h i o = cc
  Step-IsServed e (copy waiting c) h i o = rw any_of-append (ground (arith, i))
  Step-IsServed e (resubscribe t rest before after true c) h i o =
      resubscribe-IsServed t rest before after c h i o
  Step-IsServed e (resubscribe t rest before after false c) h i o = cc

  reached-IsServed : {c : Consumer} → IsReached c → IsServed c
  unfolding any_of
  reached-IsServed start = λ i o. cc
  reached-IsServed (next c d r step) = Step-IsServed refl step (reached-IsServed r)

  -- Loops that have nothing left to send.
  sent-All : (loops : List (List Bytes)) → All (λ loop. loop ≡ []) loops → listed loops ≡ false
  unfolding any_of
  sent-All [] h = refl
  sent-All (loop ∷ loops) (e, h) = rw (e, any_of) (sent-All loops h)

-- If the broker grants every subscription, then however calls of Subscribe, new and lost connections and
-- the loops of any number of runs of OnConnect follow on one another, a topic that was subscribed is
-- granted once the connection is open, no call of Subscribe is pending, no run has yet to copy the
-- list, and every loop has sent its copy.
pub reached_granted :
    (c : Consumer) (topic : Bytes)
    → IsReached c
    → names topic c.subs ≡ true
    → c.is_open ≡ true
    → c.pending ≡ []
    → c.to_copy ≡ 0
    → All (λ loop. loop ≡ []) c.copied
    → names topic c.granted ≡ true
unfolding any_of
reached_granted c topic r i o p t q =
    let served = reached-IsServed topic r i o in
    let done = sent-All topic c.copied q in
    let served' = rw (p, t, done) at served in ground (arith, served')

-- ===== src/Config/Keys.antt =====
-- The keys that messages are decrypted with.
use mesh_monday.Base.{
  ◌≡◌, refl, true, false, ◌||◌, List, [], ◌∷◌, inl, inr, arith, Bool-cases, Bytes, same, same_iff,
  any_of, any_of-append, All, All-map, All-snoc, Distinct, Distinct-snoc,
}
use mesh_monday.Platform.{Platform}
use mesh_monday.Go.Text.{to_lower}
use mesh_monday.Go.Trim.{trim_space}
use mesh_monday.Config.{
  Config, public_channel_key_hex, one_of, derive_hashtag_key_hex, add_key, add_keys, derive_all,
  channel_secret_keys,
}

abbrev key_itself : Bytes → Bytes
key_itself k = k

-- No key is blank and none is there twice.
abbrev pub IsKeyList : List Bytes → Type 0
IsKeyList keys = Distinct key_itself keys × All (λ k. same k [] ≡ false) keys

-- The text that a key is stored as.
abbrev pub normalized_key : Platform → Bytes → Bytes
normalized_key p key = to_lower p (trim_space key)

module _ (p : Platform) where
  add_key-IsKeyList :
      (out : List Bytes) (key : Bytes) → IsKeyList out → IsKeyList (add_key p out key)
  unfolding add_key
  add_key-IsKeyList out key (d, h) =
      let n = normalized_key p key in
      elim (Bool-cases (same n [])) [
        | inl e ↦ rw e (d, h)
        | inr e ↦ elim (Bool-cases (one_of out n)) [
          | inl f ↦ rw (e, f) (d, h)
          | inr f ↦
              rw (e, f)
                (
                  Distinct-snoc key_itself same same_iff out n d f,
                  All-snoc (λ k. same k [] ≡ false) out n h e,
                )
        ]
      ]

  add_keys-IsKeyList : (keys out : List Bytes) → IsKeyList out → IsKeyList (add_keys p out keys)
  unfolding add_keys
  add_keys-IsKeyList [] out h = h
  add_keys-IsKeyList (key ∷ keys) out h =
      add_keys-IsKeyList keys (add_key p out key) (add_key-IsKeyList out key h)

  -- The keys of the channels have no blank one and no two alike, whatever the settings say.
  pub channel_secret_keys-IsKeyList : (c : Config) → IsKeyList (channel_secret_keys p c)
  unfolding channel_secret_keys
  channel_secret_keys-IsKeyList c = add_keys-IsKeyList c.private_channel_keys _ (
      add_keys-IsKeyList (derive_all p c.hashtag_channels) _
        (add_key-IsKeyList [] public_channel_key_hex (tt, tt)))

  add_key-keeps :
      (out : List Bytes) (key k : Bytes) → one_of out k ≡ true → one_of (add_key p out key) k ≡ true
  unfolding add_key
  add_key-keeps out key k h =
      let n = normalized_key p key in ground (arith, h, any_of-append (λ t. same t k) out (n ∷ []))

  add_key-has :
      (out : List Bytes) (key : Bytes)
      → (same (normalized_key p key) [] || one_of (add_key p out key) (normalized_key p key)) ≡ true
  unfolding add_key any_of
  add_key-has out key =
      let n = normalized_key p key in
      ground (arith, any_of-append (λ t. same t n) out (n ∷ []), (same_iff n n).1 refl)

  add_keys-keeps :
      (keys out : List Bytes) (k : Bytes)
      → one_of out k ≡ true
      → one_of (add_keys p out keys) k ≡ true
  unfolding add_keys
  add_keys-keeps [] out k h = h
  add_keys-keeps (key ∷ keys) out k h =
      add_keys-keeps keys (add_key p out key) k (add_key-keeps out key k h)

  -- The key is blank or is one of those.
  abbrev pub IsServed : List Bytes → Bytes → Type 0
  IsServed out key = (same (normalized_key p key) [] || one_of out (normalized_key p key)) ≡ true

  add_keys-IsServed :
      (keys out : List Bytes) (key : Bytes) → IsServed out key → IsServed (add_keys p out keys) key
  add_keys-IsServed keys out key h =
      ground (arith, h, add_keys-keeps keys out (normalized_key p key))

  add_keys-has : (keys out : List Bytes) → All (IsServed (add_keys p out keys)) keys
  unfolding add_keys
  add_keys-has [] out = tt
  add_keys-has (key ∷ keys) out = (
    add_keys-IsServed keys (add_key p out key) key (add_key-has out key),
    add_keys-has keys (add_key p out key),
  )

  -- What holds of the keys that are derived holds of the key of each channel.
  each_channel :
      (P : Bytes → Type 0) (names : List Bytes)
      → All P (derive_all p names)
      → All (λ name. P (derive_hashtag_key_hex p name)) names
  unfolding derive_all
  each_channel P [] h = tt
  each_channel P (name ∷ names) (hx, h) = (hx, each_channel P names h)

  -- Every channel that is configured is served: the public one, each hashtag channel by its derived
  -- key, and each private key, unless the key is blank.
  pub channel_secret_keys-IsServed :
      (c : Config)
      → IsServed (channel_secret_keys p c) public_channel_key_hex
        × All
            (λ name. IsServed (channel_secret_keys p c) (derive_hashtag_key_hex p name))
            c.hashtag_channels
        × All (IsServed (channel_secret_keys p c)) c.private_channel_keys
  unfolding channel_secret_keys
  channel_secret_keys-IsServed c =
      let hashtags = derive_all p c.hashtag_channels in
      let first = add_key p [] public_channel_key_hex in
      let public_and_hashtags = add_keys p first hashtags in
      (
        add_keys-IsServed c.private_channel_keys public_and_hashtags public_channel_key_hex (
            add_keys-IsServed hashtags first public_channel_key_hex
              (add_key-has [] public_channel_key_hex)),
        each_channel (IsServed (channel_secret_keys p c)) c.hashtag_channels (
            All-map (add_keys-IsServed c.private_channel_keys public_and_hashtags) hashtags
              (add_keys-has hashtags first)),
        add_keys-has c.private_channel_keys public_and_hashtags,
      )

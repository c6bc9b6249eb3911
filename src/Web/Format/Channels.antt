-- ===== src/Web/Format/Channels.antt =====
-- The channels that a page lists.
use mesh_monday.Base.{
  ◌≡◌, false, List, [], ◌∷◌, ◌++◌, inl, inr, Bool-cases, Bytes, codes, same, same_iff, any_of, All,
  All-snoc, Distinct, Distinct-snoc,
}
use mesh_monday.Platform.{Platform}
use mesh_monday.Go.Trim.{trim_space}
use mesh_monday.Web.Format.{listed_channel, add_channels, configured_hashtag_channels}

abbrev channel_itself : Bytes → Bytes
channel_itself c = c

-- No channel is listed twice, and the tag of the check-ins is not listed.
abbrev pub IsChannelList : List Bytes → Type 0
IsChannelList channels =
    Distinct channel_itself channels × All (λ c. same c (codes "#meshmonday") ≡ false) channels

module _ (p : Platform) where
  add_channels-IsChannelList :
      (values out : List Bytes) → IsChannelList out → IsChannelList (add_channels p out values)
  unfolding add_channels
  add_channels-IsChannelList [] out h = h
  add_channels-IsChannelList (raw ∷ values) out (d, h) =
      let listed = listed_channel p (trim_space raw) in
      let skip = add_channels-IsChannelList values out (d, h) in
      elim (Bool-cases (same (trim_space raw) [])) [
        | inl e ↦ rw e skip
        | inr e ↦ elim (Bool-cases (same listed (codes "#meshmonday"))) [
          | inl f ↦ rw (e, f) skip
          | inr f ↦ elim (Bool-cases (any_of (λ c. same c listed) out)) [
            | inl g ↦ rw (e, f, g) skip
            | inr g ↦
                rw (e, f, g)
                  (add_channels-IsChannelList values (out ++ listed ∷ []) (
                    Distinct-snoc channel_itself same same_iff out listed d g,
                    All-snoc (λ c. same c (codes "#meshmonday") ≡ false) out listed h f,
                  ))
          ]
        ]
      ]

  -- Whatever is configured, the page lists no channel twice and not the tag of the check-ins.
  pub configured_hashtag_channels-IsChannelList :
      (values : List Bytes) → IsChannelList (configured_hashtag_channels p values)
  unfolding configured_hashtag_channels
  configured_hashtag_channels-IsChannelList values = add_channels-IsChannelList values [] (tt, tt)

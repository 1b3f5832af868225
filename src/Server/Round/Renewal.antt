-- ===== src/Server/Round/Renewal.antt =====
-- The renewals at the end of a round: joins for the rooms that were not renewed for a minute.
use shell_chat_app_multi_ser.Base.{
  ℕ, zero, suc, ◌+◌, ◌-◌, ◌≤◌, ◌<◌, ◌≡◌, refl, ap, ◌∙◌, true, false, List, [], ◌∷◌, map, none, some,
  ok, out_of_bounds, rounds, exceeds, sub_ℕ, All, length, get_elem?, set, arith,
}
use shell_chat_app_multi_ser.Duckchat.{channel_max}
use shell_chat_app_multi_ser.Cells.{Cells, full}
use shell_chat_app_multi_ser.Cells.Holds.{Begins, Holds}
use shell_chat_app_multi_ser.Channels.{Channel}
use shell_chat_app_multi_ser.Packets.{serv_join}
use shell_chat_app_multi_ser.Packets.Fits.{s2s_fill_join-ok}
use shell_chat_app_multi_ser.Adjacent.{Server}
use shell_chat_app_multi_ser.Server.State.{
  State, done, failed, channel_at, for_each, told, to_server,
}
use shell_chat_app_multi_ser.Server.State.Loops.{
  sends, Sends, for_each-sends, gather-map, sends-send,
}
use shell_chat_app_multi_ser.Server.Chat.Locate.{get_elem?-Begins}
use shell_chat_app_multi_ser.Server.Peers.{server_at}
use shell_chat_app_multi_ser.Server.Round.{renew_to, renew_channel, renew_from, renew, min_1}

channel_at-Begins :
    (cells : Cells Channel) (chs : List Channel) (i : ℕ) (c : Channel)
    → Begins cells chs
    → get_elem? chs i ≡ some c
    → channel_at cells i ≡ ok c
channel_at-Begins cells chs i c b e = let e' = get_elem?-Begins cells chs i c b e in ground arith

not-exceeds : (now t : ℕ) → now ≤ t + min_1 → exceeds (sub_ℕ now t) min_1 ≡ false
not-exceeds now t h = ground arith

exceeds-late : (now t : ℕ) → t + min_1 < now → exceeds (sub_ℕ now t) min_1 ≡ true
exceeds-late now t h = ground arith

renew_to-Sends :
    (s : State) (i : ℕ) (c : Channel) (printed : Server) (srvrs : List Server)
    → get_elem? s.srvrs i ≡ some printed
    → length c.chnl_name < channel_max
    → All (Sends s (renew_to i c) (λ v. told (serv_join c.chnl_name) v ∷ [])) srvrs
unfolding renew_to
renew_to-Sends s i c printed [] e h = tt
renew_to-Sends s i c printed (x ∷ srvrs) e h = (
  λ ds.
      rw (s2s_fill_join-ok c.chnl_name h, e, server_at)
        (sends-send s ds x.addr (to_server (serv_join c.chnl_name))),
  renew_to-Sends s i c printed srvrs e h,
)

-- Channel `i` of those that the table holds, if it was last renewed more than a minute ago, its
-- name fits its field and there is a neighbour `i`, is renewed: every adjacent server is sent the
-- join, the channel has the new time, and nothing else changes.
pub renew_channel-renews :
    (now i : ℕ) (s : State) (chs : List Channel) (c : Channel) (printed : Server)
    → Holds s.channels s.num_chnnls chs
    → get_elem? chs i ≡ some c
    → c.tm + min_1 < now
    → get_elem? s.srvrs i ≡ some printed
    → length c.chnl_name < channel_max
    → renew_channel now i s
      ≡ done tt (record (sends s (map (told (serv_join c.chnl_name)) s.srvrs)) {
        channels = set s.channels i (full (record c { tm = now }));
      })
unfolding renew_channel
renew_channel-renews now i s chs c printed h at late there fits =
    rw
      (
        channel_at-Begins s.channels chs i c h.0 at,
        exceeds-late now c.tm late,
        for_each-sends s (renew_to i c) (λ v. told (serv_join c.chnl_name) v ∷ []) s.srvrs
            (renew_to-Sends s i c printed s.srvrs there fits),
        gather-map (told (serv_join c.chnl_name)) s.srvrs,
      )
      refl

-- A channel that was renewed in the last minute is left alone.
renew_channel-fresh :
    (now i : ℕ) (s : State) (chs : List Channel) (c : Channel)
    → Holds s.channels s.num_chnnls chs
    → get_elem? chs i ≡ some c
    → now ≤ c.tm + min_1
    → renew_channel now i s ≡ done tt s
unfolding renew_channel
renew_channel-fresh now i s chs c h at fresh =
    rw (channel_at-Begins s.channels chs i c h.0 at, not-exceeds now c.tm fresh) refl

renew_to_past :
    (i : ℕ) (s : State) (c : Channel) (srvr : Server) (more : List Server)
    → get_elem? s.srvrs i ≡ none
    → length c.chnl_name < channel_max
    → for_each (renew_to i c) (srvr ∷ more) s ≡ failed out_of_bounds s
unfolding renew_to for_each
renew_to_past i s c srvr more past fits =
    rw (s2s_fill_join-ok c.chnl_name fits, past, server_at) refl

-- A channel that was not renewed for a minute ends the server, if it has a neighbour and the channel's
-- position is past its neighbours: the line that is printed reads the address of a neighbour there.
pub renew_channel_overrun :
    (now i : ℕ) (s : State) (chs : List Channel) (c : Channel) (srvr : Server) (more : List Server)
    → Holds s.channels s.num_chnnls chs
    → get_elem? chs i ≡ some c
    → c.tm + min_1 < now
    → s.srvrs ≡ srvr ∷ more
    → get_elem? s.srvrs i ≡ none
    → length c.chnl_name < channel_max
    → renew_channel now i s ≡ failed out_of_bounds s
unfolding renew_channel
renew_channel_overrun now i s chs c srvr more h at late one past fits =
    rw
      (
        channel_at-Begins s.channels chs i c h.0 at,
        exceeds-late now c.tm late,
        ap (λ l. for_each (renew_to i c) l s) one ∙ renew_to_past i s c srvr more past fits,
      )
      refl

-- If the server has one neighbour and its second channel, whose name fits its field, was last
-- renewed more than a minute ago, the renewals read past the table of neighbours, before anything
-- changes.
pub renew_overrun :
    (now : ℕ) (s : State) (first c : Channel) (chs : List Channel) (srvr : Server)
    → Holds s.channels s.num_chnnls (first ∷ c ∷ chs)
    → c.tm + min_1 < now
    → s.srvrs ≡ srvr ∷ []
    → length c.chnl_name < channel_max
    → renew now s ≡ failed out_of_bounds s
unfolding renew renew_from
renew_overrun now s first c chs srvr h late one fits =
    let count : rounds s.num_chnnls - 1 ≡ suc (length chs) = omega (arith, ap rounds h.1) in
    rw
      (
        count,
        renew_channel_overrun now 1 s (first ∷ c ∷ chs) c srvr [] h refl late one
            (ap (λ l. get_elem? l 1) one) fits,
      )
      refl

renew_from-fresh :
    (now i n : ℕ) (s : State) (chs : List Channel)
    → Holds s.channels s.num_chnnls chs
    → i + n ≤ length chs
    → All (λ c. now ≤ c.tm + min_1) chs
    → renew_from now i n s ≡ done tt s
unfolding renew_from
renew_from-fresh now i zero s chs h le fresh = refl
renew_from-fresh now i (suc n) s chs h le fresh =
    let (c, at, young) = pick chs i (omega arith) fresh in
    rw (renew_channel-fresh now i s chs c h at young)
      (renew_from-fresh now (suc i) n s chs h (omega arith) fresh)
  where
    pick :
        (cs : List Channel) (j : ℕ)
        → j < length cs
        → All (λ c. now ≤ c.tm + min_1) cs
        → (c : Channel) × (get_elem? cs j ≡ some c) × (now ≤ c.tm + min_1)
    pick [] j lt all = elim lt [ ]
    pick (c ∷ cs) zero lt all = (c, refl, all.0)
    pick (c ∷ cs) (suc j) lt all = pick cs j (omega arith) all.1

-- When no channel is older than a minute, the renewals send nothing and change nothing.
pub renew-fresh :
    (now : ℕ) (s : State) (chs : List Channel)
    → Holds s.channels s.num_chnnls chs
    → All (λ c. now ≤ c.tm + min_1) chs
    → renew now s ≡ done tt s
unfolding renew renew_from
renew-fresh now s [] h fresh = rw h.1 refl
renew-fresh now s (c ∷ chs) h fresh =
    renew_from-fresh now 1 (rounds s.num_chnnls - 1) s (c ∷ chs) h (omega (arith, ap rounds h.1))
      fresh

-- ===== src/Server/Users/Dropping.antt =====
-- REQ_LOGOUT: what `remove_user` in every channel makes of the rooms.
use shell_chat_app_multi_ser.Base.{
  suc, ◌≡◌, ◌≢◌, refl, ap, ◌∙◌, List, [], ◌∷◌, map, some, Text, ok, All, any, init, erase_first,
  length, if◌then◌else◌, Bool-cases, inl, inr,
}
use shell_chat_app_multi_ser.Cells.{Cells, Slot, full, uninit}
use shell_chat_app_multi_ser.Cells.Holds.{Begins}
use shell_chat_app_multi_ser.Channels.{User, Heap, Channel, remove_user}
use shell_chat_app_multi_ser.Channels.Members.{Members}
use shell_chat_app_multi_ser.Channels.Remove.{named, remove_user-erase, remove_user_drops_last}
use shell_chat_app_multi_ser.Directory.{logout_channels}
use shell_chat_app_multi_ser.Server.Chat.{Room, IsRoom, AreRooms}

-- What `remove_user` leaves of a list of members, one of that name or not.
abbrev pub without : Text → List User → List User
without username ms = if any (named username) ms then erase_first (named username) ms else init ms

abbrev pub after_logout : Text → Room → Room
after_logout username room = record room { members = without username room.members }

remove_user-without :
    (heap : Heap) (c : Channel) (ms : List User) (username : Text)
    → Members heap c ms
    → ms ≢ []
    → (c' : Channel) × (ret : Slot User) × (remove_user heap c username ≡ ok (c', ret))
      × Members heap c' (without username ms)
      × (c'.chnl_name ≡ c.chnl_name)
      × (c'.tm ≡ c.tm)
remove_user-without heap c [] username v some_member = absurd (some_member refl)
remove_user-without heap c (m ∷ ms) username v some_member =
    elim (Bool-cases (any (named username) (m ∷ ms))) [
      | inl member ↦
          let (c', ret, removed, joined, n, t) =
            remove_user-erase heap c (m ∷ ms) username v member in
          (c', ret, removed, rw member joined, n, t)
      | inr stranger ↦
          let (c', removed, joined, n, t) =
            remove_user_drops_last heap c m ms username v stranger in
          (c', uninit, removed, rw stranger joined, n, t)
    ]

logout_room :
    (heap : Heap) (c : Channel) (r : Room) (username : Text)
    → IsRoom heap c r
    → r.members ≢ []
    → (c' : Channel) × (ret : Slot User) × (remove_user heap c username ≡ ok (c', ret))
      × IsRoom heap c' (after_logout username r)
logout_room heap c r username v some_member =
    let (c', ret, removed, joined, n, t) =
      remove_user-without heap c r.members username v.joined some_member in
    (c', ret, removed, record { joined = joined; called = n ∙ v.called; timed = t ∙ v.timed })

pub logout_channels-rooms :
    (heap : Heap) (u : User) (cells : Cells Channel) (chs : List Channel) (rooms : List Room)
    → Begins cells chs
    → AreRooms heap chs rooms
    → All (λ r. r.members ≢ []) rooms
    → (cells' : Cells Channel) × (chs' : List Channel) × (logout_channels heap
          (some u)
          cells
          (length chs)
        ≡ ok cells')
      × Begins cells' chs'
      × (length chs' ≡ length chs)
      × (length cells' ≡ length cells)
      × AreRooms heap chs' (map (after_logout u.username) rooms)
unfolding logout_channels
logout_channels-rooms heap u cells [] [] b h some_members = (cells, [], refl, tt, refl, refl, tt)
logout_channels-rooms heap u cells [] (r ∷ rooms) b h some_members = absurd h
logout_channels-rooms heap u cells (c ∷ chs) [] b h some_members = absurd h
logout_channels-rooms heap u [] (c ∷ chs) (r ∷ rooms) b h some_members = absurd b
logout_channels-rooms heap u (x ∷ cells) (c ∷ chs) (r ∷ rooms) b h some_members =
    let (c', ret, removed, v) = logout_room heap c r u.username h.0 some_members.0 in
    let (cells', chs', e, b', n, size, h') =
      logout_channels-rooms heap u cells chs rooms b.1 h.1 some_members.1 in
    (
      full c' ∷ cells',
      c' ∷ chs',
      rw (b.0, removed, e) refl,
      (refl, b'),
      ap suc n,
      ap suc size,
      (v, h'),
    )

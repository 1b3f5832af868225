-- ===== src/Tests/Tables.antt =====
-- Tables: members, channels, subscriptions, ids and error texts.
use shell_chat_app_multi_ser.Adjacent.{Server, has_channel_server, remove_adj_channel}
use shell_chat_app_multi_ser.Adjacent.Removal.{remove_adj_channel_keeps_first}
use shell_chat_app_multi_ser.Base.{
  [], codes, erase_first, init, ok, pos, refl, str_eq, true, ◌∷◌, ◌≡◌,
}
use shell_chat_app_multi_ser.Cells.{Slot, neat_remove, uninit}
use shell_chat_app_multi_ser.Channels.{Channel, User, remove_user}
use shell_chat_app_multi_ser.Channels.Members.{Members}
use shell_chat_app_multi_ser.Channels.Remove.{named, remove_user-erase, remove_user_drops_last}
use shell_chat_app_multi_ser.Duckchat.{common}
use shell_chat_app_multi_ser.Tests.Setup.{
  ann, bob, common-Members, common_channel, heap, left, left-IsSound, ruby, users,
}

-- The server `left` without its last subscription.
abbrev cut_left : Server
cut_left = record left { num_chnnls = pos 1 }

remove_user-erase_example :
    (chnl' : Channel) × (ret : Slot User) × (remove_user heap common_channel (codes "ann")
      ≡ ok (chnl', ret))
    × Members heap chnl' (erase_first (named (codes "ann")) users)
    × (chnl'.chnl_name ≡ common_channel.chnl_name)
    × (chnl'.tm ≡ common_channel.tm)
unfolding str_eq
remove_user-erase_example =
    remove_user-erase heap common_channel users (codes "ann") common-Members refl

remove_user_drops_last_example :
    (chnl' : Channel) × (remove_user heap common_channel (codes "eve") ≡ ok (chnl', uninit))
    × Members heap chnl' (init (ann ∷ (bob ∷ [])))
    × (chnl'.chnl_name ≡ common_channel.chnl_name)
    × (chnl'.tm ≡ common_channel.tm)
unfolding str_eq
remove_user_drops_last_example =
    remove_user_drops_last heap common_channel ann (bob ∷ []) (codes "eve") common-Members refl

remove_adj_channel_keeps_first_example : has_channel_server cut_left common ≡ ok true
unfolding str_eq remove_adj_channel neat_remove
remove_adj_channel_keeps_first_example =
    remove_adj_channel_keeps_first left cut_left common ruby [] 1 2 left-IsSound refl refl refl

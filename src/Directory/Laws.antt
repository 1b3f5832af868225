-- ===== src/Directory/Laws.antt =====
-- The two tables as lists of what they hold.
use shell_chat_app_multi_ser.Base.{
  ℕ, suc, ◌<◌, ◌≡◌, refl, ap, Bool, true, not, List, [], ◌∷◌, ◌++◌, Text, str_eq, ok, ℤ, pos,
  length, length-append, length-set, All, any, ltb, erase_first, set, arith,
}
use shell_chat_app_multi_ser.Duckchat.{Address, channel_max}
use shell_chat_app_multi_ser.Cells.{Cells, full, Removed}
use shell_chat_app_multi_ser.Cells.Holds.{Holds, Begins-set_end, write-ok}
use shell_chat_app_multi_ser.Cells.Search.{find_index, search-Begins}
use shell_chat_app_multi_ser.Cells.Shift.{neat_remove-Holds}
use shell_chat_app_multi_ser.Channels.{User, Heap, Channel, has_address, comp_sockaddr}
use shell_chat_app_multi_ser.Channels.Members.{
  IsLive, Members, has_address-live, create_channel-empty,
}
use shell_chat_app_multi_ser.Directory.{
  has_chnl_name, find_channel, find_user, add_chnl, chnl_cmp, remove_chnl,
}

abbrev pub called : Text → Channel → Bool
called name chnl = str_eq chnl.chnl_name name

abbrev pub at_address : Address → User → Bool
at_address addr u = comp_sockaddr u.address addr

has_chnl_name-All :
    (name : Text) (chs : List Channel) → All (λ c. has_chnl_name name c ≡ ok (called name c)) chs
has_chnl_name-All name [] = tt
has_chnl_name-All name (c ∷ chs) = (refl, has_chnl_name-All name chs)

-- `find_channel` returns the first channel of that name with its position, NULL if there is none.
pub find_channel-first :
    (cells : Cells Channel) (n : ℤ) (chs : List Channel) (name : Text)
    → Holds cells n chs
    → find_channel cells n name ≡ ok (find_index (called name) 0 chs)
unfolding find_channel
find_channel-first cells n chs name h =
    rw h.1 (
      search-Begins (has_chnl_name name) (called name) cells 0 chs h.0 (has_chnl_name-All name chs))

-- `find_user` returns the first user with that address and its position, NULL if there is none.
pub find_user-first :
    (heap : Heap) (cells : Cells User) (n : ℤ) (us : List User) (addr : Address)
    → Holds cells n us
    → IsLive heap us
    → find_user heap cells n addr ≡ ok (find_index (at_address addr) 0 us)
unfolding find_user
find_user-first heap cells n us addr h l = rw h.1 (
    search-Begins (has_address heap addr) (at_address addr) cells 0 us h.0
      (has_address-live heap addr us l))

-- `add_chnl` puts a new, empty channel behind the others, if its name fits and the table has room.
pub add_chnl-append :
    (heap : Heap) (now : ℕ) (cells : Cells Channel) (n : ℤ) (chs : List Channel) (name : Text)
    → Holds cells n chs
    → length chs < length cells
    → length name < channel_max
    → (chnl : Channel) × (cells' : Cells Channel) × (n' : ℤ) × (add_chnl now cells n name
        ≡ ok (chnl, cells', n'))
      × Holds cells' n' (chs ++ chnl ∷ [])
      × (length cells' ≡ length cells)
      × Members heap chnl []
      × (chnl.chnl_name ≡ name)
      × (chnl.tm ≡ now)
unfolding add_chnl
add_chnl-append heap now cells n chs name h room fits =
    let (chnl, e, m, named, timed) = create_channel-empty heap now name fits in
    (
      chnl,
      set cells (length chs) (full chnl),
      pos (suc (length chs)),
      rw (e, h.1, write-ok cells (length chs) (full chnl) room) refl,
      (
        Begins-set_end cells chs chnl h.0 room,
        ap pos (omega (arith, length-append chs (chnl ∷ []))),
      ),
      length-set cells (length chs) (full chnl),
      m,
      named,
      timed,
    )

-- If the table holds `chs` and one of them has the name, `remove_chnl` takes out the first one that
-- has it, keeps the order of the others, and writes past the table exactly if it was full.
pub remove_chnl-erase :
    (cells : Cells Channel) (n : ℤ) (chs : List Channel) (name : Text)
    → Holds cells n chs
    → any (called name) chs ≡ true
    → (r : Removed Channel) × (remove_chnl cells n name ≡ ok r)
      × Holds r.cells r.count (erase_first (called name) chs)
      × (length r.cells ≡ length cells)
      × (r.stray ≡ not (ltb (length chs) (length cells)))
unfolding remove_chnl
remove_chnl-erase cells n chs name h hit =
    neat_remove-Holds (chnl_cmp name) (called name) cells n chs h (has_chnl_name-All name chs) hit

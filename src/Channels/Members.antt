-- ===== src/Channels/Members.antt =====
-- A channel as the list of its members: searches, and the operations that add a member.
use shell_chat_app_multi_ser.Base.{
  ℕ, suc, ap, ◌<◌, ◌≡◌, refl, Bool, false, List, [], ◌∷◌, ◌++◌, Text, str_eq, ok, All, All-append,
  length, length-append, length-set, length-replicate, find_first, pos, arith, strcpy-ok, set,
  replicate, err, out_of_bounds,
}
use shell_chat_app_multi_ser.Duckchat.{Address, max_users, username_max, channel_max}
use shell_chat_app_multi_ser.Cells.{Slot, full, uninit}
use shell_chat_app_multi_ser.Cells.Holds.{Holds, Begins-set_end, write-ok, write-full}
use shell_chat_app_multi_ser.Cells.Search.{find_index, search-Begins}
use shell_chat_app_multi_ser.Channels.{
  User, Heap, Channel, is_freed, load, found, has_name, has_address, find_users, find_byaddr,
  add_user, create_user, create_channel, comp_sockaddr, new_user,
}

abbrev pub IsLive : Heap → List User → Type 0
IsLive heap us = All (λ u. is_freed heap u.id ≡ false) us

-- The channel's array has its declared size, its first entries point to the users of the list, in
-- order, and none of them is freed.
pub record Members (heap : Heap) (chnl : Channel) (us : List User) : Type 0 where
  pub held : Holds chnl.connected_users chnl.num_users us
  pub live : IsLive heap us
  pub size : length chnl.connected_users ≡ max_users

pub load-live : (heap : Heap) (u : User) → is_freed heap u.id ≡ false → load heap u ≡ ok u
unfolding load
load-live heap u h = rw h

pub found-find_index :
    (p : User → Bool) (i : ℕ) (us : List User) → found (find_index p i us) ≡ find_first p us
found-find_index p i [] = refl
found-find_index p i (u ∷ us) = ground (arith, found-find_index p (suc i) us)

pub has_name-live :
    (heap : Heap) (name : Text) (us : List User)
    → IsLive heap us
    → All (λ u. has_name heap name u ≡ ok (str_eq name u.username)) us
has_name-live heap name [] l = tt
has_name-live heap name (u ∷ us) l = (rw (load-live heap u l.0), has_name-live heap name us l.1)

pub has_address-live :
    (heap : Heap) (a : Address) (us : List User)
    → IsLive heap us
    → All (λ u. has_address heap a u ≡ ok (comp_sockaddr u.address a)) us
has_address-live heap a [] l = tt
has_address-live heap a (u ∷ us) l = (rw (load-live heap u l.0), has_address-live heap a us l.1)

-- `find_users` returns the first member of that name, NULL if there is none, and meets no fault.
pub find_users-first :
    (heap : Heap) (chnl : Channel) (us : List User) (name : Text)
    → Members heap chnl us
    → find_users heap chnl name ≡ ok (find_first (λ u. str_eq name u.username) us)
unfolding find_users
find_users-first heap chnl us name m =
    rw
      (
        m.held.1,
        search-Begins (has_name heap name) (λ u. str_eq name u.username) chnl.connected_users 0 us
            m.held.0 (has_name-live heap name us m.live),
      )
      (rw (found-find_index (λ u. str_eq name u.username) 0 us))

-- `find_byaddr` returns the first member with that address and port, NULL if there is none.
pub find_byaddr-first :
    (heap : Heap) (chnl : Channel) (us : List User) (a : Address)
    → Members heap chnl us
    → find_byaddr heap chnl a ≡ ok (find_first (λ u. comp_sockaddr u.address a) us)
unfolding find_byaddr
find_byaddr-first heap chnl us a m =
    rw
      (
        m.held.1,
        search-Begins (has_address heap a) (λ u. comp_sockaddr u.address a) chnl.connected_users 0
            us m.held.0 (has_address-live heap a us m.live),
      )
      (rw (found-find_index (λ u. comp_sockaddr u.address a) 0 us))

-- `add_user` on a channel with room puts the user behind the others and changes nothing else.
pub add_user-append :
    (heap : Heap) (chnl : Channel) (us : List User) (u : User)
    → Members heap chnl us
    → is_freed heap u.id ≡ false
    → length us < max_users
    → (chnl' : Channel) × (add_user chnl (full u) ≡ ok chnl')
      × Members heap chnl' (us ++ u ∷ [])
      × (chnl'.chnl_name ≡ chnl.chnl_name)
      × (chnl'.tm ≡ chnl.tm)
unfolding add_user
add_user-append heap chnl us u m l h =
    let cells = set chnl.connected_users (length us) (full u) in
    (
      record chnl { connected_users = cells; num_users = pos (suc (length us)) },
      rw (m.held.1, write-ok chnl.connected_users (length us) (full u) (omega (arith, m.size)))
          refl,
      record {
        held = (
          Begins-set_end chnl.connected_users us u m.held.0 (omega (arith, m.size)),
          ap pos (omega (arith, length-append us (u ∷ []))),
        );
        live = All-append (λ v. is_freed heap v.id ≡ false) us (u ∷ []) m.live (l, tt);
        size = rw length-set m.size;
      },
      refl,
      refl,
    )

-- With all 32 places taken `add_user` writes past the array.
pub add_user-full :
    (heap : Heap) (chnl : Channel) (us : List User) (s : Slot User)
    → Members heap chnl us
    → length us ≡ max_users
    → add_user chnl s ≡ err out_of_bounds
unfolding add_user
add_user-full heap chnl us s m h =
    rw (m.held.1, write-full chnl.connected_users (length us) s (omega (arith, m.size)))

-- `create_user` makes a user of a name that fits, under the next allocation number, and puts it
-- behind the other members.
pub create_user-append :
    (heap : Heap) (chnl : Channel) (us : List User) (name : Text) (addr : Address) (len : ℕ)
    → Members heap chnl us
    → is_freed heap heap.next ≡ false
    → length name < username_max
    → length us < max_users
    → (chnl' : Channel) × (create_user heap chnl name addr len
        ≡ ok (new_user heap name addr len, chnl', record heap { next = suc heap.next }))
      × Members heap chnl' (us ++ new_user heap name addr len ∷ [])
      × (chnl'.chnl_name ≡ chnl.chnl_name)
      × (chnl'.tm ≡ chnl.tm)
unfolding create_user
create_user-append heap chnl us name addr len m l hn h =
    let u = new_user heap name addr len in
    let cells = set chnl.connected_users (length us) (full u) in
    (
      record chnl { connected_users = cells; num_users = pos (suc (length us)) },
      rw
          (
            strcpy-ok username_max name hn,
            m.held.1,
            write-ok chnl.connected_users (length us) (full u) (omega (arith, m.size)),
          )
          refl,
      record {
        held = (
          Begins-set_end chnl.connected_users us u m.held.0 (omega (arith, m.size)),
          ap pos (omega (arith, length-append us (u ∷ []))),
        );
        live = All-append (λ v. is_freed heap v.id ≡ false) us (u ∷ []) m.live (l, tt);
        size = rw length-set m.size;
      },
      refl,
      refl,
    )

-- A new channel has the name it was asked for, the time of its making, and no member.
pub create_channel-empty :
    (heap : Heap) (now : ℕ) (name : Text)
    → length name < channel_max
    → (chnl : Channel) × (create_channel now name ≡ ok chnl)
      × Members heap chnl []
      × (chnl.chnl_name ≡ name)
      × (chnl.tm ≡ now)
unfolding create_channel
create_channel-empty heap now name h = (
  record {
    chnl_name = name;
    connected_users = replicate max_users uninit;
    num_users = pos 0;
    tm = now;
  },
  rw (strcpy-ok channel_max name h) refl,
  record { held = (tt, refl); live = tt; size = length-replicate {A = Slot User} max_users uninit },
  refl,
  refl,
)

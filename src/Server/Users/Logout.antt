-- ===== src/Server/Users/Logout.antt =====
-- REQ_LOGOUT: what becomes of the rooms and of the table.
use Prim.Native.Nat.add
use shell_chat_app_multi_ser.Base.{
  ℕ, suc, ◌+◌, ◌-◌, ◌≤◌, ◌<◌, ◌≡◌, ◌≢◌, refl, ap, sym, ◌∙◌, Bool, false, List, [], ◌∷◌, map, some,
  Text, ok, err, out_of_bounds, pos, rounds, decr, All, erase_first, All-erase_first, find_first,
  length, ◌==◌, arith, Bool-cases, inl, inr,
}
use shell_chat_app_multi_ser.Duckchat.{Address}
use shell_chat_app_multi_ser.Cells.{Cells, Slot, uninit}
use shell_chat_app_multi_ser.Cells.Holds.{Begins, write-negative}
use shell_chat_app_multi_ser.Cells.Search.{find_index}
use shell_chat_app_multi_ser.Cells.Shift.{move_down-Begins}
use shell_chat_app_multi_ser.Channels.{User, Heap, Channel, is_freed, remove_user, add_user}
use shell_chat_app_multi_ser.Channels.Members.{IsLive, Members}
use shell_chat_app_multi_ser.Channels.Remove.{remove_user-absent}
use shell_chat_app_multi_ser.Directory.{close_users}
use shell_chat_app_multi_ser.Directory.Laws.{at_address, find_user-first}
use shell_chat_app_multi_ser.Server.State.{State, done}
use shell_chat_app_multi_ser.Server.Chat.{Room, AreRooms, Represents, Rising}
use shell_chat_app_multi_ser.Server.Users.{handle_logout}
use shell_chat_app_multi_ser.Server.Users.Dropping.{after_logout, logout_channels-rooms}

-- The table without the user at the position where it was found.
close_users-erase :
    (p : User → Bool) (cells : Cells User) (us : List User) (i : ℕ) (u : User)
    → Begins cells us
    → find_first p us ≡ some u
    → (k : ℕ) × (find_index p i us ≡ some (i + k, u))
      × (cells' : Cells User) × (close_users cells k (length us - 1 - k) ≡ ok cells')
      × Begins cells' (erase_first p us)
      × (length cells' ≡ length cells)
      × (length us ≡ suc (length (erase_first p us)))
unfolding close_users
close_users-erase p cells [] i u b e = cc
close_users-erase p [] (y ∷ us) i u b e = absurd b
close_users-erase p (c ∷ cells) (y ∷ us) i u b e = elim (Bool-cases (p y)) [
  | inl hit ↦
      let (moved, e', b', size) = move_down-Begins c cells us b.1 in
      let same : y ≡ u = ground arith in
      let left : suc (length us) - 1 - 0 ≡ length us = omega arith in
      (
        0,
        rw (hit, same) (ap (λ n. some (n, u)) (omega arith)),
        moved,
        rw left e',
        rw hit b',
        size,
        rw hit refl,
      )
  | inr miss ↦
      let (k, found_at, moved, e', b', size, n) =
        close_users-erase p cells us (suc i) u b.1 (rw miss at e) in
      let left : suc (length us) - 1 - suc k ≡ length us - 1 - k = omega arith in
      (
        suc k,
        rw (miss, found_at) (ap (λ n. some (n, u)) (omega arith)),
        c ∷ moved,
        rw (left, e') refl,
        rw miss (b.0, b'),
        ap suc size,
        rw miss (ap suc n),
      )
]

-- The user that leaves the table has another number than those that stay.
Rising-erase :
    (p : User → Bool) (low next : ℕ) (us : List User) (u : User)
    → Rising low us next
    → find_first p us ≡ some u
    → Rising low (erase_first p us) next
      × All (λ w. (u.id == w.id) ≡ false) (erase_first p us)
      × (low ≤ u.id)
      × (u.id < next)
Rising-erase p low next [] u h e = cc
Rising-erase p low next (y ∷ us) u h e = elim (Bool-cases (p y)) [
  | inl hit ↦
      let same : y ≡ u = ground arith in
      (
        rw hit (Rising-lower (suc y.id) low next us h.1 (omega (arith, h.0))),
        rw (hit, ← same) (above (suc y.id) us y (omega arith) h.1),
        rw same at h.0,
        rw same at (Rising-below (suc y.id) next us h.1),
      )
  | inr miss ↦
      let (h', distinct, lower, upper) = Rising-erase p (suc y.id) next us u h.1 (rw miss at e) in
      (
        rw miss (h.0, h'),
        rw miss (ground (arith, lower), distinct),
        omega (arith, h.0, lower),
        upper,
      )
]
  where
    Rising-lower : (a b n : ℕ) (us : List User) → Rising a us n → b ≤ a → Rising b us n
    Rising-lower a b n [] h le = omega arith
    Rising-lower a b n (w ∷ us) h le = (omega (arith, h.0), h.1)

    Rising-below : (a n : ℕ) (us : List User) → Rising a us n → a ≤ n
    Rising-below a n [] h = h
    Rising-below a n (w ∷ us) h = omega (arith, h.0, Rising-below (suc w.id) n us h.1)

    above :
        (a : ℕ) (us : List User) (u : User)
        → u.id < a
        → Rising a us next
        → All (λ w. (u.id == w.id) ≡ false) us
    above a [] u le h = tt
    above a (w ∷ us) u le h = (ground (arith, h.0), above (suc w.id) us u (omega (arith, h.0)) h.1)

-- Nobody in the list is this user.
abbrev pub Others : User → List User → Type 0
Others u = All (λ w. (u.id == w.id) ≡ false)

-- The heap after `free`.
abbrev pub freed_heap : Heap → User → Heap
freed_heap heap u = record heap { freed = u.id ∷ heap.freed }

IsLive-freed :
    (heap : Heap) (u : User) (ws : List User)
    → IsLive heap ws
    → Others u ws
    → IsLive (freed_heap heap u) ws
IsLive-freed heap u [] l o = tt
IsLive-freed heap u (w ∷ ws) l o = (rw o.0 l.0, IsLive-freed heap u ws l.1 o.1)

AreRooms-freed :
    (heap : Heap) (u : User) (chs : List Channel) (rooms : List Room)
    → AreRooms heap chs rooms
    → All (λ r. Others u r.members) rooms
    → AreRooms (freed_heap heap u) chs rooms
AreRooms-freed heap u [] [] h o = tt
AreRooms-freed heap u [] (r ∷ rooms) h o = absurd h
AreRooms-freed heap u (c ∷ chs) [] h o = absurd h
AreRooms-freed heap u (c ∷ chs) (r ∷ rooms) h o = (
  record {
    joined = record {
      held = h.0.joined.held;
      live = IsLive-freed heap u r.members h.0.joined.live o.0;
      size = h.0.joined.size;
    };
    called = h.0.called;
    timed = h.0.timed;
  },
  AreRooms-freed heap u chs rooms h.1 o.1,
)

-- If the tables represent `us` and `rooms`, every room has a member, and the user of the table who
-- logs out is in no room any more once each has lost one member, then the user leaves the table and
-- is freed, and nothing is sent. A room that has a member of the user's name loses the first one;
-- every other room loses its last member.
pub handle_logout-removes :
    (s : State) (us : List User) (chs : List Channel) (rooms : List Room) (addr : Address)
    (u : User)
    → Represents s us chs rooms
    → find_first (at_address addr) us ≡ some u
    → All (λ r. r.members ≢ []) rooms
    → All (λ r. Others u r.members) (map (after_logout u.username) rooms)
    → (channels : Cells Channel) × (all_users : Cells User) × (chs' : List Channel) × (let s' =
          record s {
            channels = channels;
            all_users = all_users;
            num_users = decr s.num_users;
            heap = freed_heap s.heap u;
          } in
        (handle_logout addr s ≡ done tt s')
        × Represents s'
            (erase_first (at_address addr) us)
            chs'
            (map (after_logout u.username) rooms))
unfolding handle_logout
handle_logout-removes s us chs rooms addr u v who some_members others =
    let (cells, chs', left, b, n, size, h) =
      logout_channels-rooms s.heap u s.channels chs rooms v.channels.0 v.rooms_of some_members in
    let (k, found_at, moved, closed, b', size', m) =
      close_users-erase (at_address addr) s.all_users us 0 u v.users.0 who in
    let (rising, distinct, lower, upper) =
      Rising-erase (at_address addr) 0 s.heap.next us u v.rising who in
    (
      cells,
      moved,
      chs',
      (
        rw
            (
              find_user-first s.heap s.all_users s.num_users us addr v.users v.users_live,
              found_at,
              ap rounds v.channels.1,
              left,
              ap rounds v.users.1,
              add.zero,
              closed,
            )
            refl,
        record {
          users = (b', ap decr v.users.1 ∙ ap (λ x. decr (pos x)) m);
          users_size = size' ∙ v.users_size;
          users_live =
              IsLive-freed s.heap u (erase_first (at_address addr) us)
                (All-erase_first (λ w. is_freed s.heap w.id ≡ false) (at_address addr) us
                  v.users_live)
                distinct;
          channels = (b, v.channels.1 ∙ ap pos (sym n));
          channels_size = size ∙ v.channels_size;
          rooms_of = AreRooms-freed s.heap u chs' (map (after_logout u.username) rooms) h others;
          rising = rising;
          freed_below = (upper, v.freed_below);
        },
      ),
    )

-- If a channel has no members, `remove_user` succeeds, and `add_user` on what it leaves, for
-- whichever user, writes outside the array of members.
pub logout_spoils_empty_room :
    (heap : Heap) (c : Channel) (username : Text) (slot : Slot User)
    → Members heap c []
    → (c' : Channel) × (remove_user heap c username ≡ ok (c', uninit))
      × (add_user c' slot ≡ err out_of_bounds)
unfolding add_user
logout_spoils_empty_room heap c username slot m = (
  record c { num_users = decr (pos 0) },
  remove_user-absent heap c [] username m refl,
  rw write-negative refl,
)

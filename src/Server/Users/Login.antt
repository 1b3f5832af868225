-- ===== src/Server/Users/Login.antt =====
-- REQ_LOGIN: what becomes of the table of users and of the rooms.
use shell_chat_app_multi_ser.Base.{
  ℕ, suc, ◌<◌, ◌≡◌, refl, ap, ◌∙◌, Bool, true, false, List, [], ◌∷◌, ◌++◌, some, Text, str_eq_refl,
  ok, pos, All-append, any, erase_first, length, length-append, length-set, set, get_elem?, arith,
}
use shell_chat_app_multi_ser.Duckchat.{Address, max_users, username_max}
use shell_chat_app_multi_ser.Cells.{Cells, full}
use shell_chat_app_multi_ser.Cells.Holds.{Begins-set_end, write-ok}
use shell_chat_app_multi_ser.Channels.{User, Heap, Channel, new_user, is_freed}
use shell_chat_app_multi_ser.Channels.Members.{Members, create_user-append}
use shell_chat_app_multi_ser.Channels.Remove.{named, remove_user-erase}
use shell_chat_app_multi_ser.Server.State.{State, done, channel_at}
use shell_chat_app_multi_ser.Server.Chat.{IsRoom, Room, Represents}
use shell_chat_app_multi_ser.Server.Chat.Heaps.{
  not-freed, All-below_suc, Rising-append, AreRooms-heap,
}
use shell_chat_app_multi_ser.Server.Chat.Locate.{Begins-set_at, get_elem?-Begins}
use shell_chat_app_multi_ser.Server.Users.{handle_login, addr_len}

erase_first-last :
    (p : User → Bool) (us : List User) (u : User)
    → any p us ≡ false
    → p u ≡ true
    → (any p (us ++ u ∷ []) ≡ true) × (erase_first p (us ++ u ∷ []) ≡ us)
erase_first-last p [] u h hit = (rw hit refl, rw hit refl)
erase_first-last p (v ∷ us) u h hit = ground (arith, erase_first-last p us u)

channel_at-some :
    (cells : Cells Channel) (k : ℕ) (c : Channel)
    → get_elem? cells k ≡ some (full c)
    → channel_at cells k ≡ ok c
channel_at-some cells k c e = ground arith

-- The state once a user was made, by way of the first channel, and put behind the others.
abbrev with_user : State → List User → User → Channel → Channel → State
with_user s us u joined left = record s {
  heap = record s.heap { next = suc s.heap.next };
  channels = set (set s.channels 0 (full joined)) 0 (full left);
  all_users = set s.all_users (length us) (full u);
  num_users = pos (suc (length us));
}

with_user-Represents :
    (s : State) (us : List User) (c : Channel) (chs : List Channel) (r : Room) (rooms : List Room)
    (addr : Address) (name : Text) (joined left : Channel)
    → Represents s us (c ∷ chs) (r ∷ rooms)
    → length us < max_users
    → is_freed s.heap s.heap.next ≡ false
    → IsRoom (record s.heap { next = suc s.heap.next }) left r
    → Represents
        (with_user s us (new_user s.heap name addr addr_len) joined left)
        (us ++ new_user s.heap name addr addr_len ∷ [])
        (left ∷ chs)
        (r ∷ rooms)
with_user-Represents s us c chs r rooms addr name joined left v room fresh first =
    let u = new_user s.heap name addr addr_len in
    record {
      users = (
        Begins-set_end s.all_users us u v.users.0 (omega (arith, v.users_size)),
        ap pos (omega (arith, length-append us (u ∷ []))),
      );
      users_size = length-set s.all_users (length us) (full u) ∙ v.users_size;
      users_live =
          All-append (λ w. is_freed s.heap w.id ≡ false) us (u ∷ []) v.users_live (fresh, tt);
      channels = (
        Begins-set_at (set s.channels 0 (full joined)) (joined ∷ chs) 0 left
            (Begins-set_at s.channels (c ∷ chs) 0 joined v.channels.0 (omega arith)) (omega arith),
        v.channels.1,
      );
      channels_size =
          length-set (set s.channels 0 (full joined)) 0 (full left)
          ∙ length-set s.channels 0 (full joined)
          ∙ v.channels_size;
      rooms_of = (
        first,
        AreRooms-heap s.heap (record s.heap { next = suc s.heap.next }) refl chs rooms v.rooms_of.1,
      );
      rising = Rising-append 0 us u v.rising;
      freed_below = All-below_suc s.heap.freed s.heap.next v.freed_below;
    }

-- If the tables represent `us` and `rooms`, the name fits its field, the table of users and the
-- first room have a place left, and no member of the first room has the name, then REQ_LOGIN
-- succeeds: the user stands behind the others, with that name and the address that the request came
-- from; rooms, neighbours and ids are as before, nothing is sent, and the number of the next user
-- is one more.
pub handle_login-adds :
    (s : State) (us : List User) (c : Channel) (chs : List Channel) (r : Room) (rooms : List Room)
    (addr : Address) (name : Text)
    → Represents s us (c ∷ chs) (r ∷ rooms)
    → length name < username_max
    → length us < max_users
    → length r.members < max_users
    → any (named name) r.members ≡ false
    → (s' : State) × (c' : Channel) × (handle_login addr name s ≡ done tt s')
      × Represents s' (us ++ new_user s.heap name addr addr_len ∷ []) (c' ∷ chs) (r ∷ rooms)
      × (s'.srvrs ≡ s.srvrs)
      × (s'.recent ≡ s.recent)
      × (s'.sent ≡ s.sent)
      × (s'.heap.next ≡ suc s.heap.next)
unfolding handle_login
handle_login-adds s us c chs r rooms addr name v fits room place new =
    let u = new_user s.heap name addr addr_len in
    let heap' : Heap = record s.heap { next = suc s.heap.next } in
    let head = v.rooms_of.0 in
    let fresh : is_freed s.heap s.heap.next ≡ false =
      not-freed s.heap.freed s.heap.next s.heap.next v.freed_below (omega arith) in
    let (joined, made, m, n, t) =
      create_user-append s.heap c r.members name addr addr_len head.joined fresh fits place in
    let m' : Members heap' joined (r.members ++ u ∷ []) = record {
      held = m.held;
      live = m.live;
      size = m.size;
    } in
    let (gone, same) = erase_first-last (named name) r.members u new (str_eq_refl name) in
    let (left, ret, removed, m'', n', t') =
      remove_user-erase heap' joined (r.members ++ u ∷ []) name m' gone in
    let at : channel_at s.channels 0 ≡ ok c =
      channel_at-some s.channels 0 c
        (get_elem?-Begins s.channels (c ∷ chs) 0 c v.channels.0 refl) in
    (
      with_user s us u joined left,
      left,
      rw
          (
            at,
            made,
            removed,
            v.users.1,
            write-ok s.all_users (length us) (full u) (omega (arith, v.users_size)),
          )
          refl,
      with_user-Represents s us c chs r rooms addr name joined left v room fresh (record {
        joined = rw same at m'';
        called = n' ∙ n ∙ head.called;
        timed = t' ∙ t ∙ head.timed;
      }),
      refl,
      refl,
      refl,
      refl,
    )

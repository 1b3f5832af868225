-- ===== src/Server/Chat/Locate.antt =====
-- Where a named room stands in the channel table, and what a change of its channel changes.
use shell_chat_app_multi_ser.Base.{
  ℕ, zero, suc, ◌+◌, ◌<◌, ◌≡◌, refl, ap, ◌∙◌, ◌⊎◌, inl, inr, Bool, true, none, some, List, [], ◌∷◌,
  Text, str_eq, length, set, find_first, Bool-cases, arith, get_elem?, ◌++◌, any, erase_first,
}
use shell_chat_app_multi_ser.Cells.{Cells, full}
use shell_chat_app_multi_ser.Cells.Holds.{Begins}
use shell_chat_app_multi_ser.Cells.Search.{find_index}
use shell_chat_app_multi_ser.Channels.{Heap, Channel}
use shell_chat_app_multi_ser.Directory.Laws.{called}
use shell_chat_app_multi_ser.Server.Chat.{Room, IsRoom, AreRooms, room_named, amend}

-- The first channel of that name is the `place`-th of the list, whose head has index `i`; it is the
-- channel of `room`, and a change of it amends the rooms.
pub record Located (heap : Heap) (name : Text) (chs : List Channel) (rooms : List Room) (i : ℕ)
    : Type 0 where
  pub place : ℕ
  pub chnl : Channel
  pub room : Room
  pub hit : find_index (called name) i chs ≡ some (i + place, chnl)
  pub within : place < length chs
  pub is_room : IsRoom heap chnl room
  pub is_named : room_named name room ≡ true
  pub first : find_first (room_named name) rooms ≡ some room
  pub change :
      (chnl' : Channel) (f : Room → Room)
      → IsRoom heap chnl' (f room)
      → AreRooms heap (set chs place chnl') (amend name f rooms)

-- No channel has the name.
pub record Absent (name : Text) (chs : List Channel) (rooms : List Room) (i : ℕ) : Type 0 where
  pub miss : find_index (called name) i chs ≡ none
  pub no_room : find_first (room_named name) rooms ≡ none

pub locate :
    (heap : Heap) (name : Text) (chs : List Channel) (rooms : List Room) (i : ℕ)
    → AreRooms heap chs rooms
    → Absent name chs rooms i ⊎ Located heap name chs rooms i
locate heap name [] [] i h = inl (record { miss = refl; no_room = refl })
locate heap name [] (r ∷ rooms) i h = absurd h
locate heap name (c ∷ chs) [] i h = absurd h
locate heap name (c ∷ chs) (r ∷ rooms) i h = elim (Bool-cases (room_named name r)) [
  | inl found ↦ inr (record {
    place = 0;
    chnl = c;
    room = r;
    hit = rw (ap (λ n. str_eq n name) h.0.called ∙ found) (ap (λ k. some (k, c)) (omega arith));
    within = omega arith;
    is_room = h.0;
    is_named = found;
    first = rw found refl;
    change = λ chnl' f new. rw found (new, h.1);
  })
  | inr other ↦ elim (locate heap name chs rooms (suc i) h.1) [
    | inl a ↦ inl (record {
      miss = rw (ap (λ n. str_eq n name) h.0.called ∙ other) a.miss;
      no_room = rw other a.no_room;
    })
    | inr l ↦ inr (record {
      place = suc l.place;
      chnl = l.chnl;
      room = l.room;
      hit =
          rw (ap (λ n. str_eq n name) h.0.called ∙ other, l.hit)
            (ap (λ k. some (k, l.chnl)) (omega arith));
      within = omega (arith, l.within);
      is_room = l.is_room;
      is_named = l.is_named;
      first = rw other l.first;
      change = λ chnl' f new. rw other (h.0, l.change chnl' f new);
    })
  ]
]

-- The table after the channel at that place was changed.
pub Begins-set_at :
    {A : Type 0} (cells : Cells A) (xs : List A) (k : ℕ) (x : A)
    → Begins cells xs
    → k < length xs
    → Begins (set cells k (full x)) (set xs k x)
Begins-set_at cells [] k x b h = elim h [ ]
Begins-set_at [] (y ∷ ys) k x b h = absurd b
Begins-set_at (c ∷ cells) (y ∷ ys) zero x b h = (refl, b.1)
Begins-set_at (c ∷ cells) (y ∷ ys) (suc k) x b h =
    (b.0, Begins-set_at cells ys k x b.1 (omega arith))

pub AreRooms-append :
    (heap : Heap) (chs : List Channel) (rooms : List Room) (c : Channel) (r : Room)
    → AreRooms heap chs rooms
    → IsRoom heap c r
    → AreRooms heap (chs ++ c ∷ []) (rooms ++ r ∷ [])
AreRooms-append heap [] [] c r h new = (new, tt)
AreRooms-append heap [] (r' ∷ rooms) c r h new = absurd h
AreRooms-append heap (c' ∷ chs) [] c r h new = absurd h
AreRooms-append heap (c' ∷ chs) (r' ∷ rooms) c r h new =
    (h.0, AreRooms-append heap chs rooms c r h.1 new)

pub AreRooms-length :
    (heap : Heap) (chs : List Channel) (rooms : List Room)
    → AreRooms heap chs rooms
    → length chs ≡ length rooms
AreRooms-length heap [] [] h = refl
AreRooms-length heap [] (r ∷ rooms) h = absurd h
AreRooms-length heap (c ∷ chs) [] h = absurd h
AreRooms-length heap (c ∷ chs) (r ∷ rooms) h = ap suc (AreRooms-length heap chs rooms h.1)

pub get_elem?-Begins :
    {A : Type 0} (cells : Cells A) (xs : List A) (k : ℕ) (x : A)
    → Begins cells xs
    → get_elem? xs k ≡ some x
    → get_elem? cells k ≡ some (full x)
get_elem?-Begins cells [] k x b e = cc
get_elem?-Begins [] (y ∷ ys) k x b e = absurd b
get_elem?-Begins (c ∷ cells) (y ∷ ys) zero x b e =
    rw b.0 (ap (λ o. elim o [ none ↦ none | some a ↦ some (full a) ]) e)
get_elem?-Begins (c ∷ cells) (y ∷ ys) (suc k) x b e = get_elem?-Begins cells ys k x b.1 e

-- The channels and the rooms of a name correspond.
pub any-called :
    (heap : Heap) (name : Text) (chs : List Channel) (rooms : List Room)
    → AreRooms heap chs rooms
    → any (called name) chs ≡ any (room_named name) rooms
any-called heap name [] [] h = refl
any-called heap name [] (r ∷ rooms) h = absurd h
any-called heap name (c ∷ chs) [] h = absurd h
any-called heap name (c ∷ chs) (r ∷ rooms) h =
    let same : called name c ≡ room_named name r = ap (λ n. str_eq n name) h.0.called in
    ground (arith, any-called heap name chs rooms h.1)

pub AreRooms-erase :
    (heap : Heap) (name : Text) (chs : List Channel) (rooms : List Room)
    → AreRooms heap chs rooms
    → AreRooms heap (erase_first (called name) chs) (erase_first (room_named name) rooms)
AreRooms-erase heap name [] [] h = tt
AreRooms-erase heap name [] (r ∷ rooms) h = absurd h
AreRooms-erase heap name (c ∷ chs) [] h = absurd h
AreRooms-erase heap name (c ∷ chs) (r ∷ rooms) h =
    let same : called name c ≡ room_named name r = ap (λ n. str_eq n name) h.0.called in
    elim (Bool-cases (room_named name r)) [
      | inl hit ↦ rw (same ∙ hit, hit) h.1
      | inr miss ↦ rw (same ∙ miss, miss) (h.0, AreRooms-erase heap name chs rooms h.1)
    ]

-- A change that keeps the name changes neither whether the room is there nor what is left without it.
module _ (name : Text) (f : Room → Room) (keeps : (r : Room) → (f r).name ≡ r.name) where
  pub any-amend :
      (rooms : List Room) → any (room_named name) (amend name f rooms) ≡ any (room_named name) rooms
  any-amend [] = refl
  any-amend (r ∷ rooms) =
      let same : room_named name (f r) ≡ room_named name r = ap (λ n. str_eq n name) (keeps r) in
      ground (arith, any-amend rooms)

  pub erase_first-amend :
      (rooms : List Room)
      → erase_first (room_named name) (amend name f rooms) ≡ erase_first (room_named name) rooms
  erase_first-amend [] = refl
  erase_first-amend (r ∷ rooms) =
      let same : room_named name (f r) ≡ room_named name r = ap (λ n. str_eq n name) (keeps r) in
      ground (arith, erase_first-amend rooms)

pub any-find_first :
    {A : Type 0} (p : A → Bool) (xs : List A) (x : A) → find_first p xs ≡ some x → any p xs ≡ true
any-find_first p [] x e = cc
any-find_first p (y ∷ xs) x e = ground (arith, any-find_first p xs x)

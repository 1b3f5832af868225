-- ===== src/Server/Chat/Heaps.antt =====
-- The allocation numbers of users: what making and freeing one changes.
use shell_chat_app_multi_ser.Base.{
  ℕ, suc, ◌≤◌, ◌<◌, ◌≡◌, refl, false, List, [], ◌∷◌, ◌++◌, All, any, ◌==◌, arith,
}
use shell_chat_app_multi_ser.Channels.{User, Heap, Channel}
use shell_chat_app_multi_ser.Channels.Members.{IsLive}
use shell_chat_app_multi_ser.Server.Chat.{Room, IsRoom, AreRooms, Rising}

pub not-freed :
    (freed : List ℕ) (next k : ℕ)
    → All (λ j. j < next) freed
    → next ≤ k
    → any (λ j. j == k) freed ≡ false
not-freed [] next k h le = refl
not-freed (j ∷ freed) next k h le = ground (arith, not-freed freed next k h.1 le)

pub All-below_suc : (xs : List ℕ) (next : ℕ) → All (λ j. j < next) xs → All (λ j. j < suc next) xs
All-below_suc [] next h = tt
All-below_suc (x ∷ xs) next h = (omega arith, All-below_suc xs next h.1)

pub Rising-append :
    (low : ℕ) (us : List User) (u : User)
    → Rising low us u.id
    → Rising low (us ++ u ∷ []) (suc u.id)
Rising-append low [] u h = omega arith
Rising-append low (v ∷ us) u h = (h.0, Rising-append (suc v.id) us u h.1)

-- The same numbers are freed: the same users are live, and the same rooms hold.
module _ (h h' : Heap) (same : h.freed ≡ h'.freed) where
  pub IsLive-heap : (us : List User) → IsLive h us → IsLive h' us
  IsLive-heap us l = rw same at l

  pub IsRoom-heap : (c : Channel) (r : Room) → IsRoom h c r → IsRoom h' c r
  IsRoom-heap c r v = record {
    joined = record {
      held = v.joined.held;
      live = IsLive-heap r.members v.joined.live;
      size = v.joined.size;
    };
    called = v.called;
    timed = v.timed;
  }

  pub AreRooms-heap :
      (chs : List Channel) (rooms : List Room) → AreRooms h chs rooms → AreRooms h' chs rooms
  AreRooms-heap [] [] v = tt
  AreRooms-heap [] (r ∷ rooms) v = absurd v
  AreRooms-heap (c ∷ chs) [] v = absurd v
  AreRooms-heap (c ∷ chs) (r ∷ rooms) v = (IsRoom-heap c r v.0, AreRooms-heap chs rooms v.1)

-- ===== src/Channels/Remove.antt =====
-- `remove_user`, for the name of a member and for another name.
use shell_chat_app_multi_ser.Base.{
  suc, ◌≡◌, refl, ap, Bool, true, false, List, [], ◌∷◌, Text, str_eq, ok, All, All-erase_first,
  length, erase_first, length-erase_first, any, init, decr, pos, arith, ◌∙◌, sym, Bool-cases, inl,
  inr,
}
use shell_chat_app_multi_ser.Cells.{Cells, Slot, null, uninit}
use shell_chat_app_multi_ser.Cells.Holds.{Begins}
use shell_chat_app_multi_ser.Channels.{
  User, Heap, Channel, is_freed, close_gap, remove_user_loop, remove_user,
}
use shell_chat_app_multi_ser.Channels.Members.{IsLive, Members, load-live}

-- The test of `remove_user`.
abbrev pub named : Text → User → Bool
named username u = str_eq u.username username

close_gap-Begins :
    (hole : Slot User) (cells : Cells User) (us : List User)
    → Begins cells us
    → (moved : Cells User) × (close_gap (hole ∷ cells) (length us) ≡ ok moved)
      × Begins moved us
      × (length moved ≡ suc (length cells))
unfolding close_gap
close_gap-Begins hole cells [] b = (hole ∷ cells, refl, tt, refl)
close_gap-Begins hole [] (u ∷ us) b = absurd b
close_gap-Begins hole (c ∷ cells) (u ∷ us) b =
    let (moved, e, b', l) = close_gap-Begins null cells us b.1 in
    (c ∷ moved, rw e, (b.0, b'), ground arith)

remove_user_loop-Begins :
    (heap : Heap) (name : Text) (cells : Cells User) (us : List User)
    → Begins cells us
    → IsLive heap us
    → any (named name) us ≡ true
    → (moved : Cells User) × (ret : Slot User) × (remove_user_loop heap name cells (length us)
        ≡ ok (moved, ret))
      × Begins moved (erase_first (named name) us)
      × (length moved ≡ length cells)
unfolding remove_user_loop
remove_user_loop-Begins heap name cells [] b l h = cc
remove_user_loop-Begins heap name [] (u ∷ us) b l h = absurd b
remove_user_loop-Begins heap name (c ∷ cells) (u ∷ us) b l h = elim (Bool-cases (named name u)) [
  | inl hit ↦
      let (moved, e, b', s) = close_gap-Begins c cells us b.1 in
      (moved, c, rw (b.0, load-live heap u l.0, hit) (ground (arith, b.0)), ground arith, s)
  | inr miss ↦
      let (moved, ret, e, b', s) =
        remove_user_loop-Begins heap name cells us b.1 l.1 (ground arith) in
      (c ∷ moved, ret, rw (b.0, load-live heap u l.0, miss, e) refl, ground arith, ground arith)
]

remove_user_loop-absent :
    (heap : Heap) (name : Text) (cells : Cells User) (us : List User)
    → Begins cells us
    → IsLive heap us
    → any (named name) us ≡ false
    → remove_user_loop heap name cells (length us) ≡ ok (cells, uninit)
unfolding remove_user_loop
remove_user_loop-absent heap name cells [] b l h = refl
remove_user_loop-absent heap name [] (u ∷ us) b l h = absurd b
remove_user_loop-absent heap name (c ∷ cells) (u ∷ us) b l h =
    rw (b.0, load-live heap u l.0)
      (ground (arith, remove_user_loop-absent heap name cells us b.1 l.1 (ground arith)))

-- If a channel's members are `us` and one of them has the name, `remove_user` takes out the first
-- one that has it, keeps the order of the others, and leaves the channel's name and time as they
-- were.
pub remove_user-erase :
    (heap : Heap) (chnl : Channel) (us : List User) (name : Text)
    → Members heap chnl us
    → any (named name) us ≡ true
    → (chnl' : Channel) × (ret : Slot User) × (remove_user heap chnl name ≡ ok (chnl', ret))
      × Members heap chnl' (erase_first (named name) us)
      × (chnl'.chnl_name ≡ chnl.chnl_name)
      × (chnl'.tm ≡ chnl.tm)
unfolding remove_user
remove_user-erase heap chnl us name m h =
    let (cells, ret, e, b, s) =
      remove_user_loop-Begins heap name chnl.connected_users us m.held.0 m.live h in
    (
      record chnl { connected_users = cells; num_users = decr (pos (length us)) },
      ret,
      rw (m.held.1, e) refl,
      record {
        held = (b, rw (length-erase_first (named name) us, h));
        live = All-erase_first (λ u. is_freed heap u.id ≡ false) (named name) us m.live;
        size = s ∙ m.size;
      },
      refl,
      refl,
    )

-- If no member has the name, the array stays as it is and the count falls by one.
pub remove_user-absent :
    (heap : Heap) (chnl : Channel) (us : List User) (name : Text)
    → Members heap chnl us
    → any (named name) us ≡ false
    → remove_user heap chnl name ≡ ok (record chnl { num_users = decr (pos (length us)) }, uninit)
unfolding remove_user
remove_user-absent heap chnl us name m h =
    rw (m.held.1, remove_user_loop-absent heap name chnl.connected_users us m.held.0 m.live h) refl

Begins-init : (cells : Cells User) (us : List User) → Begins cells us → Begins cells (init us)
Begins-init cells [] b = tt
Begins-init [] (u ∷ us) b = absurd b
Begins-init (c ∷ cells) (u ∷ []) b = tt
Begins-init (c ∷ cells) (u ∷ v ∷ us) b = (b.0, Begins-init cells (v ∷ us) b.1)

length-init : {A : Type 0} (x : A) (xs : List A) → length (init (x ∷ xs)) ≡ length xs
length-init x [] = refl
length-init x (y ∷ ys) = ap suc (length-init y ys)

All-init : {A : Type 0} (P : A → Type 0) (xs : List A) → All P xs → All P (init xs)
All-init P [] h = tt
All-init P (x ∷ []) h = tt
All-init P (x ∷ y ∷ ys) h = (h.0, All-init P (y ∷ ys) h.1)

-- If a channel has members and none of them has the name, `remove_user` removes the last member,
-- leaves the channel's name and time as they were, and returns what was never assigned.
pub remove_user_drops_last :
    (heap : Heap) (chnl : Channel) (u : User) (us : List User) (name : Text)
    → Members heap chnl (u ∷ us)
    → any (named name) (u ∷ us) ≡ false
    → (chnl' : Channel) × (remove_user heap chnl name ≡ ok (chnl', uninit))
      × Members heap chnl' (init (u ∷ us))
      × (chnl'.chnl_name ≡ chnl.chnl_name)
      × (chnl'.tm ≡ chnl.tm)
remove_user_drops_last heap chnl u us name m h = (
  record chnl { num_users = decr (pos (suc (length us))) },
  remove_user-absent heap chnl (u ∷ us) name m h,
  record {
    held = (Begins-init chnl.connected_users (u ∷ us) m.held.0, ap pos (sym (length-init u us)));
    live = All-init (λ v. is_freed heap v.id ≡ false) (u ∷ us) m.live;
    size = m.size;
  },
  refl,
  refl,
)

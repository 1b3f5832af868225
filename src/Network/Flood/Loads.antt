-- ===== src/Network/Flood/Loads.antt =====
-- Loads: what a server sends to others when it gets a say or a leave.
use native.Mathlib.Nat.{suc-mul}
use shell_chat_app_multi_ser.Base.{
  ℕ, zero, suc, ◌+◌, ◌*◌, ◌≤◌, ◌≡◌, refl, ap, sym, ◌∙◌, true, Option, none, some, List, [], ◌∷◌,
  ◌++◌, append_assoc, append-nil, length, All, All-append, Result, ok, err, arith,
}
use shell_chat_app_multi_ser.Duckchat.{Address}
use shell_chat_app_multi_ser.Cells.{Cells, Slot}
use shell_chat_app_multi_ser.Packets.{
  Request, login, logout, join, leave, say, list, who, keep_alive, serv_join, serv_leave, serv_say,
  unknown,
}
use shell_chat_app_multi_ser.Recent.Seen.{among}
use shell_chat_app_multi_ser.Server.State.{
  State, Datagram, Message, Outcome, done, failed, M, lift, not_null, send, to_server, to_client,
  continue, for_cells, for_each,
}
use shell_chat_app_multi_ser.Network.Flood.{weight}

-- A say with one of these ids, or a leave.
abbrev pub Carries : List ℕ → Request → Type 0
Carries ks (serv_say id username channel text) = among id ks ≡ true
Carries ks (login name) = ⊥
Carries ks logout = ⊥
Carries ks (join channel) = ⊥
Carries ks (leave channel) = ⊥
Carries ks (say channel text) = ⊥
Carries ks list = ⊥
Carries ks (who channel) = ⊥
Carries ks keep_alive = ⊥
Carries ks (serv_join channel) = ⊥
Carries ks (serv_leave channel) = Unit
Carries ks (unknown type) = ⊥

abbrev pub message_weight : Message → ℕ
message_weight (to_server rq) = weight rq
message_weight (to_client reply) = 0

abbrev pub CarriesMessage : List ℕ → Message → Type 0
CarriesMessage ks (to_server rq) = Carries ks rq
CarriesMessage ks (to_client reply) = Unit

abbrev pub load : List Datagram → ℕ
load [] = 0
load (d ∷ ds) = message_weight d.message + load ds

pub load-append : (xs ys : List Datagram) → load (xs ++ ys) ≡ load xs + load ys
load-append [] ys = omega arith
load-append (x ∷ xs) ys = omega (arith, load-append xs ys)

-- If the step ends without a fault, it sends more by at most this weight, says with these ids and leaves
-- alone, and leaves the ids and the number of neighbours as they were.
module _ (ks : List ℕ) where
  pub record Added (b : ℕ) (s s' : State) : Type 0 where
    pub recent : s'.recent ≡ s.recent
    pub count : length s'.srvrs ≡ length s.srvrs
    pub more : List Datagram
    pub sent : s'.sent ≡ s.sent ++ more
    pub small : load more ≤ b
    pub carried : All (λ d. CarriesMessage ks d.message) more

  abbrev pub Adds : {A : Type 0} → ℕ → State → Outcome A → Type 0
  Adds b s (done a s') = Added b s s'
  Adds b s (failed e s') = Unit

  pub Added-none : (b : ℕ) (s : State) → Added b s s
  Added-none b s = record {
    recent = refl;
    count = refl;
    more = [];
    sent = sym (append-nil s.sent);
    small = omega arith;
    carried = tt;
  }

  pub Added-then : (b b' : ℕ) (s t u : State) → Added b s t → Added b' t u → Added (b + b') s u
  Added-then b b' s t u h h' = record {
    recent = h'.recent ∙ h.recent;
    count = h'.count ∙ h.count;
    more = h.more ++ h'.more;
    sent = h'.sent ∙ ap (λ l. l ++ h'.more) h.sent ∙ append_assoc s.sent h.more h'.more;
    small = omega (arith, load-append h.more h'.more, h.small, h'.small);
    carried = All-append (λ d. CarriesMessage ks d.message) h.more h'.more h.carried h'.carried;
  }

  Adds-after :
      {A : Type 0} (b b' : ℕ) (s t : State) (o : Outcome A)
      → Added b s t
      → Adds b' t o
      → Adds (b + b') s o
  Adds-after b b' s t (done a u) h h' = Added-then b b' s t u h h'
  Adds-after b b' s t (failed e u) h h' = tt

  pub Adds-continue :
      {A B : Type 0} (b b' : ℕ) (s : State) (o : Outcome A) (f : A → M B)
      → Adds b s o
      → ((a : A) (t : State) → Adds b' t (f a t))
      → Adds (b + b') s (continue o f)
  Adds-continue b b' s (done a t) f h k = Adds-after b b' s t (f a t) h (k a t)
  Adds-continue b b' s (failed e t) f h k = tt

  pub Adds-lift : {A : Type 0} (s : State) (r : Result A) → Adds 0 s (lift r s)
  Adds-lift s (ok a) = Added-none 0 s
  Adds-lift s (err e) = tt

  pub Adds-not_null : {A : Type 0} (s : State) (o : Option A) → Adds 0 s (not_null o s)
  Adds-not_null s none = tt
  Adds-not_null s (some a) = Added-none 0 s

  pub Adds-send :
      (s : State) (addr : Address) (m : Message)
      → CarriesMessage ks m
      → Adds (message_weight m) s (send addr m s)
  Adds-send s addr m h = record {
    recent = refl;
    count = refl;
    more = record { dest = addr; message = m } ∷ [];
    sent = refl;
    small = omega arith;
    carried = (h, tt);
  }

  pub Adds-weaken :
      {A : Type 0} (b b' : ℕ) (s : State) (o : Outcome A) → b ≤ b' → Adds b s o → Adds b' s o
  Adds-weaken b b' s (done a t) h k = record {
    recent = k.recent;
    count = k.count;
    more = k.more;
    sent = k.sent;
    small = omega (arith, k.small);
    carried = k.carried;
  }
  Adds-weaken b b' s (failed e t) h k = tt

  -- The first part sends nothing to servers.
  pub Adds-quiet :
      {A B : Type 0} (b : ℕ) (s : State) (o : Outcome A) (f : A → M B)
      → Adds 0 s o
      → ((a : A) (t : State) → Adds b t (f a t))
      → Adds b s (continue o f)
  Adds-quiet b s o f h k =
      Adds-weaken (0 + b) b s (continue o f) (omega arith) (Adds-continue 0 b s o f h k)

  pub Adds-for_each :
      {A : Type 0} (b : ℕ) (body : A → M (Unit {0})) (xs : List A) (s : State)
      → ((x : A) (t : State) → Adds b t (body x t))
      → Adds (length xs * b) s (for_each body xs s)
  unfolding for_each
  Adds-for_each b body [] s h = Added-none (0 * b) s
  Adds-for_each b body (x ∷ xs) s h =
      Adds-weaken (b + length xs * b) (suc (length xs) * b) s
        (continue (body x s) (λ _. for_each body xs)) (omega (arith, suc-mul (length xs) b))
        (Adds-continue b (length xs * b) s (body x s) (λ _. for_each body xs) (h x s)
          (λ a t. Adds-for_each b body xs t h))

  pub Adds-for_cells :
      {A : Type 0} (body : Slot A → M (Unit {0})) (cells : Cells A) (n : ℕ) (s : State)
      → ((x : Slot A) (t : State) → Adds 0 t (body x t))
      → Adds 0 s (for_cells body cells n s)
  unfolding for_cells
  Adds-for_cells body cells zero s h = Added-none 0 s
  Adds-for_cells body [] (suc n) s h = tt
  Adds-for_cells body (c ∷ cells) (suc n) s h =
      Adds-continue 0 0 s (body c s) (λ _. for_cells body cells n) (h c s)
        (λ a t. Adds-for_cells body cells n t h)

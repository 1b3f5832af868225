-- ===== src/Server/State/Loops.antt =====
-- Loops whose rounds only send.
use shell_chat_app_multi_ser.Base.{
  ◌≡◌, refl, ap, sym, ◌∙◌, List, [], ◌∷◌, ◌++◌, map, append_assoc, append-nil, All, length, arith,
  true, false, Bool, keep, if◌then◌else◌,
}
use shell_chat_app_multi_ser.Duckchat.{Address}
use shell_chat_app_multi_ser.Cells.{Cells, Slot, full}
use shell_chat_app_multi_ser.Cells.Holds.{Begins}
use shell_chat_app_multi_ser.Packets.{Request}
use shell_chat_app_multi_ser.Adjacent.{Server}
use shell_chat_app_multi_ser.Server.State.{
  State, Datagram, Message, send, tell, told, done, M, for_cells, for_each, pure,
}

-- The state after these datagrams were sent.
abbrev pub sends : State → List Datagram → State
sends s ds = record s { sent = s.sent ++ ds }

-- All that the rounds for these entries send.
abbrev pub gather : {A : Type 0} → (A → List Datagram) → List A → List Datagram
gather f [] = []
gather f (x ∷ xs) = f x ++ gather f xs

-- The round for an entry sends just these datagrams, whatever was sent before.
abbrev pub Sends : {A : Type 0} → State → (A → M (Unit {0})) → (A → List Datagram) → A → Type 0
Sends s body f x = (ds : List Datagram) → body x (sends s ds) ≡ done tt (sends s (ds ++ f x))

sends-nil : (s : State) → sends s [] ≡ s
sends-nil s = λ i. record s { sent = append-nil s.sent i }

module _ {A : Type 0} where
  for_each_from :
      (s : State) (body : A → M (Unit {0})) (f : A → List Datagram) (xs : List A)
      (ds : List Datagram)
      → All (Sends s body f) xs
      → for_each body xs (sends s ds) ≡ done tt (sends s (ds ++ gather f xs))
  unfolding for_each
  for_each_from s body f [] ds h = rw append-nil refl
  for_each_from s body f (x ∷ xs) ds h =
      rw (h.0 ds, for_each_from s body f xs (ds ++ f x) h.1, append_assoc ds (f x) (gather f xs))
        refl

  for_cells_from :
      (s : State) (body : Slot A → M (Unit {0})) (f : A → List Datagram) (cells : Cells A)
      (xs : List A) (ds : List Datagram)
      → Begins cells xs
      → All (Sends s (λ a. body (full a)) f) xs
      → for_cells body cells (length xs) (sends s ds) ≡ done tt (sends s (ds ++ gather f xs))
  unfolding for_cells
  for_cells_from s body f cells [] ds b h = rw append-nil refl
  for_cells_from s body f [] (x ∷ xs) ds b h = absurd b
  for_cells_from s body f (c ∷ cells) (x ∷ xs) ds b h =
      rw
        (
          b.0,
          h.0 ds,
          for_cells_from s body f cells xs (ds ++ f x) b.1 h.1,
          append_assoc ds (f x) (gather f xs),
        )
        refl

  pub for_each-sends :
      (s : State) (body : A → M (Unit {0})) (f : A → List Datagram) (xs : List A)
      → All (Sends s body f) xs
      → for_each body xs s ≡ done tt (sends s (gather f xs))
  for_each-sends s body f xs h =
      ap (for_each body xs) (sym (sends-nil s)) ∙ for_each_from s body f xs [] h

  pub for_cells-sends :
      (s : State) (body : Slot A → M (Unit {0})) (f : A → List Datagram) (cells : Cells A)
      (xs : List A)
      → Begins cells xs
      → All (Sends s (λ a. body (full a)) f) xs
      → for_cells body cells (length xs) s ≡ done tt (sends s (gather f xs))
  for_cells-sends s body f cells xs b h =
      ap (for_cells body cells (length xs)) (sym (sends-nil s))
      ∙ for_cells_from s body f cells xs [] b h

module _ {A : Type 0} (g : A → Datagram) where
  -- One datagram for each entry.
  pub gather-map : (xs : List A) → gather (λ x. g x ∷ []) xs ≡ map g xs
  gather-map [] = refl
  gather-map (x ∷ xs) = ap (◌∷◌ (g x)) (gather-map xs)

  -- One datagram for each entry that passes the test.
  pub gather-keep :
      (p : A → Bool) (xs : List A)
      → gather (λ x. if p x then g x ∷ [] else []) xs ≡ map g (keep p xs)
  gather-keep p [] = refl
  gather-keep p (x ∷ xs) = ground (arith, gather-keep p xs)

-- To send one more.
pub sends-send :
    (s : State) (ds : List Datagram) (addr : Address) (m : Message)
    → send addr m (sends s ds) ≡ done tt (sends s (ds ++ record { dest = addr; message = m } ∷ []))
sends-send s ds addr m =
    ap (λ l. done tt (record s { sent = l }))
      (append_assoc s.sent ds (record { dest = addr; message = m } ∷ []))

-- A loop that sends one request to every adjacent server.
pub for_each-tell :
    (rq : Request) (srvrs : List Server) (s : State)
    → for_each (tell rq) srvrs s ≡ done tt (sends s (map (told rq) srvrs))
for_each-tell rq srvrs s =
    for_each-sends s (tell rq) (λ v. told rq v ∷ []) srvrs (all_tell srvrs)
    ∙ ap (λ ds. done tt (sends s ds)) (gather-map (told rq) srvrs)
  where
    all_tell : (vs : List Server) → All (Sends s (tell rq) (λ v. told rq v ∷ [])) vs
    all_tell [] = tt
    all_tell (v ∷ vs) = (
      λ ds. ap (λ l. done tt (record s { sent = l })) (append_assoc s.sent ds (told rq v ∷ [])),
      all_tell vs,
    )

-- To send one more, or none.
pub sends-send_if :
    (b : Bool) (s : State) (ds : List Datagram) (addr : Address) (m : Message)
    → (if b then send addr m else pure tt) (sends s ds)
      ≡ done tt (sends s (ds ++ (if b then record { dest = addr; message = m } ∷ [] else [])))
sends-send_if true s ds addr m = sends-send s ds addr m
sends-send_if false s ds addr m = rw append-nil refl

-- ===== src/Network/Flood/Handling.antt =====
-- Handling: a say and a leave that come to a server, by what it then sends to others.
use shell_chat_app_multi_ser.Base.{
  ℕ, ◌+◌, ◌*◌, ◌≡◌, refl, sym, Bool, true, false, Option, none, some, not, ◌&&◌, is_nonneg, List,
  [], append-nil, length, length-set, Text, Result, ok, err, strcpy, ◌>>=◌ as bind, arith, rounds,
  if◌then◌else◌,
}
use shell_chat_app_multi_ser.Duckchat.{Address, channel_max}
use shell_chat_app_multi_ser.Cells.{Slot, deref}
use shell_chat_app_multi_ser.Channels.{User, Channel, load}
use shell_chat_app_multi_ser.Packets.{
  Request, Reply, serv_say, serv_leave, s2s_fill_leave, fill_text_say,
}
use shell_chat_app_multi_ser.Adjacent.{
  Server, find_channel_server, find_server_address, remove_adj_channel, addr_cmp,
}
use shell_chat_app_multi_ser.Recent.{record_id}
use shell_chat_app_multi_ser.Recent.Seen.{Remembers, among, has_id-among}
use shell_chat_app_multi_ser.Directory.{find_channel}
use shell_chat_app_multi_ser.Server.State.{
  State, M, pure, lift, not_null, send, to_server, to_client, continue, for_cells, for_each, ◌>>=◌,
  ◌>>◌,
}
use shell_chat_app_multi_ser.Server.Peers.{
  server_at, handle_serv_leave, send_leave, deliver, pass_on, is_dead_end, handle_serv_say,
}
use shell_chat_app_multi_ser.Network.Flood.Loads.{
  Adds, Added-none, Adds-continue, Adds-quiet, Adds-lift, Adds-not_null, Adds-send, Adds-weaken,
  Adds-for_each, Adds-for_cells,
}

module _ (ks : List ℕ) where
  filled_leave :
      (addr : Address) (s : State) (r : Result Text)
      → Adds ks 1 s
          (continue (lift (bind r (λ c. ok (serv_leave c))) s) (λ rq. send addr (to_server rq)))
  filled_leave addr s (err e) = tt
  filled_leave addr s (ok c) = Adds-send ks s addr (to_server (serv_leave c)) tt

  send_leave-Adds :
      (addr : Address) (channel : Text) (s : State) → Adds ks 1 s (send_leave addr channel s)
  unfolding send_leave s2s_fill_leave
  send_leave-Adds addr channel s = filled_leave addr s (strcpy channel_max channel)

  deliver-Adds : (ts : Reply) (member : Slot User) (s : State) → Adds ks 0 s (deliver ts member s)
  deliver-Adds ts member s =
      Adds-quiet ks 0 s (lift (deref member) s)
        (λ usr t. continue (lift (load s.heap usr) t) (λ u. send u.address (to_client ts)))
        (Adds-lift ks s (deref member))
        (λ usr t.
          Adds-quiet ks 0 t (lift (load s.heap usr) t) (λ u. send u.address (to_client ts))
            (Adds-lift ks t (load s.heap usr)) (λ u v. Adds-send ks v u.address (to_client ts) tt))

  send_if-Adds :
      (b : Bool) (addr : Address) (rq : Request) (s : State)
      → Adds ks 2 s (send addr (to_server rq) s)
      → Adds ks 2 s ((if b then send addr (to_server rq) else pure tt) s)
  send_if-Adds true addr rq s h = h
  send_if-Adds false addr rq s h = Added-none ks 2 s

  pass_on-Adds :
      (addr : Address) (id : ℕ) (username channel text : Text) (srvr : Server) (s : State)
      → among id ks ≡ true
      → Adds ks 2 s (pass_on addr (serv_say id username channel text) channel srvr s)
  unfolding pass_on
  pass_on-Adds addr id username channel text srvr s h =
      let rq = serv_say id username channel text in
      Adds-quiet ks 2 s (lift (find_channel_server srvr channel) s)
        (λ subbed.
          if is_nonneg subbed && not (addr_cmp srvr.addr addr)
          then send srvr.addr (to_server rq)
          else pure tt)
        (Adds-lift ks s (find_channel_server srvr channel))
        (λ subbed t.
          send_if-Adds (is_nonneg subbed && not (addr_cmp srvr.addr addr)) srvr.addr rq t
            (Adds-send ks t srvr.addr (to_server rq) h))

  -- A say with an id that is recorded.
  pub handle_serv_say-old :
      (s : State) (ids : List ℕ) (addr : Address) (id : ℕ) (username channel text : Text)
      → Remembers s.recent ids
      → among id ids ≡ true
      → Adds ks 1 s (handle_serv_say addr id username channel text s)
  unfolding handle_serv_say
  handle_serv_say-old s ids addr id username channel text m old =
      rw (has_id-among s.recent ids id m, old) (send_leave-Adds addr channel s)

  spread :
      (addr : Address) (id : ℕ) (username channel text : Text) (active : Channel)
      (srvrs : List Server) (dead : Bool) (t : State)
      → among id ks ≡ true
      → let rest : M (Unit {0}) = elim dead [
        | true ↦ send_leave addr channel
        | false ↦ (do
          ts ← lift (fill_text_say channel username text)
          for_cells (deliver ts) active.connected_users (rounds active.num_users)
          for_each (pass_on addr (serv_say id username channel text) channel) srvrs)
      ] in
        Adds ks (1 + length srvrs * 2) t (rest t)
  spread addr id username channel text active srvrs true t h =
      Adds-weaken ks 1 (1 + length srvrs * 2) t (send_leave addr channel t) (omega arith)
        (send_leave-Adds addr channel t)
  spread addr id username channel text active srvrs false t h =
      Adds-continue ks 1 (length srvrs * 2) t _ _
        (Adds-weaken ks 0 1 t _ (omega arith)
          (Adds-lift ks t (fill_text_say channel username text)))
        (λ ts u.
          Adds-quiet ks (length srvrs * 2) u _ _
            (Adds-for_cells ks (deliver ts) active.connected_users (rounds active.num_users) u
              (deliver-Adds ts))
            (λ a v.
              Adds-for_each ks 2 (pass_on addr (serv_say id username channel text) channel) srvrs v
                (λ x w. pass_on-Adds addr id username channel text x w h)))

  -- A say with a new id, from when it is recorded.
  pub handle_serv_say-new :
      (s : State) (ids : List ℕ) (addr : Address) (id : ℕ) (username channel text : Text)
      → Remembers s.recent ids
      → among id ids ≡ false
      → among id ks ≡ true
      → Adds ks
          (1 + length s.srvrs * 2)
          (record s { recent = record_id s.recent id })
          (handle_serv_say addr id username channel text s)
  unfolding handle_serv_say
  handle_serv_say-new s ids addr id username channel text m new h =
      let t : State = record s { recent = record_id s.recent id } in
      let b = 1 + length s.srvrs * 2 in
      rw (has_id-among s.recent ids id m, new)
        (Adds-quiet ks b t _ _ (Adds-lift ks t (find_channel s.channels s.num_chnnls channel))
          (λ hit u. Adds-quiet ks b u _ _ (Adds-not_null ks u hit) (λ found v.
            Adds-quiet ks b v _ _ (Adds-lift ks v (is_dead_end found.1 s.srvrs channel))
              (λ dead w. spread addr id username channel text found.1 s.srvrs dead w h))))

  -- A call that leaves the state as it is.
  after_lift :
      {A B : Type 0} (b : ℕ) (s : State) (r : Result A) (f : A → M B)
      → ((a : A) → Adds ks b s (f a s))
      → Adds ks b s (continue (lift r s) f)
  after_lift b s (ok a) f h = h a
  after_lift b s (err e) f h = tt

  after_not_null :
      {A B : Type 0} (b : ℕ) (s : State) (o : Option A) (f : A → M B)
      → ((a : A) → Adds ks b s (f a s))
      → Adds ks b s (continue (not_null o s) f)
  after_not_null b s (some a) f h = h a
  after_not_null b s none f h = tt

  -- A leave, which is answered by nothing.
  pub handle_serv_leave-Adds :
      (s : State) (addr : Address) (channel : Text) → Adds ks 0 s (handle_serv_leave addr channel s)
  unfolding handle_serv_leave
  handle_serv_leave-Adds s addr channel =
      after_not_null 0 s (find_server_address s.srvrs addr 0) _ (λ i.
        after_lift 0 s (server_at s.srvrs i) _ (λ srvr.
          after_lift 0 s (remove_adj_channel srvr channel) _ (λ cut. record {
            recent = refl;
            count = length-set s.srvrs i cut.0;
            more = [];
            sent = sym (append-nil s.sent);
            small = omega arith;
            carried = tt;
          })))

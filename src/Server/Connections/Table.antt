-- ===== src/Server/Connections/Table.antt =====
-- A connection's handle stays what the last reply on it made it.
use distributed_db.Common.{
  ℕ, ◌≡◌, ◌≢◌, refl, sym, ap, ◌∙◌, inl, inr, Option, none, some, ◌>>=◌, ◌==◌, ==_iff, ==_of_ne,
  if◌then◌else◌, Bool-cases, Option-cases,
}
use distributed_db.Socket.{Os, no_sock}
use distributed_db.Server.Connections.{
  ClientSockHandle, Memory, Server, db_service_start, db_service_stop, db_send_msg, db_recv_msg,
}

-- What Tokyo Cabinet documents of its in-memory database.
pub record Documented {App : Type 0} (mem : Memory App) : Type 0 where
  pub get-put :
      (d : mem.MemDb) (k j : ℕ) (v : ClientSockHandle App)
      → mem.get (mem.put d k v) j ≡ (if k == j then some v else mem.get d j)
  pub get-out :
      (d : mem.MemDb) (k j : ℕ) → mem.get (mem.out d k) j ≡ (if k == j then none else mem.get d j)

module _ {Message App : Type 0} (os : Os Message) (mem : Memory App) (doc : Documented mem) where
  -- What happens on the server's connections, but for what comes in.
  pub data Traffic : Type 0 where
    starts : ℕ → Traffic
    stops : ℕ → Traffic
    sends : ClientSockHandle App → Message → Traffic
    receives : ℕ → Traffic

  unfoldable pub traffic : Traffic → Server os mem → Option (Server os mem)
  traffic (starts listen_sock) s = some (db_service_start os mem listen_sock s).1
  traffic (stops sock) s = db_service_stop os mem sock s
  traffic (sends hcsock buf) s = db_send_msg os mem hcsock buf s
  traffic (receives sock) s = do (phcsock, message, after) ← db_recv_msg os mem sock s; some after

  -- Every handle in the table is under its own connection.
  unfoldable pub IsTable : Server os mem → Type 0
  IsTable s = (k : ℕ) (h : ClientSockHandle App) → mem.get s.mdb k ≡ some h → h.sock ≡ k

  -- The traffic is none that makes, ends or answers the connection `k`.
  unfoldable pub IsApart : Traffic → Server os mem → ℕ → Type 0
  IsApart (starts listen_sock) s k = (db_service_start os mem listen_sock s).0.sock ≢ k
  IsApart (stops sock) s k = sock ≢ k
  IsApart (sends hcsock buf) s k = hcsock.sock ≢ k
  IsApart (receives sock) s k = Unit

  ap_mdb : {a b : Server os mem} → some a ≡ some b → a.mdb ≡ b.mdb
  ap_mdb {a} {b} e = let same : a ≡ b = cc e in ap (λ s. s.mdb) same

  put-IsTable :
      (d : mem.MemDb) (h : ClientSockHandle App) (k : ℕ) (h' : ClientSockHandle App)
      → ((j : ℕ) (g : ClientSockHandle App) → mem.get d j ≡ some g → g.sock ≡ j)
      → mem.get (mem.put d h.sock h) k ≡ some h'
      → h'.sock ≡ k
  put-IsTable d h k h' old e = elim (Bool-cases (h.sock == k)) [
    | inl own ↦
        let same : h ≡ h' = cc (rw (doc.get-put d h.sock k h, own) at e) in
        ap (λ g. g.sock) (sym same) ∙ (==_iff h.sock k).0 own
    | inr other ↦ old k h' (rw (doc.get-put d h.sock k h, other) at e)
  ]

  out-IsTable :
      (d : mem.MemDb) (i k : ℕ) (h' : ClientSockHandle App)
      → ((j : ℕ) (g : ClientSockHandle App) → mem.get d j ≡ some g → g.sock ≡ j)
      → mem.get (mem.out d i) k ≡ some h'
      → h'.sock ≡ k
  out-IsTable d i k h' old e = elim (Bool-cases (i == k)) [
    | inl own ↦ cc (rw (doc.get-out d i k, own) at e)
    | inr other ↦ old k h' (rw (doc.get-out d i k, other) at e)
  ]

  put_apart :
      (d : mem.MemDb) (h : ClientSockHandle App) (k : ℕ)
      → h.sock ≢ k
      → mem.get (mem.put d h.sock h) k ≡ mem.get d k
  put_apart d h k n = doc.get-put d h.sock k h ∙ rw (==_of_ne h.sock k n) refl

  traffic-IsTable :
      (t : Traffic) (s s' : Server os mem)
      → IsTable s
      → traffic t s ≡ some s'
      → IsTable s' × ((k : ℕ) → IsApart t s k → mem.get s'.mdb k ≡ mem.get s.mdb k)
  unfolding traffic IsTable IsApart db_service_start db_service_stop db_send_msg db_recv_msg
  traffic-IsTable (starts listen_sock) s s' h e =
      let made = db_service_start os mem listen_sock s in
      let same : made.1 ≡ s' = cc e in
      rw (← same) (λ k h' f. put-IsTable s.mdb made.0 k h' h f, λ k n. put_apart s.mdb made.0 k n)
  traffic-IsTable (stops sock) s s' h e = elim (Option-cases (mem.get s.mdb sock)) [
    | inl missing ↦ cc (rw missing at e)
    | inr (hcsock, there) ↦
        let same : mem.out s.mdb hcsock.sock ≡ s'.mdb = ap_mdb (rw there at e) in
        let own : hcsock.sock ≡ sock = h sock hcsock there in
        rw (← same) (
          λ k h' f. out-IsTable s.mdb hcsock.sock k h' h f,
          λ k n. doc.get-out s.mdb hcsock.sock k ∙ rw (own, ==_of_ne sock k n) refl,
        )
  ]
  traffic-IsTable (sends hcsock buf) s s' h e = elim (Bool-cases (hcsock.sock == no_sock)) [
    | inl bad ↦ cc (rw bad at e)
    | inr good ↦
        let same : mem.put s.mdb hcsock.sock hcsock ≡ s'.mdb = ap_mdb (rw good at e) in
        rw (← same) (λ k h' f. put-IsTable s.mdb hcsock k h' h f, λ k n. put_apart s.mdb hcsock k n)
  ]
  traffic-IsTable (receives sock) s s' h e = elim (Bool-cases (sock == no_sock)) [
    | inl bad ↦ cc (rw bad at e)
    | inr good ↦ let same : s.mdb ≡ s'.mdb = ap_mdb (rw good at e) in rw (← same) (h, λ k n. refl)
  ]

  -- Traffic on other connections than `k`.
  pub data Meanwhile (k : ℕ) (s : Server os mem) : Server os mem → Type 0 where
    here : Meanwhile k s s
    next :
        {d d' : Server os mem} (t : Traffic)
        → Meanwhile k s d
        → IsApart t d k
        → traffic t d ≡ some d'
        → Meanwhile k s d'

  Meanwhile-IsTable :
      (k : ℕ) {s s' : Server os mem}
      → IsTable s
      → Meanwhile k s s'
      → IsTable s' × (mem.get s'.mdb k ≡ mem.get s.mdb k)
  Meanwhile-IsTable k h here = (h, refl)
  Meanwhile-IsTable k h (next {d} {d'} t m n e) =
      let (h', same) = Meanwhile-IsTable k h m in
      let (h'', kept) = traffic-IsTable t d d' h' e in (h'', kept k n ∙ same)

  -- What a worker gives back with a reply is what the next message on that connection comes with,
  -- whatever happens on the other connections in between; and the table stays one.
  pub db_recv_msg-db_send_msg :
      (hcsock : ClientSockHandle App) (buf : Message) (s mid s' : Server os mem)
      → IsTable s
      → db_send_msg os mem hcsock buf s ≡ some mid
      → Meanwhile hcsock.sock mid s'
      → IsTable s'
        × ((message : Option Message) × (after : Server os mem) × (db_recv_msg os mem hcsock.sock s'
              ≡ some (some hcsock, message, after)))
  unfolding traffic db_send_msg db_recv_msg
  db_recv_msg-db_send_msg hcsock buf s mid s' h e m = elim (Bool-cases (hcsock.sock == no_sock)) [
    | inl bad ↦ cc (rw bad at e)
    | inr good ↦
        let (table, _) = traffic-IsTable (sends hcsock buf) s mid h e in
        let (table', kept) = Meanwhile-IsTable hcsock.sock table m in
        let put : mem.put s.mdb hcsock.sock hcsock ≡ mid.mdb = ap_mdb (rw good at e) in
        let there : mem.get mid.mdb hcsock.sock ≡ some hcsock =
          ap (λ d. mem.get d hcsock.sock) (sym put)
          ∙ doc.get-put s.mdb hcsock.sock hcsock.sock hcsock
          ∙ rw ((==_iff hcsock.sock hcsock.sock).1 refl) refl in
        let (message, last) = os.recv hcsock.sock s'.world in
        (table', (message, record s' { world = last }, rw (good, kept, there) refl))
  ]

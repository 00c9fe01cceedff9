-- ===== src/Tests/Users.antt =====
-- A worker opens a database for a connection, and closes it.
use distributed_db.Common.{ℕ, ◌<◌, ◌≡◌, refl, arith, true, false, [], ◌∷◌, none, some, ◌==◌, ==_iff}
use distributed_db.Protocol.Cmd.{Cmd}
use distributed_db.TcDb.Registry.{OpenedDb, Registry, db_create, db_delete}
use distributed_db.TcDb.Registry.Counts.{IsMap}
use distributed_db.TcDb.Registry.Users.{IsCounted, count}
use distributed_db.TcDb.Api.{tcdb}
use distributed_db.Server.Request.{Request, Outcome, handle_db_request}
use distributed_db.Server.Request.Reply.{opens, closes}
use distributed_db.Server.Request.Users.{Handles, nothing_yet, then_handles, Handles-IsCounted}
use distributed_db.Tests.Store.{table}
use distributed_db.Tests.Stored.{disk, library}

disk-IsMap : IsMap disk
disk-IsMap = record {
  get-new = λ k. refl;
  get-put = λ m k v. ground arith;
  get-put_other = λ m k j v ne. ground arith;
  get-out = λ m k. ground arith;
  get-out_other = λ m k j ne. ground arith;
}

abbrev begun : Registry disk
begun = record { mdb = none; lasterr = 0; world = λ h. [] }

abbrev handle : OpenedDb ℕ ℕ
handle = record { name = 5; hdb = 5; counter = 1 }

abbrev with_one : Registry disk
with_one = record begun { mdb = some (disk.put disk.new 5 handle) }

abbrev emptied : Registry disk
emptied = record begun { mdb = some (disk.out (disk.put disk.new 5 handle) 5) }

abbrev open_5 : Request (tcdb table disk library 0)
open_5 = record { cmd = Cmd.open_db; key = 0; text = 5; app = none }

abbrev close_5 : Request (tcdb table disk library 0)
close_5 = record { cmd = Cmd.close; key = 0; text = 0; app = some handle }

abbrev opened : Outcome (tcdb table disk library 0)
opened = record {
  cmd = Cmd.open_r;
  text = none;
  app = some handle;
  stops = false;
  state = some with_one;
  files = some (5, 5);
}

abbrev closed : Outcome (tcdb table disk library 0)
closed = record {
  cmd = Cmd.close_r;
  text = none;
  app = some handle;
  stops = true;
  state = some emptied;
  files = none;
}

open_run : handle_db_request (tcdb table disk library 0) Cmd.set_r open_5 (some begun) ≡ some opened
unfolding handle_db_request db_create
open_run = refl

close_run :
    handle_db_request (tcdb table disk library 0) Cmd.open_r close_5 (some with_one) ≡ some closed
unfolding handle_db_request db_delete
close_run = refl

holds :
    (h : OpenedDb ℕ ℕ)
    → some handle ≡ some h
    → 0 < count disk disk-IsMap ◌==◌ ==_iff h.name (5 ∷ [])
holds h e = let is : handle ≡ h = cc e in rw (← is) (omega arith)

Handles-both : Handles table disk library disk-IsMap ◌==◌ ==_iff 0 begun emptied []
Handles-both =
    then_handles Cmd.open_r close_5 closed
      (then_handles Cmd.set_r open_5 opened nothing_yet opens (λ e. absurd (cc e)) open_run refl)
      closes (λ e. holds) close_run refl

Handles-IsCounted_example : IsCounted disk disk-IsMap ◌==◌ ==_iff emptied []
Handles-IsCounted_example =
    Handles-IsCounted table disk library disk-IsMap ◌==◌ ==_iff 0 begun (λ name. refl) Handles-both

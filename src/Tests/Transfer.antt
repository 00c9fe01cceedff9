-- ===== src/Tests/Transfer.antt =====
-- A file of more than one packet, filled with one byte.
use distributed_db.Common.{ℕ, ◌≡◌, refl, List, [], ◌∷◌, some, arith, replicate}
use distributed_db.Protocol.Cmd.{Cmd}
use distributed_db.Slave.Transfer.{send_file}
use distributed_db.Slave.Transfer.Whole.{send_file_lem}

abbrev file : List ℕ
file = replicate 1500 7

abbrev buffer : List ℕ
buffer = replicate 1024 0

send_file_lem_example : send_file 0 1501 buffer buffer Cmd.backup_r (97 ∷ 0 ∷ []) file ≡ some file
send_file_lem_example =
    send_file_lem 0 (omega arith) 1501 buffer buffer Cmd.backup_r (97 ∷ 0 ∷ []) file refl
      (omega arith) (omega arith) (omega arith)

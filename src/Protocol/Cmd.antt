-- ===== src/Protocol/Cmd.antt =====
-- The commands of common/dbProtocol.h, in the order of the enum.
use distributed_db.Common.{ℕ, ◌<◌, ◌^◌, arith}

pub data Cmd : Type 0 where
  set get del open_db close quit help : Cmd
  set_r get_r del_r open_r close_r quit_r cmd_fail : Cmd
  get_list get_list_r : Cmd
  add_slave del_slave add_slave_r del_slave_r heartbeat : Cmd
  new_slave rm_slave update_backup12 new_slave_r rm_slave_r update_backup12_r : Cmd
  clip_data backup filetrans clip_data_r backup_r filetrans_r : Cmd
  update_backup2 update_backup2_r update_version : Cmd

-- The value of each.
abbrev pub code : Cmd → ℕ
code Cmd.set = 0
code Cmd.get = 1
code Cmd.del = 2
code Cmd.open_db = 3
code Cmd.close = 4
code Cmd.quit = 5
code Cmd.help = 6
code Cmd.set_r = 7
code Cmd.get_r = 8
code Cmd.del_r = 9
code Cmd.open_r = 10
code Cmd.close_r = 11
code Cmd.quit_r = 12
code Cmd.cmd_fail = 13
code Cmd.get_list = 14
code Cmd.get_list_r = 15
code Cmd.add_slave = 16
code Cmd.del_slave = 17
code Cmd.add_slave_r = 18
code Cmd.del_slave_r = 19
code Cmd.heartbeat = 20
code Cmd.new_slave = 21
code Cmd.rm_slave = 22
code Cmd.update_backup12 = 23
code Cmd.new_slave_r = 24
code Cmd.rm_slave_r = 25
code Cmd.update_backup12_r = 26
code Cmd.clip_data = 27
code Cmd.backup = 28
code Cmd.filetrans = 29
code Cmd.clip_data_r = 30
code Cmd.backup_r = 31
code Cmd.filetrans_r = 32
code Cmd.update_backup2 = 33
code Cmd.update_backup2_r = 34
code Cmd.update_version = 35

pub code-lt : (c : Cmd) → code c < 2 ^ 32
code-lt Cmd.set = omega arith
code-lt Cmd.get = omega arith
code-lt Cmd.del = omega arith
code-lt Cmd.open_db = omega arith
code-lt Cmd.close = omega arith
code-lt Cmd.quit = omega arith
code-lt Cmd.help = omega arith
code-lt Cmd.set_r = omega arith
code-lt Cmd.get_r = omega arith
code-lt Cmd.del_r = omega arith
code-lt Cmd.open_r = omega arith
code-lt Cmd.close_r = omega arith
code-lt Cmd.quit_r = omega arith
code-lt Cmd.cmd_fail = omega arith
code-lt Cmd.get_list = omega arith
code-lt Cmd.get_list_r = omega arith
code-lt Cmd.add_slave = omega arith
code-lt Cmd.del_slave = omega arith
code-lt Cmd.add_slave_r = omega arith
code-lt Cmd.del_slave_r = omega arith
code-lt Cmd.heartbeat = omega arith
code-lt Cmd.new_slave = omega arith
code-lt Cmd.rm_slave = omega arith
code-lt Cmd.update_backup12 = omega arith
code-lt Cmd.new_slave_r = omega arith
code-lt Cmd.rm_slave_r = omega arith
code-lt Cmd.update_backup12_r = omega arith
code-lt Cmd.clip_data = omega arith
code-lt Cmd.backup = omega arith
code-lt Cmd.filetrans = omega arith
code-lt Cmd.clip_data_r = omega arith
code-lt Cmd.backup_r = omega arith
code-lt Cmd.filetrans_r = omega arith
code-lt Cmd.update_backup2 = omega arith
code-lt Cmd.update_backup2_r = omega arith
code-lt Cmd.update_version = omega arith

-- ===== src/Tests/Commands.antt =====
-- The commands of a client that types `close` and `quit`.
use distributed_db.Slave.Files.{backup2_dir, max_filename_len, exe_shell_cmd, exe_shell_cmd-fits}
use distributed_db.Common.{
  ◌<◌, ◌*◌, length, arith, ℕ, ◌+◌, ◌≡◌, refl, true, false, [], ◌∷◌, none, some,
}
use distributed_db.Client.Parse.{
  Text, two_parameters, one_parameter, no_parameter, word, digits, value_text, db_file, Platform,
  success, Client, parse,
}
use distributed_db.Client.Parse.Prompt.{input_cmd, input_cmd-closed}

-- A platform whose patterns find the first five characters, for the command `close`.
abbrev five_letters : Platform
five_letters = record {
  State = ℕ;
  Db = ℕ;
  regexec = λ pat t. elim pat [
    | two_parameters ↦ none
    | one_parameter ↦ none
    | no_parameter ↦ some (0, 5)
    | word ↦ some (0, 5)
    | digits ↦ none
    | value_text ↦ none
    | db_file ↦ none
  ];
  garbage = [];
  create = λ name s. (some s, s + 1);
  delete = λ db s. (true, s + 1);
  set_key_value = λ db k v s. (true, s);
  get_key_value = λ db k s. (none, s);
  del_key_value = λ db k s. (false, s);
}

abbrev close_line : Text
close_line = 67 ∷ 108 ∷ 111 ∷ 115 ∷ 101 ∷ []

abbrev quit_line : Text
quit_line = 113 ∷ 117 ∷ 105 ∷ 116 ∷ 10 ∷ []

abbrev connected : Client five_letters
connected = record { hdb = some 3; db_name = 97 ∷ []; state = 7 }

abbrev closed_client : Client five_letters
closed_client = record { hdb = none; db_name = []; state = 8 }

close_run :
    parse five_letters close_line connected
    ≡ record { res = success; printed = none; after = closed_client }
unfolding parse
close_run = refl

prompt_run :
    input_cmd five_letters (close_line ∷ (10 ∷ []) ∷ quit_line ∷ []) connected ≡ some closed_client
unfolding input_cmd parse
prompt_run = refl

input_cmd-closed_example : closed_client.hdb ≡ none
input_cmd-closed_example =
    input_cmd-closed five_letters (close_line ∷ (10 ∷ []) ∷ quit_line ∷ []) connected closed_client
      prompt_run

exe_shell_cmd-fits_example :
    length (exe_shell_cmd (114 ∷ 109 ∷ []) backup2_dir (42 ∷ []) [] []) < 2 * max_filename_len
exe_shell_cmd-fits_example =
    exe_shell_cmd-fits (114 ∷ 109 ∷ []) backup2_dir (42 ∷ []) [] [] (omega arith)

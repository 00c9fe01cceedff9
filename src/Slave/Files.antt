-- ===== src/Slave/Files.antt =====
-- The names and commands for files that server/slave.c puts together in buffers of fixed size.
use distributed_db.Common.{
  ℕ, ◌+◌, ◌*◌, ◌≤◌, ◌<◌, Bool, true, false, ◌&&◌, not, List, [], ◌∷◌, ◌++◌, if◌then◌else◌, length,
  length-append, ltb, ◌==◌, arith,
}

-- A C string, as the codes of its characters.
abbrev pub Text : Type 0
Text = List ℕ

abbrev pub backup1_dir : Text
backup1_dir = 98 ∷ 97 ∷ 99 ∷ 107 ∷ 117 ∷ 112 ∷ 49 ∷ []

abbrev pub backup2_dir : Text
backup2_dir = 98 ∷ 97 ∷ 99 ∷ 107 ∷ 117 ∷ 112 ∷ 50 ∷ []

-- `.bac`
abbrev pub backup_postfix : Text
backup_postfix = 46 ∷ 98 ∷ 97 ∷ 99 ∷ []

abbrev pub max_filename_len : ℕ
max_filename_len = 128

abbrev slashes : Text
slashes = 47 ∷ 47 ∷ []

abbrev space : Text
space = 32 ∷ []

abbrev is_empty : Text → Bool
is_empty [] = true
is_empty (c ∷ cs) = false

-- A strcat under a condition.
abbrev text_if : Bool → Text → Text
text_if true t = t
text_if false t = []

-- A directory and a file name in it, as ExeShellCmd writes each of the two.
pub located : Text → Text → Text
located dir fname =
    dir
    ++ (text_if (not (is_empty dir)) slashes
        ++ (fname ++ text_if (not (is_empty dir) && not (is_empty fname)) backup_postfix))

-- The command that ExeShellCmd makes, runs and returns.
pub exe_shell_cmd : Text → Text → Text → Text → Text → Text
unfolding located
exe_shell_cmd cmd srcdir srcfname destdir destfname =
    cmd ++ (space ++ (located srcdir srcfname ++ (space ++ located destdir destfname)))

-- GetFileName, for the origin 0 and the backups 1 and 2.
pub get_file_name : ℕ → Text → Text
get_file_name k filename =
    (if k == 1 then backup1_dir else if k == 2 then backup2_dir else [])
    ++ (text_if (ltb 0 k) slashes ++ (filename ++ text_if (not (k == 0)) backup_postfix))

length-text_if : (b : Bool) (t : Text) → length (text_if b t) ≤ length t
length-text_if true t = omega arith
length-text_if false t = omega arith

-- What a directory adds to the lengths of the two names.
added :
    (dir fname : Text)
    → length (text_if (not (is_empty dir)) slashes)
        + length (text_if (not (is_empty dir) && not (is_empty fname)) backup_postfix)
      ≤ 6
added dir fname =
    let slashed = length-text_if (not (is_empty dir)) slashes in
    let postfixed = length-text_if (not (is_empty dir) && not (is_empty fname)) backup_postfix in
    omega (arith, slashed, postfixed)

-- The command that ExeShellCmd makes fits its buffer, with its end, if the five parts have fewer
-- than 242 characters together.
pub exe_shell_cmd-fits :
    (cmd srcdir srcfname destdir destfname : Text)
    → length cmd + length srcdir + length srcfname + length destdir + length destfname < 242
    → length (exe_shell_cmd cmd srcdir srcfname destdir destfname) < 2 * max_filename_len
unfolding exe_shell_cmd
exe_shell_cmd-fits cmd srcdir srcfname destdir destfname h =
    let source = added srcdir srcfname in
    let dest = added destdir destfname in simp length-append (omega (arith, source, dest))

-- The name that GetFileName makes fits its buffer, with its end, if the file's own name has fewer
-- than 115 characters.
pub get_file_name-fits :
    (k : ℕ) (filename : Text)
    → length filename < 115
    → length (get_file_name k filename) < max_filename_len
unfolding get_file_name
get_file_name-fits k filename h =
    let slashed = length-text_if (ltb 0 k) slashes in
    let postfixed = length-text_if (not (k == 0)) backup_postfix in
    let dir : length (if k == 1 then backup1_dir else if k == 2 then backup2_dir else []) ≤ 7 =
      ground arith in
    simp length-append (omega (arith, slashed, postfixed, dir))

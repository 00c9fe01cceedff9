-- ===== src/Client/Parse.antt =====
-- Parse of client/parseinput.c: what the client does with a line of input.
pub mod Session
pub mod Prompt
pub mod Denotes
use distributed_db.Common.{
  ℕ, ◌+◌, ◌-◌, ◌*◌, Bool, true, false, ◌&&◌, ◌||◌, List, [], ◌∷◌, Option, none, some, leb, ◌==◌,
  if◌then◌else◌, take, drop,
}

-- A C string, as the codes of its characters.
abbrev pub Text : Type 0
Text = List ℕ

-- The patterns of the calls of Check and GetMatch, in the order of the code.
pub data Pattern : Type 0 where
  two_parameters one_parameter no_parameter : Pattern
  word digits value_text db_file : Pattern

-- What the code relies on: regcomp and regexec, which give the bounds of the first match; what
-- malloc finds in memory; and the calls of common/Database.h, as client/netdbapi.c implements them.
pub record Platform : Type 1 where
  pub State : Type 0
  pub Db : Type 0
  pub regexec : Pattern → Text → Option (ℕ × ℕ)
  pub garbage : Text
  pub create : Text → State → Option Db × State
  pub delete : Db → State → Bool × State
  pub set_key_value : Db → ℕ → Text → State → Bool × State
  pub get_key_value : Db → ℕ → State → Option Text × State
  pub del_key_value : Db → ℕ → State → Bool × State

-- The results 0, -1 and 1.
pub data Result : Type 0 where
  success failure quits : Result

-- `s` and `match`: the input that is left, and the last match.
pub record Words : Type 0 where
  pub s : Text
  pub matched : Text

abbrev lower_case : ℕ → ℕ
lower_case c = if leb 65 c && leb c 90 then c + 32 else c

-- 0 == strcasecmp(...)
abbrev pub same_word : Text → Text → Bool
same_word [] [] = true
same_word [] (y ∷ ys) = false
same_word (x ∷ xs) [] = false
same_word (x ∷ xs) (y ∷ ys) = lower_case x == lower_case y && same_word xs ys

-- The number that the digits before the first other character make.
abbrev pub atoi_from : ℕ → Text → ℕ
atoi_from n [] = n
atoi_from n (c ∷ cs) =
    let rest = atoi_from (10 * n + (c - 48)) cs in if leb 48 c && leb c 57 then rest else n

abbrev pub atoi : Text → ℕ
atoi t = atoi_from 0 t

abbrev set_text : Text
set_text = 115 ∷ 101 ∷ 116 ∷ []

abbrev get_text : Text
get_text = 103 ∷ 101 ∷ 116 ∷ []

abbrev del_text : Text
del_text = 100 ∷ 101 ∷ 108 ∷ []

abbrev delete_text : Text
delete_text = 100 ∷ 101 ∷ 108 ∷ 101 ∷ 116 ∷ 101 ∷ []

abbrev open_text : Text
open_text = 111 ∷ 112 ∷ 101 ∷ 110 ∷ []

abbrev close_text : Text
close_text = 99 ∷ 108 ∷ 111 ∷ 115 ∷ 101 ∷ []

abbrev exit_text : Text
exit_text = 101 ∷ 120 ∷ 105 ∷ 116 ∷ []

abbrev quit_text : Text
quit_text = 113 ∷ 117 ∷ 105 ∷ 116 ∷ []

abbrev help_text : Text
help_text = 104 ∷ 101 ∷ 108 ∷ 112 ∷ []

abbrev pub of_flag : Bool → Result
of_flag true = success
of_flag false = failure

abbrev pub is_open {ℓ} : {A : Type ℓ} → Option A → Bool
is_open none = false
is_open (some a) = true

module _ (p : Platform) where
  open p use {
    State, Db, regexec, garbage, create, delete, set_key_value, get_key_value, del_key_value,
  }

  -- The globals `hdb` and DBName, and the state of the database calls.
  pub record Client : Type 0 where
    pub hdb : Option Db
    pub db_name : Text
    pub state : State

  pub check : Pattern → Text → Bool
  check pat str = is_open (regexec pat str)

  -- With whether 0 is returned. On no match both strings stay.
  pub get_match : Pattern → Words → Bool × Words
  get_match pat w = elim (regexec pat w.s) [
    | none ↦ (false, w)
    | some (start, end) ↦
        (true, record { s = drop end w.s; matched = take (end - start) (drop start w.s) })
  ]

  -- The command's result, the text that it prints, and the globals after it.
  pub record Outcome : Type 0 where
    pub res : Result
    pub printed : Option Text
    pub after : Client

  abbrev pub reject : Client → Outcome
  reject c = record { res = failure; printed = none; after = c }

  abbrev pub changed : Client → Bool × State → Outcome
  changed c (done, s') = record {
    res = of_flag done;
    printed = none;
    after = record c { state = s' };
  }

  abbrev pub opened : Text → Option Db × State → Outcome
  opened name (db, s') = record {
    res = of_flag (is_open db);
    printed = none;
    after = record { hdb = db; db_name = name; state = s' };
  }

  abbrev pub closed : Bool × State → Outcome
  closed (done, s') = record {
    res = of_flag done;
    printed = none;
    after = record { hdb = none; db_name = []; state = s' };
  }

  set_command : Words → Db → Client → Outcome
  unfolding get_match
  set_command w db c =
      let (_, w_key) = get_match digits w in
      let (found, w_value) = get_match value_text w_key in
      if found
      then changed c (set_key_value db (atoi w_key.matched) w_value.matched c.state)
      else reject c

  -- GetMatch is not checked here: with no name that ends in db, `match` is still the word `open`.
  open_command : Words → Client → Outcome
  unfolding get_match
  open_command w c =
      let (_, w_name) = get_match db_file w in opened w_name.matched (create w_name.matched c.state)

  abbrev pub shown : Client → Option Text × State → Outcome
  shown c (found, s') = record {
    res = of_flag (is_open found);
    printed = found;
    after = record c { state = s' };
  }

  get_command : Words → Db → Client → Outcome
  unfolding get_match
  get_command w db c =
      let (found, w_key) = get_match digits w in
      if found then shown c (get_key_value db (atoi w_key.matched) c.state) else reject c

  del_command : Words → Db → Client → Outcome
  unfolding get_match
  del_command w db c =
      let (found, w_key) = get_match digits w in
      if found then changed c (del_key_value db (atoi w_key.matched) c.state) else reject c

  close_command : Db → Client → Outcome
  close_command db c = closed (delete db c.state)

  -- `goto NODB` where no database is open.
  with_db : Client → (Db → Outcome) → Outcome
  with_db c command = elim c.hdb [ none ↦ reject c | some db ↦ command db ]

  two_parameter_command : Words → Client → Outcome
  unfolding get_match with_db set_command
  two_parameter_command w c =
      let (_, w_name) = get_match word w in
      if same_word w_name.matched set_text
      then with_db c (λ db. set_command w_name db c)
      else reject c

  one_parameter_command : Words → Client → Outcome
  unfolding get_match with_db open_command get_command del_command
  one_parameter_command w c =
      let (_, w_name) = get_match word w in
      if same_word w_name.matched open_text
      then (if is_open c.hdb then reject c else open_command w_name c)
      else if same_word w_name.matched get_text
      then with_db c (λ db. get_command w_name db c)
      else if same_word w_name.matched del_text || same_word w_name.matched delete_text
      then with_db c (λ db. del_command w_name db c)
      else reject c

  no_parameter_command : Words → Client → Outcome
  unfolding get_match with_db close_command
  no_parameter_command w c =
      let (_, w_name) = get_match word w in
      if same_word w_name.matched close_text
      then with_db c (λ db. close_command db c)
      else if same_word w_name.matched exit_text || same_word w_name.matched quit_text
      then (if is_open c.hdb then reject c else record { res = quits; printed = none; after = c })
      else if same_word w_name.matched help_text
      then record { res = success; printed = none; after = c }
      else reject c

  unfoldable pub parse : Text → Client → Outcome
  unfolding check two_parameter_command one_parameter_command no_parameter_command
  parse input c =
      let w : Words = record { s = input; matched = garbage } in
      if check two_parameters input
      then two_parameter_command w c
      else if check one_parameter input
      then one_parameter_command w c
      else if check no_parameter input
      then no_parameter_command w c
      else reject c

-- ===== src/Client/Parse/Denotes.antt =====
-- What a line of input denotes, whatever the client is doing, and what that command does.
use distributed_db.Common.{
  zero, suc, ◌+◌, ◌-◌, ◌*◌, ◌&&◌, [], ◌∷◌, leb, ℕ, Bool, true, false, Option, none, some,
  if◌then◌else◌, ◌||◌,
}
use distributed_db.Client.Parse.{
  Text, Platform, quits, success, Words, Client, Outcome, Pattern, reject, changed, shown, opened,
  closed, same_word, set_text, get_text, del_text, delete_text, open_text, close_text, exit_text,
  quit_text, help_text, word, digits, value_text, db_file, two_parameters, one_parameter,
  no_parameter,
}

pub data Command : Type 0 where
  open_named : Text → Command
  close_it : Command
  set_record : ℕ → Text → Command
  get_record : ℕ → Command
  del_record : ℕ → Command
  leave : Command
  show_help : Command
  wrong : Command

-- The characters of a text from one bound to another, and those after them.
abbrev pub spanned : ℕ → ℕ → Text → Text × Text
spanned start end [] = ([], [])
spanned start zero (x ∷ xs) = ([], x ∷ xs)
spanned zero (suc end) (x ∷ xs) = (x ∷ (spanned zero end xs).0, (spanned zero end xs).1)
spanned (suc start) (suc end) (x ∷ xs) = spanned start end xs

-- The digits at the start of a text, and the number that they write.
abbrev leading : Text → Text
leading [] = []
leading (c ∷ cs) = let rest = leading cs in if leb 48 c && leb c 57 then c ∷ rest else []

abbrev decimal : ℕ → Text → ℕ
decimal n [] = n
decimal n (c ∷ cs) = decimal (10 * n + (c - 48)) cs

abbrev pub number : Text → ℕ
number t = decimal 0 (leading t)

module _ (p : Platform) where
  open p use {create, delete, set_key_value, get_key_value, del_key_value}

  -- The match between two bounds becomes the last match, and what follows it is left; with no match
  -- nothing changes.
  abbrev pub took : Words → Option (ℕ × ℕ) → Bool × Words
  took w none = (false, w)
  took w (some (start, end)) =
      (true, record { s = (spanned start end w.s).1; matched = (spanned start end w.s).0 })

  -- The first match of a pattern in what is left of the line.
  abbrev pub next_match : Pattern → Words → Bool × Words
  next_match pat w = took w (p.regexec pat w.s)

  abbrev pub at_start : Text → Words
  at_start input = record { s = input; matched = p.garbage }

  -- Whether a line has the form of a pattern.
  abbrev pub has_form : Pattern → Text → Bool
  has_form pat input = (next_match pat (at_start input)).0

  module _ (form : Pattern → Text → Bool) (next : Pattern → Words → Bool × Words)
      (value : Text → ℕ) where
    abbrev set_of : Words → Command
    set_of w =
        let key = (next digits w).1 in
        let (found, rest) = next value_text key in
        if found then set_record (value key.matched) rest.matched else wrong

    abbrev get_of : Words → Command
    get_of w =
        let (found, key) = next digits w in if found then get_record (value key.matched) else wrong

    abbrev del_of : Words → Command
    del_of w =
        let (found, key) = next digits w in if found then del_record (value key.matched) else wrong

    abbrev open_of : Words → Command
    open_of w = open_named (next db_file w).1.matched

    -- A line with two parameters, with one, and with none, by its first word.
    abbrev two_of : Words → Command
    two_of w = if same_word w.matched set_text then set_of w else wrong

    abbrev one_of : Words → Command
    one_of w =
        if same_word w.matched open_text
        then open_of w
        else if same_word w.matched get_text
        then get_of w
        else if same_word w.matched del_text || same_word w.matched delete_text
        then del_of w
        else wrong

    abbrev none_of : Words → Command
    none_of w =
        if same_word w.matched close_text
        then close_it
        else if same_word w.matched exit_text || same_word w.matched quit_text
        then leave
        else if same_word w.matched help_text
        then show_help
        else wrong

    -- The command that a line denotes, by how forms, words and numbers are read.
    abbrev denoted : Text → Command
    denoted input =
        let w = (next word (at_start input)).1 in
        if form two_parameters input
        then two_of w
        else if form one_parameter input
        then one_of w
        else if form no_parameter input
        then none_of w
        else wrong

  -- The command that a line denotes.
  abbrev pub denotes : Text → Command
  denotes input = denoted has_form next_match number input

  -- What a command does with a database open, and with none.
  abbrev pub does : Command → Client p → Option p.Db → Outcome p
  does (open_named name) c none = opened p name (create name c.state)
  does leave c none = record { res = quits; printed = none; after = c }
  does close_it c (some db) = closed p (delete db c.state)
  does (set_record key value) c (some db) = changed p c (set_key_value db key value c.state)
  does (get_record key) c (some db) = shown p c (get_key_value db key c.state)
  does (del_record key) c (some db) = changed p c (del_key_value db key c.state)
  does show_help c hdb = record { res = success; printed = none; after = c }
  does command c hdb = reject p c

  module _ (c : Client p) where
    -- The database that is open.
    abbrev pub run : Command → Outcome p
    run command = does command c c.hdb

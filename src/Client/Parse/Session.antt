-- ===== src/Client/Parse/Session.antt =====
-- Parse as a machine on the open database: which calls of the database it makes, and when.
use distributed_db.Common.{ℕ, ◌≡◌, refl, Bool, true, false, Option, none, some, if◌then◌else◌, ◌||◌}
use distributed_db.Client.Parse.{
  Text, Platform, Result, failure, success, quits, Words, Client, Outcome, parse, with_db,
  set_command, get_command, del_command, open_command, close_command, two_parameter_command,
  one_parameter_command, no_parameter_command, get_match, reject, changed, shown, opened, closed,
  is_open, same_word, set_text, get_text, del_text, delete_text, open_text, close_text, exit_text,
  quit_text, help_text, check, word, two_parameters, one_parameter, no_parameter,
}

module _ (p : Platform) where
  open p use {State, Db, create, delete, set_key_value, get_key_value, del_key_value}

  -- What a command may do: call nothing, or open a database where none is, or make one of the other
  -- calls on the open one; or quit where none is open.
  pub data Acts (c : Client p) : Outcome p → Type 0 where
    calls_nothing :
        (res : Result)
        → (res ≡ quits → c.hdb ≡ none)
        → Acts c (record { res = res; printed = none; after = c })
    opens : (name : Text) → c.hdb ≡ none → Acts c (opened p name (create name c.state))
    closes : (db : Db) → c.hdb ≡ some db → Acts c (closed p (delete db c.state))
    sets :
        (db : Db) (key : ℕ) (value : Text)
        → c.hdb ≡ some db
        → Acts c (changed p c (set_key_value db key value c.state))
    gets : (db : Db) (key : ℕ) → c.hdb ≡ some db → Acts c (shown p c (get_key_value db key c.state))
    deletes :
        (db : Db) (key : ℕ) → c.hdb ≡ some db → Acts c (changed p c (del_key_value db key c.state))

  Acts-reject : (c : Client p) → Acts c (reject p c)
  Acts-reject c = calls_nothing failure cc

  Acts-if :
      {c : Client p} (b : Bool) {o o' : Outcome p}
      → Acts c o
      → Acts c o'
      → Acts c (if b then o else o')
  Acts-if true a a' = a
  Acts-if false a a' = a'

  Acts-unopened :
      (c : Client p) (hdb : Option Db) (o : Outcome p)
      → c.hdb ≡ hdb
      → (c.hdb ≡ none → Acts c o)
      → Acts c (if is_open hdb then reject p c else o)
  Acts-unopened c none o e a = a e
  Acts-unopened c (some db) o e a = Acts-reject c

  Acts-opened :
      (c : Client p) (hdb : Option Db) (command : Db → Outcome p)
      → c.hdb ≡ hdb
      → ((db : Db) → c.hdb ≡ some db → Acts c (command db))
      → Acts c (elim hdb [ none ↦ reject p c | some db ↦ command db ])
  Acts-opened c none command e a = Acts-reject c
  Acts-opened c (some db) command e a = a db e

  Acts-with_db :
      (c : Client p) (command : Db → Outcome p)
      → ((db : Db) → c.hdb ≡ some db → Acts c (command db))
      → Acts c (with_db p c command)
  unfolding with_db
  Acts-with_db c command a = Acts-opened c c.hdb command refl a

  Acts-set_command :
      (w : Words) (c : Client p) (db : Db) → c.hdb ≡ some db → Acts c (set_command p w db c)
  unfolding set_command
  Acts-set_command w c db e = Acts-if _ (sets db _ _ e) (Acts-reject c)

  Acts-get_command :
      (w : Words) (c : Client p) (db : Db) → c.hdb ≡ some db → Acts c (get_command p w db c)
  unfolding get_command
  Acts-get_command w c db e = Acts-if _ (gets db _ e) (Acts-reject c)

  Acts-del_command :
      (w : Words) (c : Client p) (db : Db) → c.hdb ≡ some db → Acts c (del_command p w db c)
  unfolding del_command
  Acts-del_command w c db e = Acts-if _ (deletes db _ e) (Acts-reject c)

  Acts-open_command : (w : Words) (c : Client p) → c.hdb ≡ none → Acts c (open_command p w c)
  unfolding open_command
  Acts-open_command w c e = opens _ e

  Acts-close_command : (c : Client p) (db : Db) → c.hdb ≡ some db → Acts c (close_command p db c)
  unfolding close_command
  Acts-close_command c db e = closes db e

  -- The first word of the input.
  abbrev name_of : Words → Words
  name_of w = (get_match p word w).1

  Acts-two_parameter_command : (w : Words) (c : Client p) → Acts c (two_parameter_command p w c)
  unfolding two_parameter_command
  Acts-two_parameter_command w c =
      let n = name_of w in
      Acts-if (same_word n.matched set_text)
        (Acts-with_db c (λ db. set_command p n db c) (Acts-set_command n c)) (Acts-reject c)

  Acts-one_parameter_command : (w : Words) (c : Client p) → Acts c (one_parameter_command p w c)
  unfolding one_parameter_command
  Acts-one_parameter_command w c =
      let n = name_of w in
      Acts-if (same_word n.matched open_text)
        (Acts-unopened c c.hdb (open_command p n c) refl (Acts-open_command n c))
        (Acts-if (same_word n.matched get_text)
          (Acts-with_db c (λ db. get_command p n db c) (Acts-get_command n c))
          (Acts-if (same_word n.matched del_text || same_word n.matched delete_text)
            (Acts-with_db c (λ db. del_command p n db c) (Acts-del_command n c)) (Acts-reject c)))

  Acts-no_parameter_command : (w : Words) (c : Client p) → Acts c (no_parameter_command p w c)
  unfolding no_parameter_command
  Acts-no_parameter_command w c =
      let n = name_of w in
      Acts-if (same_word n.matched close_text)
        (Acts-with_db c (λ db. close_command p db c) (Acts-close_command c))
        (Acts-if (same_word n.matched exit_text || same_word n.matched quit_text)
          (Acts-unopened c c.hdb _ refl (λ e. calls_nothing quits (λ q. e)))
          (Acts-if (same_word n.matched help_text) (calls_nothing success cc) (Acts-reject c)))

  -- Whatever the line of input: Parse calls nothing and leaves the client as it is, or opens a
  -- database where none is open, or makes one of the other calls on the open one, with the result
  -- of the call as its own; and it says to quit only where no database is open.
  pub parse-Acts : (input : Text) (c : Client p) → Acts c (parse p input c)
  unfolding parse
  parse-Acts input c =
      let w : Words = record { s = input; matched = p.garbage } in
      Acts-if (check p two_parameters input) (Acts-two_parameter_command w c) (
        Acts-if (check p one_parameter input) (Acts-one_parameter_command w c)
          (Acts-if (check p no_parameter input) (Acts-no_parameter_command w c) (Acts-reject c)))

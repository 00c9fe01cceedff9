-- ===== src/Client/Parse/Prompt.antt =====
-- InputCmd of client/inputcmd.c: the loop that reads lines until Parse says to quit.
use distributed_db.Common.{
  ◌≡◌, refl, inl, inr, Bool, true, false, List, [], ◌∷◌, Option, none, some, ◌==◌, if◌then◌else◌,
  Bool-cases,
}
use distributed_db.Client.Parse.{
  Text, Platform, Result, success, failure, quits, Client, Outcome, parse, of_flag,
}
use distributed_db.Client.Parse.Session.{
  Acts, calls_nothing, opens, closes, sets, gets, deletes, parse-Acts,
}

-- The line without the newline that it ends in, if it does.
abbrev pub without_newline : Text → Text
without_newline [] = []
without_newline (c ∷ []) = if c == 10 then [] else c ∷ []
without_newline (c ∷ d ∷ cs) = c ∷ without_newline (d ∷ cs)

abbrev is_quit : Result → Bool
is_quit success = false
is_quit failure = false
is_quit quits = true

-- The test for a line that is skipped.
abbrev pub is_blank : Text → Bool
is_blank [] = true
is_blank (c ∷ cs) = c == 10

module _ (p : Platform) where
  -- From the lines that fgets returns; none is the end of the input, where fgets returns NULL and
  -- strlen reads it.
  unfoldable pub input_cmd : List Text → Client p → Option (Client p)
  input_cmd [] c = none
  input_cmd (line ∷ lines) c =
      let o = parse p (without_newline line) c in
      let rest = input_cmd lines (if is_blank line then c else o.after) in
      if is_blank line then rest else if is_quit o.res then some o.after else rest

  of_flag_lem : (b : Bool) → is_quit (of_flag b) ≡ false
  of_flag_lem true = refl
  of_flag_lem false = refl

  closed_at_quit :
      {c : Client p} {o : Outcome p} → Acts p c o → is_quit o.res ≡ true → o.after.hdb ≡ none
  closed_at_quit (calls_nothing quits h) q = h refl
  closed_at_quit (calls_nothing success h) q = absurd (cc q)
  closed_at_quit (calls_nothing failure h) q = absurd (cc q)
  closed_at_quit (opens name h) q = absurd (cc (q, of_flag_lem _))
  closed_at_quit (closes db h) q = refl
  closed_at_quit (sets db key value h) q = absurd (cc (q, of_flag_lem _))
  closed_at_quit (gets db key h) q = absurd (cc (q, of_flag_lem _))
  closed_at_quit (deletes db key h) q = absurd (cc (q, of_flag_lem _))

  -- When the loop ends, no database is open.
  pub input_cmd-closed :
      (lines : List Text) (c c' : Client p) → input_cmd lines c ≡ some c' → c'.hdb ≡ none
  unfolding input_cmd
  input_cmd-closed [] c c' e = absurd (cc e)
  input_cmd-closed (line ∷ lines) c c' e =
      let o = parse p (without_newline line) c in
      elim (Bool-cases (is_blank line)) [
        | inl b ↦ input_cmd-closed lines c c' (rw b at e)
        | inr b ↦ elim (Bool-cases (is_quit o.res)) [
          | inl q ↦
              let last : some o.after ≡ some c' = rw (b, q) at e in
              cc (last, closed_at_quit (parse-Acts p (without_newline line) c) q)
          | inr q ↦ input_cmd-closed lines o.after c' (rw (b, q) at e)
        ]
      ]

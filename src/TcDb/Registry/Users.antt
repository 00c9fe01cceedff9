-- ===== src/TcDb/Registry/Users.antt =====
-- Who has opened which database, and what the registry knows of it.
use distributed_db.Common.{
  ℕ, suc, ◌+◌, ◌-◌, ◌<◌, ◌≡◌, ◌≢◌, ◌↔◌, refl, ◌∙◌, ◌⊎◌, inl, inr, Bool, true, false, List, [], ◌∷◌,
  Option, none, some, arith, ◌==◌, if◌then◌else◌, Bool-cases,
}
use distributed_db.TcDb.Registry.{Cabinet, Registry, Handle, db_create, db_delete}
use distributed_db.TcDb.Registry.Counts.{
  IsMap, entry, Opens, Elsewhere, db_create-Shares, db_create-Opens, db_delete-Releases,
}

module _ (cab : Cabinet) (laws : IsMap cab) (same : cab.Name → cab.Name → Bool)
    (same_iff : (a b : cab.Name) → (same a b ≡ true) ↔ (a ≡ b)) where
  open cab use {Name, Hdb, World}

  -- How often a name is in a list, and the list without its first entry of it.
  abbrev pub count : Name → List Name → ℕ
  count name [] = 0
  count name (m ∷ ms) = let rest = count name ms in if same name m then suc rest else rest

  abbrev pub without_one : Name → List Name → List Name
  without_one name [] = []
  without_one name (m ∷ ms) = let rest = without_one name ms in if same name m then ms else m ∷ rest

  -- A registry is begun with, databases are opened, which may fail, and users give back what they
  -- have opened, and work on the files; `users` has the name of each database once for each user that has it.
  pub data History (begun : Registry cab) : Registry cab → List Name → Type 0 where
    here : History begun begun []
    opens :
        {r r' : Registry cab} {users : List Name} (name : Name) (h : Handle cab)
        → History begun r users
        → db_create cab name r ≡ some (some h, r')
        → History begun r' (name ∷ users)
    fails :
        {r r' : Registry cab} {users : List Name} (name : Name)
        → History begun r users
        → db_create cab name r ≡ some (none, r')
        → History begun r' users
    closes :
        {r r' : Registry cab} {users : List Name} (h : Handle cab) (ok : Bool)
        → History begun r users
        → 0 < count h.name users
        → db_delete cab h r ≡ some (ok, r')
        → History begun r' (without_one h.name users)
    works :
        {r r' : Registry cab} {users : List Name}
        → History begun r users
        → r'.mdb ≡ r.mdb
        → History begun r' users

  -- A database with no user is not in the registry; one with users is, with their number.
  abbrev pub Knows : Option (Handle cab) → Name → ℕ → Type 0
  Knows held name n =
      ((n ≡ 0) × (held ≡ none))
      ⊎ ((0 < n) × ((e : Handle cab) × (held ≡ some e) × (e.counter ≡ n) × (e.name ≡ name)))

  abbrev pub IsCounted : Registry cab → List Name → Type 0
  IsCounted r users = (name : Name) → Knows (entry cab r name) name (count name users)

  same_self : (name : Name) → same name name ≡ true
  same_self name = (same_iff name name).1 refl

  count-without_one :
      (name : Name) (users : List Name)
      → 0 < count name users
      → count name (without_one name users) + 1 ≡ count name users
  count-without_one name [] h = absurd (omega arith)
  count-without_one name (m ∷ ms) h = elim (Bool-cases (same name m)) [
    | inl e ↦ rw e (omega arith)
    | inr e ↦ rw (e, e) (count-without_one name ms (rw e at h))
  ]

  count-without_other :
      (name k : Name) (users : List Name)
      → same k name ≡ false
      → count k (without_one name users) ≡ count k users
  count-without_other name k [] h = refl
  count-without_other name k (m ∷ ms) h = elim (Bool-cases (same name m)) [
    | inl e ↦ let is_name : name ≡ m = (same_iff name m).0 e in rw (e, ← is_name, h) refl
    | inr e ↦ rw (e, count-without_other name k ms h) refl
  ]

  -- Only the entry of `name` has changed, and only its users.
  IsCounted-changed :
      (name : Name) (r r' : Registry cab) (users users' : List Name)
      → IsCounted r users
      → Elsewhere cab name r r'
      → ((k : Name) → same k name ≡ false → count k users' ≡ count k users)
      → Knows (entry cab r' name) name (count name users')
      → IsCounted r' users'
  IsCounted-changed name r r' users users' c others counts own k = elim (Bool-cases (same k name)) [
    | inl e ↦ let is_name : k ≡ name = (same_iff k name).0 e in rw is_name own
    | inr e ↦
        let ne : k ≢ name = λ q. cc ((same_iff k name).1 q, e) in rw (others k ne, counts k e) (c k)
  ]

  count_more :
      (name : Name) (users : List Name) (k : Name)
      → same k name ≡ false
      → count k (name ∷ users) ≡ count k users
  count_more name users k e = rw e refl

  -- What a DBCreate of a database without users has done that went well.
  opened_new :
      (name : Name) (r r' : Registry cab) (h : Handle cab) (res : Option Hdb × World)
      → Opens cab name r res
      → db_create cab name r ≡ some (some h, r')
      → ((e : Handle cab) × (entry cab r' name ≡ some e) × (e.counter ≡ 1) × (e.name ≡ name))
        × Elsewhere cab name r r'
  opened_new name r r' h (none, world) (s', run, _, _) e = absurd (cc (run, e))
  opened_new name r r' h (some hdb, world) (s', run, there, others, _) e =
      let is_after : s' ≡ r' = cc (run, e) in
      let new : Handle cab = record { name = name; hdb = hdb; counter = 1 } in
      rw (← is_after) ((new, there, refl, refl), others)

  opens-IsCounted :
      (name : Name) (r r' : Registry cab) (users : List Name) (h : Handle cab)
      → IsCounted r users
      → db_create cab name r ≡ some (some h, r')
      → IsCounted r' (name ∷ users)
  opens-IsCounted name r r' users h c e = elim (c name) [
    | inl (nobody, absent) ↦
        let ((d, there, once, own), others) =
          opened_new name r r' h (cab.open_file name r.world)
            (db_create-Opens cab laws name r absent) e in
        IsCounted-changed name r r' users (name ∷ users) c others (count_more name users)
          (rw (same_self name) (inr (omega arith, (d, there, omega (arith, once, nobody), own))))
    | inr (some_users, (d, held, counted, own)) ↦
        let (h', s', run, _, _, there, others, _) = db_create-Shares cab laws name r d held in
        let is_after : s' ≡ r' = cc (run, e) in
        let d' : Handle cab = record d { counter = d.counter + 1 } in
        rw (← is_after) (
          IsCounted-changed name r s' users (name ∷ users) c others (count_more name users)
            (rw (same_self name) (inr (omega arith, (d', there, omega (arith, counted), own)))))
  ]

  not_opened :
      (name : Name) (r r' : Registry cab) (res : Option Hdb × World)
      → Opens cab name r res
      → db_create cab name r ≡ some (none, r')
      → (k : Name) → entry cab r' k ≡ entry cab r k
  not_opened name r r' (none, world) (s', run, others, _) e k =
      let is_after : s' ≡ r' = cc (run, e) in rw (← is_after) (others k)
  not_opened name r r' (some hdb, world) (s', run, _, _, _) e k = absurd (cc (run, e))

  fails-IsCounted :
      (name : Name) (r r' : Registry cab) (users : List Name)
      → IsCounted r users
      → db_create cab name r ≡ some (none, r')
      → IsCounted r' users
  fails-IsCounted name r r' users c e k = elim (c name) [
    | inl (nobody, absent) ↦
        rw
          (not_opened name r r' (cab.open_file name r.world)
            (db_create-Opens cab laws name r absent) e k)
          (c k)
    | inr (some_users, (d, held, counted, own)) ↦
        let (h', s', run, _, _, _, _, _) = db_create-Shares cab laws name r d held in
        absurd (cc (run, e))
  ]

  closes-IsCounted :
      (r r' : Registry cab) (users : List Name) (h : Handle cab) (ok : Bool)
      → IsCounted r users
      → 0 < count h.name users
      → db_delete cab h r ≡ some (ok, r')
      → IsCounted r' (without_one h.name users)
  closes-IsCounted r r' users h ok c used e = elim (c h.name) [
    | inl (nobody, absent) ↦ absurd (omega arith)
    | inr (some_users, (d, held, counted, own)) ↦
        let (s', left, others, run, _) = db_delete-Releases cab laws h r d held own in
        let is_after : s' ≡ r' = cc (run, e) in
        let fewer = count-without_one h.name users used in
        rw (← is_after) (
          IsCounted-changed h.name r s' users (without_one h.name users) c (rw (← own) others)
            (λ k f. count-without_other h.name k users f)
            (released d (entry cab s' h.name) (count h.name users)
              (count h.name (without_one h.name users)) h.name counted own fewer (rw (← own) left)))
  ]
    where
      released :
          (d : Handle cab) (held : Option (Handle cab)) (n m : ℕ) (name : Name)
          → d.counter ≡ n
          → d.name ≡ name
          → m + 1 ≡ n
          → held ≡ (if d.counter == 1 then none else some (record d { counter = d.counter - 1 }))
          → Knows held name m
      released d held n m name counted own fewer e = elim (Bool-cases (d.counter == 1)) [
        | inl last ↦ inl (ground arith, e ∙ rw last refl)
        | inr more ↦ inr (
          ground arith,
          (
            record d { counter = d.counter - 1 },
            e ∙ rw more refl,
            omega (arith, counted, fewer),
            own,
          ),
        )
      ]

  -- From a registry with nothing in it, after any history of DBCreate and DBDelete in which users
  -- give back only what they have, a database is in the registry exactly while it has users, with
  -- their number.
  pub History-IsCounted :
      {begun r : Registry cab} {users : List Name}
      → ((name : Name) → entry cab begun name ≡ none)
      → History begun r users
      → IsCounted r users
  History-IsCounted nothing here = λ name. inl (refl, nothing name)
  History-IsCounted nothing (opens {r} {r'} {users} name h past e) =
      opens-IsCounted name r r' users h (History-IsCounted nothing past) e
  History-IsCounted nothing (fails {r} {r'} {users} name past e) =
      fails-IsCounted name r r' users (History-IsCounted nothing past) e
  History-IsCounted nothing (closes {r} {r'} {users} h ok past used e) =
      closes-IsCounted r r' users h ok (History-IsCounted nothing past) used e
  History-IsCounted nothing (works {r} {r'} {users} past e) =
      λ name. rw e (History-IsCounted nothing past name)

-- ===== src/Platform/Replays.antt =====
-- Issuing a command again under its key (telegram-platform/backend/app/tg/service/command_service.py).
use tdaudiibncba.Common.{
  some_inj, none≢some, true≢false, ℕ, String, ◌≡◌, refl, sym, ap, ◌∙◌, inl, inr, true, false,
  Option, none, some, [], ◌∷◌, ◌==◌, nat_eq, string_eq, Bool-cases, beq_refl, eq_of_beq,
}
use tdaudiibncba.Common.Dict
use tdaudiibncba.Common.Dict.{Dict, get-put}
use tdaudiibncba.Platform.Store.{User}
use tdaudiibncba.Platform.Commands.{
  CommandAccount, RuntimeCommand, Queue, CommandParam, Answered, command, failure, by_key, key_used,
  may_use, key_or, new_command, created, or_create, existing_for, issue_for, issue,
}

-- A command that is put under a key that no row has is found by it.
by_key-put :
    (commands : Dict ℕ RuntimeCommand) (id : ℕ) (c : RuntimeCommand) (key : String)
    → key_used key commands ≡ false
    → (c.dedup_key == key) ≡ true
    → c.deleted ≡ false
    → by_key key (Dict.put commands id c) ≡ some c
unfolding by_key key_used Dict.put
by_key-put [] id c key free mine live = rw (mine, live)
by_key-put ((i, d) ∷ commands) id c key free mine live = elim (Bool-cases (d.dedup_key == key)) [
  | inl p ↦ absurd (true≢false (rw p at free))
  | inr p ↦ elim (Bool-cases (i == id)) [
    | inl q ↦ rw (q, mine, live)
    | inr q ↦ rw (q, p) (by_key-put commands id c key (rw p at free) mine live)
  ]
]

abbrev Finds : String → Answered × Queue → Type 0
Finds key (failure e, db) = Unit
Finds key (command c, db) = by_key key db.commands ≡ some c

created-Finds :
    (c : RuntimeCommand) (key : String) (db : Queue)
    → (c.dedup_key == key) ≡ true
    → c.deleted ≡ false
    → Finds key (created c db)
created-Finds c key db mine live = elim (Bool-cases (key_used c.dedup_key db.commands)) [
  | inl p ↦ rw p tt
  | inr p ↦
      let free : key_used key db.commands ≡ false =
        ap (λ (k : String). key_used k db.commands) (sym (eq_of_beq c.dedup_key key mine)) ∙ p in
      rw p (by_key-put db.commands c.id c key free mine live)
]

or_create-Finds :
    (o : Option RuntimeCommand) (c : RuntimeCommand) (key : String) (db : Queue)
    → by_key key db.commands ≡ o
    → (c.dedup_key == key) ≡ true
    → c.deleted ≡ false
    → Finds key (or_create o c db)
or_create-Finds none c key db e mine live = created-Finds c key db mine live
or_create-Finds (some old) c key db e mine live = e

module _ (user : User) (account_id : ℕ) (obj : CommandParam) (id : ℕ) (fresh : String) (now : ℕ)
    (db : Queue) (key : String) (keyed : obj.dedup_key ≡ some key)
    (full : (key == "") ≡ false) where
  own_key : (key_or obj.dedup_key fresh == key) ≡ true
  own_key = ap (λ (o : Option String). key_or o fresh == key) keyed ∙ chosen
    where
      chosen : (key_or (some key) fresh == key) ≡ true
      chosen = rw full (beq_refl key)

  looked_up :
      (commands : Dict ℕ RuntimeCommand) → existing_for obj.dedup_key commands ≡ by_key key commands
  looked_up commands = ap (λ (o : Option String). existing_for o commands) keyed ∙ chosen
    where
      chosen : existing_for (some key) commands ≡ by_key key commands
      chosen = rw full

  issue_for-Finds :
      (o : Option CommandAccount) → Finds key (issue_for o user account_id obj id fresh now db)
  issue_for-Finds none = tt
  issue_for-Finds (some account) = elim (Bool-cases account.deleted) [
    | inl p ↦ rw p tt
    | inr p ↦ elim (Bool-cases (may_use db user account.tenant_id account.project_id)) [
      | inr q ↦ rw (p, q) tt
      | inl q ↦
          rw (p, q)
            (or_create-Finds (existing_for obj.dedup_key db.commands)
              (new_command user account_id account obj id fresh now) key db
              (sym (looked_up db.commands)) own_key refl)
    ]
  ]

  -- A command that stands under the key is what is answered, whoever asks for whatever account.
  issue_for-replay :
      (o : Option CommandAccount) (account : CommandAccount) (c : RuntimeCommand)
      → o ≡ some account
      → account.deleted ≡ false
      → may_use db user account.tenant_id account.project_id ≡ true
      → by_key key db.commands ≡ some c
      → issue_for o user account_id obj id fresh now db ≡ (command c, db)
  issue_for-replay none account c e live may there = absurd (none≢some e)
  issue_for-replay (some a) account c e live may there =
      let live' : a.deleted ≡ false = ap (λ (x : CommandAccount). x.deleted) (some_inj e) ∙ live in
      let may' : may_use db user a.tenant_id a.project_id ≡ true =
        ap (λ (x : CommandAccount). may_use db user x.tenant_id x.project_id) (some_inj e) ∙ may in
      let found = looked_up db.commands ∙ there in rw (live', may', found)

recognised :
    (key : String) (r : Answered × Queue) (c : RuntimeCommand)
    → Finds key r
    → r.0 ≡ command c
    → by_key key r.1.commands ≡ some c
recognised key (command d, db) c h e = h ∙ ap some (same e)
  where
    same : {a b : RuntimeCommand} → command a ≡ command b → a ≡ b
    same e = cc
recognised key (failure f, db) c h e = cc

-- Issuing is idempotent by the deduplication key: once a command was answered under a key that is not
-- empty, issuing under that key again, by whomever, with whatever else and for whatever live account
-- in his scope, answers the same command and changes nothing.
pub issue-replay :
    (user user' : User) (account_id account_id' : ℕ) (obj obj' : CommandParam) (id id' : ℕ)
    (fresh fresh' : String) (now now' : ℕ) (db : Queue) (key : String) (c : RuntimeCommand)
    (account' : CommandAccount)
    → obj.dedup_key ≡ some key
    → obj'.dedup_key ≡ some key
    → (key == "") ≡ false
    → (issue user account_id obj id fresh now db).0 ≡ command c
    → let db' = (issue user account_id obj id fresh now db).1 in
      Dict.get db'.accounts account_id' ≡ some account'
      → account'.deleted ≡ false
      → may_use db' user' account'.tenant_id account'.project_id ≡ true
      → issue user' account_id' obj' id' fresh' now' db' ≡ (command c, db')
unfolding issue
issue-replay user user' account_id account_id' obj obj' id id' fresh fresh' now now' db key c
      account' keyed keyed' full answered there live may =
    let r = issue user account_id obj id fresh now db in
    let found =
      recognised key r c
        (issue_for-Finds user account_id obj id fresh now db key keyed full
          (Dict.get db.accounts account_id))
        answered in
    issue_for-replay user' account_id' obj' id' fresh' now' r.1 key keyed' full
      (Dict.get r.1.accounts account_id') account' c there live may found

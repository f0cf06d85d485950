-- ===== src/Host/Once.antt =====
-- No command is applied twice (runtime/worker/host.py, poll_commands).
use tdaudiibncba.Common.{
  ℕ, String, ◌≡◌, refl, ap, ◌∙◌, inl, inr, Bool, true, false, Option, none, some, List, [], ◌∷◌,
  ◌++◌, ◌==◌, contains, string_eq, nat_eq, Bool-cases, both_branches, Memᴰ, sym, subst,
}
use tdaudiibncba.Common.Dict.{Dict}
use tdaudiibncba.Storage.Jobs.{Jobs}
use tdaudiibncba.Host.State.{
  Assignment, Hosted, Host, Pulled, rows, refused, broke, refresh_rules, report_status,
}
use tdaudiibncba.Host.Assigning.{release, let_go}
use tdaudiibncba.Host.Commands.{
  PendingCommand, Answer, Field, Surroundings, Acks, seen, apply_command, apply_all, applied_to,
  poll_each, poll_commands, reloaded, cancel_answer, cancel_job,
}

abbrev pub ids_of : Acks → List ℕ
ids_of [] = []
ids_of ((id, answer) ∷ acks) = id ∷ ids_of acks

-- No id was seen before its turn.
abbrev pub AreFresh : List ℕ → List ℕ → Type 0
AreFresh before [] = Unit
AreFresh before (id ∷ ids) = (contains before id ≡ false) × AreFresh (id ∷ before) ids

abbrev pub add_all : List ℕ → List ℕ → List ℕ
add_all [] before = before
add_all (id ∷ ids) before = add_all ids (id ∷ before)

-- What some commands did to the ids that were seen.
abbrev pub Handles : Field → Acks × Field → Type 0
Handles f (acks, f') =
    AreFresh f.host.seen_cmds (ids_of acks)
    × (f'.host.seen_cmds ≡ add_all (ids_of acks) f.host.seen_cmds)

AreFresh-append :
    (before : List ℕ) (a b : Acks)
    → AreFresh before (ids_of a)
    → AreFresh (add_all (ids_of a) before) (ids_of b)
    → AreFresh before (ids_of (a ++ b))
AreFresh-append before [] b h g = g
AreFresh-append before ((id, answer) ∷ a) b h g = (h.0, AreFresh-append (id ∷ before) a b h.1 g)

add_all-append :
    (before : List ℕ) (a b : Acks)
    → add_all (ids_of (a ++ b)) before ≡ add_all (ids_of b) (add_all (ids_of a) before)
add_all-append before [] b = refl
add_all-append before ((id, answer) ∷ a) b = add_all-append (id ∷ before) a b

let_go_seen :
    (o : Option Hosted) (reason : String) (h : Host) → (let_go o reason h).seen_cmds ≡ h.seen_cmds
unfolding report_status
let_go_seen none reason h = refl
let_go_seen (some x) reason h = elim (Bool-cases (reason == "lease_lost")) [
  | inl p ↦ rw p
  | inr p ↦ rw p
]

refresh_seen :
    (p : Pulled) (a : Assignment) (now : ℕ) (h : Host)
    → (refresh_rules p a now h).1.seen_cmds ≡ h.seen_cmds
unfolding refresh_rules
refresh_seen (rows rs) a now h = refl
refresh_seen refused a now h = refl
refresh_seen broke a now h = refl

reloaded_seen : (r : Bool × Host) (f : Field) → (reloaded r f).1.host.seen_cmds ≡ r.1.seen_cmds
reloaded_seen (true, h) f = refl
reloaded_seen (false, h) f = refl

cancel_seen :
    (r : Bool × Jobs) (f : Field) → (cancel_answer r f).1.host.seen_cmds ≡ f.host.seen_cmds
cancel_seen (true, jobs) f = refl
cancel_seen (false, jobs) f = refl

apply_seen :
    (out : Surroundings) (account_id : String) (a : Assignment) (cmd : PendingCommand) (f : Field)
    → (apply_command out account_id a cmd f).1.host.seen_cmds ≡ f.host.seen_cmds
unfolding apply_command release
apply_seen out account_id a cmd f =
    let same = λ (r : Answer × Field). r.1.host.seen_cmds ≡ f.host.seen_cmds in
    both_branches same (cmd.kind == "StopAccount") _ _ (let_go_seen _ "command_stop" _) (
      both_branches same (cmd.kind == "StartAccount") _ _ refl (
        both_branches same (cmd.kind == "PauseAccount") _ _ refl (
          both_branches same (cmd.kind == "ResumeAccount") _ _ refl (
            both_branches same (cmd.kind == "ReloadConfig") _ _
              (reloaded_seen (refresh_rules (out.rules a.api_row_id) a out.now f.host) f
                ∙ refresh_seen (out.rules a.api_row_id) a out.now f.host)
              (both_branches same (cmd.kind == "SyncChats") _ _ refl (
                both_branches same (cmd.kind == "CancelJob") _ _
                  (both_branches same (cmd.job_id == "") _ _ refl
                    (cancel_seen (cancel_job cmd.job_id out.now f.jobs) f))
                  refl))))))

after_command :
    (f f' : Field) (id : ℕ) (answer : Answer) (r : Acks × Field)
    → f'.host.seen_cmds ≡ id ∷ f.host.seen_cmds
    → contains f.host.seen_cmds id ≡ false
    → Handles f' r
    → Handles f ((id, answer) ∷ r.0, r.1)
after_command f f' id answer (acks, f'') e new h =
    ((new, rw (← e) h.0), h.1 ∙ ap (add_all (ids_of acks)) e)

apply_all-Handles :
    (out : Surroundings) (account_id : String) (a : Assignment) (cmds : List PendingCommand)
    (f : Field)
    → Handles f (apply_all out account_id a cmds f)
unfolding apply_all
apply_all-Handles out account_id a [] f = (tt, refl)
apply_all-Handles out account_id a (cmd ∷ cmds) f =
    elim (Bool-cases (contains f.host.seen_cmds cmd.id)) [
      | inl old ↦ rw old (apply_all-Handles out account_id a cmds f)
      | inr new ↦
          let r = apply_command out account_id a cmd (seen cmd f) in
          rw new (
            after_command f r.1 cmd.id r.0 (apply_all out account_id a cmds r.1)
              (apply_seen out account_id a cmd (seen cmd f)) new
              (apply_all-Handles out account_id a cmds r.1))
    ]

applied_to-Handles :
    (out : Surroundings) (account_id : String) (a : Assignment)
    (pulled : Option (List PendingCommand)) (f : Field)
    → Handles f (applied_to out account_id a pulled f)
applied_to-Handles out account_id a none f = (tt, refl)
applied_to-Handles out account_id a (some cmds) f = apply_all-Handles out account_id a cmds f

-- One handling after another.
join-Handles :
    (f : Field) (r s : Acks × Field) → Handles f r → Handles r.1 s → Handles f (r.0 ++ s.0, s.1)
join-Handles f (a, f') (b, f'') h g = (
  AreFresh-append f.host.seen_cmds a b h.0 (rw (← h.1) g.0),
  g.1 ∙ ap (add_all (ids_of b)) h.1 ∙ sym (add_all-append f.host.seen_cmds a b),
)

poll_each-Handles :
    (out : Surroundings) (pulls : ℕ → Option (List PendingCommand)) (hosted : Dict String Hosted)
    (f : Field)
    → Handles f (poll_each out pulls hosted f)
unfolding poll_each
poll_each-Handles out pulls [] f = (tt, refl)
poll_each-Handles out pulls ((account_id, x) ∷ hosted) f =
    let r = applied_to out account_id x.assignment (pulls x.assignment.api_row_id) f in
    join-Handles f r (poll_each out pulls hosted r.1)
      (applied_to-Handles out account_id x.assignment (pulls x.assignment.api_row_id) f)
      (poll_each-Handles out pulls hosted r.1)

-- What a round of polling is given.
pub record Poll : Type 0 where
  pub out : Surroundings
  pub pulls : ℕ → Option (List PendingCommand)

-- Any number of polls; between two of them the rest of the host may do whatever leaves the seen ids
-- alone.
pub polls : List (Poll × (Field → Field)) → Field → Acks × Field
polls [] f = ([], f)
polls ((p, between) ∷ ps) f =
    let (acks, f') = poll_commands p.out p.pulls f in
    let (more, f'') = polls ps (between f') in (acks ++ more, f'')

-- No command is applied twice: over any number of polls, whatever the control plane answers, for
-- whatever accounts, and with any work of the host in between that leaves the seen ids alone, no id
-- is acknowledged that was seen before or acknowledged earlier.
pub polls_once :
    (ps : List (Poll × (Field → Field))) (f : Field)
    → ((p : Poll × (Field → Field))
        → Memᴰ p ps
        → (g : Field) → (p.1 g).host.seen_cmds ≡ g.host.seen_cmds)
    → AreFresh f.host.seen_cmds (ids_of (polls ps f).0)
unfolding polls poll_commands
polls_once [] f quiet = tt
polls_once ((p, between) ∷ ps) f quiet =
    let r = poll_each p.out p.pulls f.host.hosted f in
    let h = poll_each-Handles p.out p.pulls f.host.hosted f in
    let rest = polls_once ps (between r.1) (λ q m. quiet q (Memᴰ.tail m)) in
    AreFresh-append f.host.seen_cmds r.0 (polls ps (between r.1)).0 h.0 (
      subst (λ (ids : List ℕ). AreFresh ids (ids_of (polls ps (between r.1)).0))
        (quiet (p, between) (Memᴰ.head refl) r.1 ∙ h.1) rest)

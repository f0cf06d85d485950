-- ===== src/Host/Polling.antt =====
-- The commands keep the host's tables in step (runtime/worker/host.py, _apply_command and
-- poll_commands).
use tdaudiibncba.Common.{
  ℕ, String, refl, Bool, true, false, Option, none, some, List, [], ◌∷◌, ◌==◌, contains,
  both_branches, string_eq, nat_eq,
}
use tdaudiibncba.Common.Dict.{Dict}
use tdaudiibncba.Storage.Jobs.{Jobs}
use tdaudiibncba.Host.Registry.{paused_row, resumed_row, mark_paused, mark_resumed}
use tdaudiibncba.Host.State.{Assignment, Hosted, Host, refresh_rules}
use tdaudiibncba.Host.Commands.{
  PendingCommand, Answer, Field, Surroundings, Acks, seen, apply_command, apply_all, applied_to,
  poll_each, poll_commands, reloaded, cancel_answer, cancel_job,
}
use tdaudiibncba.Host.Alignment.{Aligned, set-IsAligned}
use tdaudiibncba.Host.Invariant.{release-Aligned, refresh-Aligned}

-- The host after a call that answers.
abbrev pub Keeps {ℓ} : {A : Type ℓ} → A × Field → Type 0
Keeps (answer, f) = Aligned f.host

reloaded-Keeps : (r : Bool × Host) (f : Field) → Aligned r.1 → Keeps (reloaded r f)
reloaded-Keeps (true, h) f al = al
reloaded-Keeps (false, h) f al = al

cancel-Keeps : (r : Bool × Jobs) (f : Field) → Aligned f.host → Keeps (cancel_answer r f)
cancel-Keeps (true, jobs) f al = al
cancel-Keeps (false, jobs) f al = al

apply_command-Keeps :
    (out : Surroundings) (account_id : String) (a : Assignment) (cmd : PendingCommand) (f : Field)
    → Aligned f.host
    → Keeps (apply_command out account_id a cmd f)
unfolding apply_command mark_paused mark_resumed
apply_command-Keeps out account_id a cmd f al =
    let h = f.host in
    let P = λ (r : Answer × Field). Keeps r in
    both_branches P (cmd.kind == "StopAccount") _ _ (release-Aligned account_id "command_stop" h al)
      (both_branches P (cmd.kind == "StartAccount") _ _ al (
        both_branches P (cmd.kind == "PauseAccount") _ _
          (set-IsAligned h.hosted h.runners h.routes h.registry account_id paused_row (λ row. refl)
            (λ row. refl) al)
          (both_branches P (cmd.kind == "ResumeAccount") _ _
            (set-IsAligned h.hosted h.runners h.routes h.registry account_id resumed_row
              (λ row. refl) (λ row. refl) al)
            (both_branches P (cmd.kind == "ReloadConfig") _ _
              (reloaded-Keeps (refresh_rules (out.rules a.api_row_id) a out.now h) f
                (refresh-Aligned (out.rules a.api_row_id) a out.now h al))
              (both_branches P (cmd.kind == "SyncChats") _ _ al (
                both_branches P (cmd.kind == "CancelJob") _ _
                  (both_branches P (cmd.job_id == "") _ _ al
                    (cancel-Keeps (cancel_job cmd.job_id out.now f.jobs) f al))
                  al))))))

apply_all-Keeps :
    (out : Surroundings) (account_id : String) (a : Assignment) (cmds : List PendingCommand)
    (f : Field)
    → Aligned f.host
    → Keeps (apply_all out account_id a cmds f)
unfolding apply_all
apply_all-Keeps out account_id a [] f al = al
apply_all-Keeps out account_id a (cmd ∷ cmds) f al =
    let r = apply_command out account_id a cmd (seen cmd f) in
    both_branches (λ (r : Acks × Field). Keeps r) (contains f.host.seen_cmds cmd.id) _ _
      (apply_all-Keeps out account_id a cmds f al)
      (apply_all-Keeps out account_id a cmds r.1
        (apply_command-Keeps out account_id a cmd (seen cmd f) al))

applied_to-Keeps :
    (out : Surroundings) (account_id : String) (a : Assignment)
    (pulled : Option (List PendingCommand)) (f : Field)
    → Aligned f.host
    → Keeps (applied_to out account_id a pulled f)
applied_to-Keeps out account_id a none f al = al
applied_to-Keeps out account_id a (some cmds) f al = apply_all-Keeps out account_id a cmds f al

poll_each-Keeps :
    (out : Surroundings) (pulls : ℕ → Option (List PendingCommand)) (hosted : Dict String Hosted)
    (f : Field)
    → Aligned f.host
    → Keeps (poll_each out pulls hosted f)
unfolding poll_each
poll_each-Keeps out pulls [] f al = al
poll_each-Keeps out pulls ((account_id, x) ∷ hosted) f al =
    let r = applied_to out account_id x.assignment (pulls x.assignment.api_row_id) f in
    poll_each-Keeps out pulls hosted r.1
      (applied_to-Keeps out account_id x.assignment (pulls x.assignment.api_row_id) f al)

-- Polling and applying the commands, whatever they are and whatever they meet, keeps the tables of the
-- host in step.
pub poll_commands-Aligned :
    (out : Surroundings) (pulls : ℕ → Option (List PendingCommand)) (f : Field)
    → Aligned f.host
    → Aligned (poll_commands out pulls f).1.host
unfolding poll_commands
poll_commands-Aligned out pulls f al = poll_each-Keeps out pulls f.host.hosted f al

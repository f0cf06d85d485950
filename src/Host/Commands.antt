-- ===== src/Host/Commands.antt =====
-- runtime/worker/host.py: the commands that the host pulls from the control plane and applies. The
-- answers of the control plane are arguments.
use tdaudiibncba.Common.{
  ℕ, String, Bool, true, false, Option, none, some, List, [], ◌∷◌, ◌++◌, ◌==◌, contains,
  if◌then◌else◌, string_eq, nat_eq,
}
use tdaudiibncba.Common.Dict.{Dict}
use tdaudiibncba.Delivery.Status.{JobStatus}
use tdaudiibncba.Storage.Jobs.{Jobs, transition}
use tdaudiibncba.Host.Registry.{mark_paused, mark_resumed}
use tdaudiibncba.Host.State.{Assignment, Hosted, Host, Pulled, refresh_rules}
use tdaudiibncba.Host.Assigning.{release}

-- `job_id` is the text of the payload's "job_id", empty where there is none.
pub record PendingCommand : Type 0 where
  pub id : ℕ
  pub kind : String
  pub job_id : String

-- The status and the result that are acknowledged: "done" with a text, "rejected" with a text, with
-- "unsupported:" and the type, or with "error:" and the exception's name.
pub data Answer : Type 0 where
  done : String → Answer
  rejected : String → Answer
  unsupported : String → Answer
  failed : Answer

-- The host and the table of jobs that a command may cancel in.
pub record Field : Type 0 where
  pub host : Host
  pub jobs : Jobs

abbrev pub cancelled_from : JobStatus → String → ℕ → Jobs → Bool × Jobs
cancelled_from src job_id now jobs =
    transition job_id src JobStatus.cancelled none none none now jobs

abbrev pub or_try : Bool × Jobs → (Jobs → Bool × Jobs) → Bool × Jobs
or_try (true, jobs) next = (true, jobs)
or_try (false, jobs) next = next jobs

-- `_cancel_job`
unfoldable pub cancel_job : String → ℕ → Jobs → Bool × Jobs
cancel_job job_id now jobs = or_try (cancelled_from JobStatus.ready job_id now jobs) λ jobs.
    or_try (cancelled_from JobStatus.retry_wait job_id now jobs)
      λ jobs. cancelled_from JobStatus.leased job_id now jobs

-- What a command meets outside: the rules, whether the dialogs can be listed, and the clock.
pub record Surroundings : Type 0 where
  pub rules : ℕ → Pulled
  pub lists_dialogs : Bool
  pub now : ℕ

abbrev pub on_host : Field → (Host → Host) → Field
on_host f change = record f { host = change f.host }

abbrev pub reloaded : Bool × Host → Field → Answer × Field
reloaded (true, h) f = (failed, record f { host = h })
reloaded (false, h) f = (done "rules_refreshed", record f { host = h })

abbrev pub cancel_answer : Bool × Jobs → Field → Answer × Field
cancel_answer (true, jobs) f = (done "cancelled", record f { jobs = jobs })
cancel_answer (false, jobs) f = (rejected "job_not_cancellable", record f { jobs = jobs })

abbrev pub pause : String → Host → Host
pause account_id h = record h { registry = mark_paused account_id h.registry }

abbrev pub resume : String → Host → Host
resume account_id h = record h { registry = mark_resumed account_id h.registry }

-- `_apply_command`
unfoldable pub apply_command :
    Surroundings → String → Assignment → PendingCommand → Field → Answer × Field
apply_command out account_id a cmd f =
    if cmd.kind == "StopAccount"
    then (done "released", on_host f (release account_id "command_stop"))
    else if cmd.kind == "StartAccount"
    then (done "already_hosted", f)
    else if cmd.kind == "PauseAccount"
    then (done "paused", on_host f (pause account_id))
    else if cmd.kind == "ResumeAccount"
    then (done "resumed", on_host f (resume account_id))
    else if cmd.kind == "ReloadConfig"
    then reloaded (refresh_rules (out.rules a.api_row_id) a out.now f.host) f
    else if cmd.kind == "SyncChats"
    then (if out.lists_dialogs then done "dialogs_warmed" else failed, f)
    else if cmd.kind == "CancelJob"
    then if cmd.job_id == ""
      then (rejected "job_not_cancellable", f)
      else cancel_answer (cancel_job cmd.job_id out.now f.jobs) f
    else (unsupported cmd.kind, f)

-- The acknowledgements that are sent, by command.
abbrev pub Acks : Type 0
Acks = List (ℕ × Answer)

abbrev pub seen : PendingCommand → Field → Field
seen cmd f = on_host f λ h. record h { seen_cmds = cmd.id ∷ h.seen_cmds }

-- The inner loop of `poll_commands`: a command that was seen is skipped.
unfoldable pub apply_all :
    Surroundings → String → Assignment → List PendingCommand → Field → Acks × Field
apply_all out account_id a [] f = ([], f)
apply_all out account_id a (cmd ∷ cmds) f =
    let (answer, f') = apply_command out account_id a cmd (seen cmd f) in
    let skipped = apply_all out account_id a cmds f in
    let applied = apply_all out account_id a cmds f' in
    if contains f.host.seen_cmds cmd.id then skipped else ((cmd.id, answer) ∷ applied.0, applied.1)

abbrev pub applied_to :
    Surroundings → String → Assignment → Option (List PendingCommand) → Field → Acks × Field
applied_to out account_id a none f = ([], f)
applied_to out account_id a (some cmds) f = apply_all out account_id a cmds f

-- `poll_commands` over the accounts that were hosted at its start; `none` is a ControlApiError.
unfoldable pub poll_each :
    Surroundings → (ℕ → Option (List PendingCommand)) → Dict String Hosted → Field → Acks × Field
poll_each out pulls [] f = ([], f)
poll_each out pulls ((account_id, x) ∷ hosted) f =
    let (acks, f') = applied_to out account_id x.assignment (pulls x.assignment.api_row_id) f in
    let (more, f'') = poll_each out pulls hosted f' in (acks ++ more, f'')

unfoldable pub poll_commands :
    Surroundings → (ℕ → Option (List PendingCommand)) → Field → Acks × Field
poll_commands out pulls f = poll_each out pulls f.host.hosted f

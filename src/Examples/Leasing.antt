-- ===== src/Examples/Leasing.antt =====
-- The theorems on leases, on one that has expired.
use tdaudiibncba.Common.{
  String, ◌≡◌, refl, none, some, [], ◌∷◌, ne_of_beq, string_eq, nat_eq, pair_eq, list_eq, int_eq,
}
use tdaudiibncba.Common.Dict
use tdaudiibncba.Storage.Leases.{AccountLease, Leases, acquire_given, acquire, update_where}
use tdaudiibncba.Storage.Fencing.{RowForward, LeaseRun, stays, steps, acquires, run-RowForward}
use tdaudiibncba.Storage.Acquisition.{Acquired, acquire-Acquired}
use tdaudiibncba.Storage.Race.{acquire_race}

abbrev pub account : String
account = "acc"

abbrev w1 : String
w1 = "w1"

abbrev w2 : String
w2 = "w2"

abbrev w3 : String
w3 = "w3"

abbrev old_lease : AccountLease
old_lease = record { account_id = "acc"; worker_id = "w1"; generation = 4; lease_until = 100 }

abbrev leases : Leases
leases = ("acc", old_lease) ∷ []

abbrev taken_leases : Leases
taken_leases = (acquire_given (some old_lease) account w2 45 200 leases).1

takeover_run : LeaseRun leases taken_leases
takeover_run = steps stays (acquires (some old_lease) account w2 45 200)

run-RowForward_example : RowForward (Dict.get leases account) (Dict.get taken_leases account)
run-RowForward_example = run-RowForward account takeover_run

acquire-Acquired_example : Acquired account w2 45 200 leases (acquire account w2 45 200 leases)
acquire-Acquired_example = acquire-Acquired account w2 45 200 leases

race_won : (acquire_given (some old_lease) account w2 45 200 leases).0 ≡ some 5
unfolding Dict.get Dict.put acquire_given update_where
race_won = refl

acquire_race_example :
    acquire_given (some old_lease) account w3 45 201 taken_leases ≡ (none, taken_leases)
acquire_race_example =
    acquire_race old_lease account w2 w3 45 200 201 5 leases (ne_of_beq old_lease.worker_id w2 refl)
      (ne_of_beq old_lease.worker_id w3 refl) race_won

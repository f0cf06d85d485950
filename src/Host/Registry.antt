-- ===== src/Host/Registry.antt =====
-- runtime/worker/live.py, LiveRegistry: what the gate is told of each account of this worker.
use tdaudiibncba.Common.{ℕ, pos, negsuc, String, Option, none, some, string_eq}
use tdaudiibncba.Common.Dict
use tdaudiibncba.Common.Dict.{Dict}
use tdaudiibncba.Delivery.Policy.{SendState, LiveAccount}

abbrev pub Registry : Type 0
Registry = Dict String LiveAccount

unfoldable pub register : String → ℕ → Registry → Registry
register account_id generation rows = Dict.put rows account_id (record {
  account_id = account_id;
  generation = pos generation;
  send_state = SendState.sendable;
  flood_wait_until = none;
})

abbrev pub or_dead : Option LiveAccount → String → LiveAccount
or_dead (some row) account_id = row
or_dead none account_id = record {
  account_id = account_id;
  generation = negsuc 0;
  send_state = SendState.auth_dead;
  flood_wait_until = none;
}

unfoldable pub live_of : String → Registry → LiveAccount
live_of account_id rows = or_dead (Dict.get rows account_id) account_id

-- `_set` with its keyword arguments as a change of the row.
abbrev pub set_row : Option LiveAccount → (LiveAccount → LiveAccount) → String → Registry → Registry
set_row none change account_id rows = rows
set_row (some row) change account_id rows = Dict.put rows account_id (change row)

unfoldable pub set : (LiveAccount → LiveAccount) → String → Registry → Registry
set change account_id rows = set_row (Dict.get rows account_id) change account_id rows

abbrev pub paused_row : LiveAccount → LiveAccount
paused_row row = record row { send_state = SendState.paused }

abbrev pub resumed_row : LiveAccount → LiveAccount
resumed_row row = record row { send_state = SendState.sendable; flood_wait_until = none }

abbrev pub dead_row : LiveAccount → LiveAccount
dead_row row = record row { send_state = SendState.auth_dead }

abbrev pub flooded_row : ℕ → LiveAccount → LiveAccount
flooded_row until row = record row {
  send_state = SendState.flood_wait;
  flood_wait_until = some until;
}

unfoldable pub mark_paused : String → Registry → Registry
mark_paused account_id rows = set paused_row account_id rows

unfoldable pub mark_resumed : String → Registry → Registry
mark_resumed account_id rows = set resumed_row account_id rows

unfoldable pub mark_auth_dead : String → Registry → Registry
mark_auth_dead account_id rows = set dead_row account_id rows

unfoldable pub mark_flood_wait : String → ℕ → Registry → Registry
mark_flood_wait account_id until rows = set (flooded_row until) account_id rows

unfoldable pub drop : String → Registry → Registry
drop account_id rows = Dict.remove rows account_id

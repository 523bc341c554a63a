-- ===== src/Stakepoold/Updates.antt =====
-- UpdateTicketData, UpdateUserData and their MySQL forms, of
-- backend/stakepoold/stakepool/stakepool.go.
pub mod Effects
use dcrstakepool.Shared.{String, number_key, if◌then◌else◌, List, [], ◌∷◌, Result, ok, err}
use dcrstakepool.Shared.Map.{Map, has, put, put_all, delete}
use dcrstakepool.Stakepoold.{Hash, Stakepoold, UserVotingConfig}

-- for tickethash, msa := range newAddedLowFeeTicketsMSA
add_tickets : Map Hash String → Stakepoold → Stakepoold
add_tickets [] spd = spd
add_tickets ((tickethash, msa) ∷ new) spd = add_tickets new (record spd {
  ignored_low_fee_tickets_msa = delete tickethash spd.ignored_low_fee_tickets_msa;
  live_tickets_msa = put tickethash msa spd.live_tickets_msa;
})

-- for th, m := range spd.AddedLowFeeTicketsMSA
ignore_removed : Map Hash String → Map Hash String → Map Hash String → Map Hash String
ignore_removed new [] ignored = ignored
ignore_removed new ((th, m) ∷ added) ignored =
    ignore_removed new added (if has th new then ignored else put th m ignored)

ignore_all_removed : Map Hash String → Stakepoold → Stakepoold
ignore_all_removed new spd = record spd {
  ignored_low_fee_tickets_msa =
      ignore_removed new spd.added_low_fee_tickets_msa spd.ignored_low_fee_tickets_msa;
}

unfoldable pub update_ticket_data : Map Hash String → Stakepoold → Stakepoold
unfolding add_tickets ignore_removed ignore_all_removed
update_ticket_data new spd = record (ignore_all_removed new (add_tickets new spd)) {
  added_low_fee_tickets_msa = new;
}

-- The first argument is what MySQLFetchAddedLowFeeTickets returns.
pub update_ticket_data_from_mysql :
    Result (Map Hash String) → Stakepoold → Result (Unit {0}) × Stakepoold
update_ticket_data_from_mysql (err e) spd = (err e, spd)
update_ticket_data_from_mysql (ok new) spd = (ok tt, update_ticket_data new spd)

unfoldable pub update_user_data : Map String UserVotingConfig → Stakepoold → Stakepoold
update_user_data new spd = record spd { user_voting_config = new }

-- The first argument is what MySQLFetchUserVotingConfig returns.
pub update_user_data_from_mysql :
    Result (Map String UserVotingConfig) → Stakepoold → Result (Unit {0}) × Stakepoold
update_user_data_from_mysql (err e) spd = (err e, spd)
update_user_data_from_mysql (ok new) spd = (ok tt, update_user_data new spd)

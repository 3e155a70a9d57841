-- ===== src/Tests/Clients.antt =====
-- The clients of two accounts, one of which loses its connection.
use telegram_client.Prelude.{◌≡◌, [], true, false, nat_eq, string_eq, pair_eq}
use telegram_client.Dict
use telegram_client.Engine.{authorized}
use telegram_client.Engine.Clients.{
  Clients, new_engine, client_for_account, disconnect, disconnect_all, is_among,
}
use telegram_client.Engine.Clients.Runs.{here, next, asked, lost}
use telegram_client.Engine.Clients.Closed.{disconnect_all-Reach}
use telegram_client.Dict.{Dict}
use telegram_client.Data.{int_eq, role_eq}

abbrev first_engine : Clients
first_engine = (client_for_account true 1 authorized new_engine).0

abbrev second_engine : Clients
second_engine = (client_for_account true 2 authorized first_engine).0

disconnect_all-Reach_example :
    ((disconnect_all (disconnect 0 second_engine)).clients ≡ [])
    × ((disconnect_all (disconnect 0 second_engine)).running ≡ [])
    × (is_among
          (Dict.get 2 second_engine.clients)
          (disconnect_all (disconnect 0 second_engine)).connected
        ≡ false)
disconnect_all-Reach_example = disconnect_all-Reach (disconnect 0 second_engine) 2 (
    next second_engine
      (next first_engine (next new_engine here (asked true 1 authorized)) (asked true 2 authorized))
      (lost 0))

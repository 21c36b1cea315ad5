-- ===== src/Tests/Agreement.antt =====
-- The servers that share a history at a concrete one.
use ws_benchmark.Prelude.{◌≡◌, List, [], ◌∷◌, arith}
use ws_benchmark.Stats.{Clock}
use ws_benchmark.Stats.Totals.{total}
use ws_benchmark.Uws.Server.{Event, open_event, close_event, message_event}
use ws_benchmark.Agreement.{uws_after, wpp_after, servers-agree}

abbrev clock : Clock
clock = record { start_ns = 5; now_ns = 7; printed_ns = 8 }

abbrev history : List Event
history =
    open_event
    ∷ message_event clock 7 1 (104 ∷ 105 ∷ [])
    ∷ open_event
    ∷ message_event clock 9 2 (0 ∷ 1 ∷ 2 ∷ [])
    ∷ close_event
    ∷ []

servers-agree_example :
    ((uws_after history).sent ≡ (wpp_after 3 history).sent)
    × ((uws_after history).active_connections ≡ (wpp_after 3 history).active_connections)
    × ((wpp_after 3 history).failed ≡ 0)
    × (total (uws_after history).counters (uws_after history).printed
        ≡ total (wpp_after 3 history).counters (wpp_after 3 history).printed)
servers-agree_example = servers-agree history 3 (record {
  recv_bytes_fits = omega arith;
  send_bytes_fits = omega arith;
  recv_msg_cnt_fits = omega arith;
  send_msg_cnt_fits = omega arith;
})

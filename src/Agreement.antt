-- ===== src/Agreement.antt =====
-- The echo servers of src/uwebsockets and src/websocketpp on the same history.
use mathlib.Core.List.{reverse}
use mathlib.Core.Path.{ap₂, subst}
use ws_benchmark.Prelude.{ℕ, ◌+◌, ◌≡◌, refl, ap, sym, ◌∙◌, true, false, List, [], ◌∷◌, length}
use ws_benchmark.Prelude.Int.{sub_ℕ}
use ws_benchmark.Stats.Totals.{add, echo_traffic, total, Fits}
use ws_benchmark.Uws
use ws_benchmark.Wpp

-- The same history, in which no `send` throws.
unfoldable pub as_wpp : List Uws.Server.Event → List Wpp.Server.Event
as_wpp [] = []
as_wpp (Uws.Server.open_event ∷ es) = Wpp.Server.open_event ∷ as_wpp es
as_wpp (Uws.Server.close_event ∷ es) = Wpp.Server.close_event ∷ as_wpp es
as_wpp (Uws.Server.message_event clock ws op_code message ∷ es) =
    Wpp.Server.message_event clock false ws op_code message ∷ as_wpp es

delivered-as_wpp :
    (es : List Uws.Server.Event)
    → Wpp.Server.Failures.delivered (as_wpp es) ≡ Uws.Server.Echo.messages es
unfolding as_wpp
delivered-as_wpp [] = refl
delivered-as_wpp (Uws.Server.open_event ∷ es) = delivered-as_wpp es
delivered-as_wpp (Uws.Server.close_event ∷ es) = delivered-as_wpp es
delivered-as_wpp (Uws.Server.message_event clock ws op m ∷ es) =
    ap (λ ms. (ws, op, m) ∷ ms) (delivered-as_wpp es)

opened-as_wpp :
    (es : List Uws.Server.Event)
    → Wpp.Server.Failures.opened (as_wpp es) ≡ Uws.Server.Echo.opened es
unfolding as_wpp
opened-as_wpp [] = refl
opened-as_wpp (Uws.Server.open_event ∷ es) = ap (λ n. 1 + n) (opened-as_wpp es)
opened-as_wpp (Uws.Server.close_event ∷ es) = opened-as_wpp es
opened-as_wpp (Uws.Server.message_event clock ws op m ∷ es) = opened-as_wpp es

closed-as_wpp :
    (es : List Uws.Server.Event)
    → Wpp.Server.Failures.closed (as_wpp es) ≡ Uws.Server.Echo.closed es
unfolding as_wpp
closed-as_wpp [] = refl
closed-as_wpp (Uws.Server.open_event ∷ es) = closed-as_wpp es
closed-as_wpp (Uws.Server.close_event ∷ es) = ap (λ n. 1 + n) (closed-as_wpp es)
closed-as_wpp (Uws.Server.message_event clock ws op m ∷ es) = closed-as_wpp es

thrown-as_wpp : (es : List Uws.Server.Event) → Wpp.Server.Failures.thrown (as_wpp es) ≡ 0
unfolding as_wpp
thrown-as_wpp [] = refl
thrown-as_wpp (Uws.Server.open_event ∷ es) = thrown-as_wpp es
thrown-as_wpp (Uws.Server.close_event ∷ es) = thrown-as_wpp es
thrown-as_wpp (Uws.Server.message_event clock ws op m ∷ es) = thrown-as_wpp es

traffic-as_wpp :
    (es : List Uws.Server.Event)
    → Wpp.Server.Intervals.traffic (as_wpp es) ≡ Uws.Server.Intervals.traffic es
unfolding as_wpp
traffic-as_wpp [] = refl
traffic-as_wpp (Uws.Server.open_event ∷ es) = traffic-as_wpp es
traffic-as_wpp (Uws.Server.close_event ∷ es) = traffic-as_wpp es
traffic-as_wpp (Uws.Server.message_event clock ws op m ∷ es) =
    ap (λ t. add (echo_traffic (length m)) t) (traffic-as_wpp es)

abbrev pub uws_after : List Uws.Server.Event → Uws.Server.Globals
uws_after es = Uws.Server.run es (Uws.Server.start true)

abbrev pub wpp_after : ℕ → List Uws.Server.Event → Wpp.Server.Globals
wpp_after max_data_len es = Wpp.Server.run (as_wpp es) (Wpp.Server.start max_data_len true)

-- On the same history, in which no `send` throws and whose traffic fits the 64-bit counters, the
-- two servers send the same messages in the same order to the same connections, count the same
-- connections, and their printed lines and running intervals add up to the same messages and bytes
-- each way, although they print at different times, and whatever length the websocketpp server was
-- started with.
pub servers-agree :
    (es : List Uws.Server.Event) (max_data_len : ℕ)
    → Fits (Uws.Server.Intervals.traffic es)
    → ((uws_after es).sent ≡ (wpp_after max_data_len es).sent)
      × ((uws_after es).active_connections ≡ (wpp_after max_data_len es).active_connections)
      × ((wpp_after max_data_len es).failed ≡ 0)
      × (total (uws_after es).counters (uws_after es).printed
          ≡ total (wpp_after max_data_len es).counters (wpp_after max_data_len es).printed)
servers-agree es max_data_len fits =
    let (sent, active, rows) = Uws.Server.Echo.run-sends_back es in
    let (sent', failed, active') = Wpp.Server.Failures.run-delivers (as_wpp es) max_data_len true in
    let all = Uws.Server.Intervals.run-total es true fits.recv_bytes_fits in
    let all' =
      Wpp.Server.Intervals.run-thrown_total (as_wpp es) max_data_len true
        (subst Fits (sym (traffic-as_wpp es)) fits) in
    (
      sent ∙ sym (sent' ∙ ap reverse (delivered-as_wpp es)),
      active ∙ sym (active' ∙ ap₂ sub_ℕ (opened-as_wpp es) (closed-as_wpp es)),
      failed ∙ thrown-as_wpp es,
      all ∙ sym (all' ∙ traffic-as_wpp es),
    )

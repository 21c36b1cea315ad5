-- ===== src/Fws/Server/Loop/Done.antt =====
-- Whole runs of the flashws echo server over all of its connections.
use ws_benchmark.Prelude.{ℕ, ◌^◌, ◌<◌, ◌≡◌, refl, Bool, none, List, arith, find}
use ws_benchmark.Fws.{FlashWs, done}
use ws_benchmark.Fws.Server.{Env, start}
use ws_benchmark.Fws.Server.Intervals.{IsFull}
use ws_benchmark.Fws.Server.Loop.{System, Event, started, run}
use ws_benchmark.Fws.Server.Loop.Serves.{run-Serves_from}
use ws_benchmark.Fws.Server.Loop.Table.{IsSound, AllAllowed, entry_by, shown_by}
use ws_benchmark.Fws.Server.Main.{buf_size, buf_size-eq}

pub started-IsSound : (fws : FlashWs) (max : ℕ) (fp : Bool) → IsSound fws max (started fp)
unfolding started start
started-IsSound fws max fp = record {
  held = tt;
  distinct = tt;
  inv = record { below = omega arith; matched = refl; full = tt };
}

-- The loop of a server that was asked for messages of less than 2^31 bytes, over any interleaving of
-- its connections' events, while no message is longer and each whole one can be written: no callback
-- stops the server or writes out of a buffer; each connection that is open holds the bytes of the
-- message under way and has echoed exactly the messages that its own parts made up since it was
-- opened, in order, each under the opcode of its last part; and every printed line stands for
-- exactly 0x4000 messages received and as many sent, over all connections, with fewer waiting.
pub loop-Serves :
    (fws : FlashWs) (max : ℕ) (fp : Bool) (es : List (Env × Event))
    → max < 2 ^ 31
    → fws.hdr_size < 2 ^ 31
    → AllAllowed fws max es (started fp)
    → (z : System) × (run fws (buf_size max fws.hdr_size) es (started fp) ≡ done z)
      × ((id : ℕ) → shown_by (find id z.connections) ≡ entry_by id es none)
      × IsFull z.ctx.printed
      × (z.ctx.last_interval_recv_msg_cnt < 0x4000)
unfolding started find
loop-Serves fws max fp es h k allowed =
    let served = run-Serves_from fws max es (started fp) allowed (started-IsSound fws max fp) in
    (
      served.after,
      rw (buf_size-eq max fws.hdr_size h k) served.runs,
      served.shown,
      served.sound.inv.full,
      served.sound.inv.below,
    )

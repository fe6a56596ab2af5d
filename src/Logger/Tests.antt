-- ===== src/Logger/Tests.antt =====
-- Tests of the logger: two items, one of them an error.
use exchange_server.Prelude.{ℕ, true, false, [], ◌∷◌, ◌≡◌, refl, arith}
use exchange_server.Prelude.Names.{Name}
use exchange_server.Prelude.Texts.{codes}
use exchange_server.Logger.{Logger, init, log, shut_down, error, info}
use exchange_server.Logger.Flush.{written, shut_down-writes}

abbrev clock_text : ℕ → Name
clock_text n = codes "12:00"

abbrev started : Logger
started = record { queue = []; running = true; is_open = true; console = []; file = [] }

abbrev busy : Logger
busy = log error (codes "b") 2500000000 (log info (codes "a") 1000000000 started)

abbrev ended : Logger
ended = shut_down clock_text 2 busy

second_line : ended.file ≡ codes "12:00.000 [INFO ] a\n" ∷ codes "12:00.500 [ERROR] b\n" ∷ []
unfolding shut_down exchange_server.Logger.process_logs log exchange_server.Logger.write_all
second_line = refl

shut_down-writes_example :
    ended
    ≡ record (written clock_text busy.queue busy) { queue = []; running = false; is_open = false }
unfolding log
shut_down-writes_example = shut_down-writes clock_text 2 busy (omega arith)

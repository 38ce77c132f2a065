-- ===== src/Tests/Consoles.antt =====
-- Texts with variables and colours, and the console of the server.
use smc_server_client.Common.{
  ℕ, true, false, none, some, List, [], ◌∷◌, ◌++◌, Bytes, codes, text_eq, ◌≡◌, refl, if◌then◌else◌,
}
use smc_server_client.Server.Variables.{Environment, resolve}
use smc_server_client.Server.Variables.Resolved.{
  Part, text, property_of, system, variable, AreParts, written, shown_values, resolve-written,
}
use smc_server_client.Server.ConsoleText.{print}
use smc_server_client.Server.ConsoleText.Printed
use smc_server_client.Server.ConsoleText.Printed.{print-written}
use smc_server_client.Server.Console.{
  MessageInfo, Console, new_console, stamp, console_error, complain, process_message, print_next,
  inf, err,
}
use smc_server_client.Server.Console.Pieces.{pieces_of, direct_of, in_hand}
use smc_server_client.Server.Console.Ordered.{
  start, grumble, say, show, on_stream, in_log, to_log, reached-Complete,
}

abbrev home : Environment
home name = if text_eq name (codes "HOME") then some (codes "/root") else none

abbrev line : List Part
line =
    text (codes "in ")
    ∷ variable b'H' b'O' (codes "ME") (codes "/root")
    ∷ property_of (codes "color=red")
    ∷ system b'V' []
    ∷ []

line_known : AreParts home line
unfolding text_eq
line_known = (
  (refl, refl, (refl, refl, (refl, refl, tt))),
  (
    ((refl, refl, (refl, refl, (refl, refl, (refl, refl, tt)))), refl, refl, refl),
    (
      (
        refl,
        refl,
        (
          refl,
          refl,
          (
            refl,
            refl,
            (refl, refl, (refl, refl, (refl, refl, (refl, refl, (refl, refl, (refl, refl, tt)))))),
          ),
        ),
      ),
      ((refl, refl, tt), tt),
    ),
  ),
)

resolve-written_example : resolve true home (written line) ≡ (true, shown_values line)
resolve-written_example = resolve-written true home line line_known

-- The text that the source gives as an example.
abbrev greeting : List Printed.Part
greeting =
    Printed.text (codes "Hello ")
    ∷ Printed.color (codes "yellow")
    ∷ Printed.text (codes "you")
    ∷ Printed.color (codes "reset")
    ∷ []

greeting_plain : Printed.AreParts greeting
greeting_plain = (
  (refl, refl, (refl, refl, (refl, refl, (refl, refl, (refl, refl, (refl, refl, tt)))))),
  (
    (refl, refl, (refl, refl, (refl, refl, (refl, refl, (refl, refl, (refl, refl, tt)))))),
    (
      (refl, refl, (refl, refl, (refl, refl, tt))),
      ((refl, refl, (refl, refl, (refl, refl, (refl, refl, (refl, refl, tt))))), tt),
    ),
  ),
)

print-written_example : print (Printed.written greeting) ≡ Printed.shown greeting
print-written_example = print-written greeting greeting_plain

abbrev no_time : ℕ → Bytes
no_time seconds = codes "0:00"

-- Two threads say something, the printer takes a message out and writes its first piece, and a thread
-- without a client writes its line between the pieces, before it puts its own message into the queue.
abbrev said : List MessageInfo
said =
    stamp home no_time 1 10 1 none (inf (codes "up"))
    ∷ stamp home no_time 1 11 2 (some 0) (err (codes "bad"))
    ∷ stamp home no_time 1 12 3 none (inf (codes "bye"))
    ∷ []

abbrev began : Console
began = print_next home no_time 1 (
    print_next home no_time 1 (
      process_message home no_time 1 11 2 (some 0) (err (codes "bad"))
        (process_message home no_time 1 10 1 none (inf (codes "up")) new_console)))

abbrev no_client : Bytes
no_client = codes "no client"

abbrev shown_one : Console
shown_one = print_next home no_time 1 (
    process_message home no_time 1 12 3 none (inf (codes "bye"))
      (complain home no_time 1 3 none no_client began))

reached-Complete_example :
    (pieces_of shown_one.cout
        ++ (in_hand false shown_one.printer ++ on_stream home no_time 1 false shown_one.queue)
      ≡ on_stream home no_time 1 false said)
    × (shown_one.cerr
          ++ (in_hand true shown_one.printer ++ on_stream home no_time 1 true shown_one.queue)
        ≡ on_stream home no_time 1 true said)
    × (shown_one.log
          ++ (to_log home no_time 1 shown_one.printer ++ in_log home no_time 1 shown_one.queue)
        ≡ in_log home no_time 1 said)
    × (direct_of shown_one.cout ≡ console_error home no_time 1 3 none no_client)
reached-Complete_example = reached-Complete home no_time 1 (
    show (
      say 12 3 none (inf (codes "bye")) (
        grumble 3 none no_client (
          show (
            show
              (say 11 2 (some 0) (err (codes "bad")) (say 10 1 none (inf (codes "up")) start)))))))

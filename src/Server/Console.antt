-- ===== src/Server/Console.antt =====
-- Server/src/io/console.cpp: every thread puts its messages into a queue, and one thread takes them out,
-- prints them piece by piece and logs them. Only the queue is locked, so that the steps of the threads
-- come in any order, between two pieces of a message too. `format_time`, the environment and the thread
-- of `main` are parameters.
pub mod Pieces
pub mod Ordered
use smc_server_client.Common.{
  ℕ, Bool, true, false, Option, none, some, List, [], ◌∷◌, ◌++◌, Bytes, codes, map, ◌==◌,
  if◌then◌else◌,
}
use smc_server_client.Text.{to_string}
use smc_server_client.Server.Variables.{Environment, resolve}
use smc_server_client.Server.ConsoleText.{Shown, char, style, print}

pub data MessageType : Type 0 where
  info warning error : MessageType

pub record MessageInfo : Type 0 where
  pub type : MessageType
  pub message : Bytes
  pub thread_id : ℕ
  pub timestamp : ℕ
  pub client_index : ℕ
  -- `std::cerr` and not `std::cout`.
  pub is_error_stream : Bool

abbrev pub new_message : MessageType → Bytes → Bool → MessageInfo
new_message type message is_error_stream = record {
  type = type;
  message = message;
  thread_id = 0;
  timestamp = 0;
  client_index = 0;
  is_error_stream = is_error_stream;
}

unfoldable pub color_of : MessageType → Bytes
color_of info = codes "green"
color_of warning = codes "yellow"
color_of error = codes "red"

unfoldable pub message_type_to_string : MessageType → Bytes
message_type_to_string info = codes "INFO"
message_type_to_string warning = codes "WARNING"
message_type_to_string error = codes "ERROR"

-- What is on `std::cout`: a piece of a message, from the printer, or a line that a thread without a
-- client wrote directly.
pub data Written : Type 0 where
  piece : Shown → Written
  direct : Bytes → Written

-- What the printer is at: it waits, or it has a message in hand, some pieces of which are not written yet.
pub data Printer : Type 0 where
  waiting : Printer
  printing : MessageInfo → List Shown → Printer

-- The queue, the printer, and what is on the two streams and in the log.
pub record Console : Type 0 where
  pub queue : List MessageInfo
  pub printer : Printer
  pub cout : List Written
  pub cerr : List Shown
  pub log : List Shown

abbrev pub new_console : Console
new_console = record { queue = []; printer = waiting; cout = []; cerr = []; log = [] }

module _ (env : Environment) (format_time : ℕ → Bytes) (main_thread_id : ℕ) where
  unfoldable pub get_message_location : MessageInfo → Bytes
  get_message_location m =
      if m.thread_id == main_thread_id
      then codes "@Main"
      else codes "@clt-" ++ to_string m.client_index

  abbrev chars : Bytes → List Shown
  chars text = map char text

  unfoldable pub print_message : MessageInfo → List Shown
  unfolding color_of message_type_to_string get_message_location
  print_message m =
      (style (codes "bright_white") ∷ char b'[' ∷ style (color_of m.type) ∷ [])
      ++ (chars (message_type_to_string m.type)
          ++ ((style (codes "blue") ∷ char b' ' ∷ [])
              ++ (chars (get_message_location m)
                  ++ ((style (codes "cyan") ∷ chars (codes " | "))
                      ++ ((style (codes "bright_green") ∷ chars (format_time m.timestamp))
                          ++ ((style (codes "bright_white") ∷ chars (codes "] "))
                              ++ (style (codes "white") ∷ (print m.message ++ (char 10 ∷ [])))))))))

  unfoldable pub log_message : MessageInfo → List Shown
  unfolding message_type_to_string get_message_location
  log_message m = print (
      (b'[' ∷ message_type_to_string m.type)
      ++ ((b' ' ∷ get_message_location m)
          ++ (codes " | "
              ++ (format_time m.timestamp ++ (codes "] " ++ (m.message ++ (10 ∷ [])))))))

  unfoldable pub get_resolved_message : Bytes → Bytes
  get_resolved_message input = (resolve false env input).1

  abbrev pub resolved : MessageInfo → MessageInfo
  resolved m = record m { message = get_resolved_message m.message }

  -- The message as it is put into the queue; `client` is none where `getInstance` throws.
  unfoldable pub stamp : ℕ → ℕ → Option ℕ → MessageInfo → MessageInfo
  stamp seconds thread_id client m =
      let stamped = record m { timestamp = seconds; thread_id = thread_id } in
      elim client [
        | none ↦ stamped
        | some index ↦
            if thread_id == main_thread_id then stamped else record stamped { client_index = index }
      ]

  -- What is written directly, with what the exception says.
  unfoldable pub console_error : ℕ → Option ℕ → Bytes → List Written
  console_error thread_id (some index) what = []
  console_error thread_id none what =
      if thread_id == main_thread_id
      then []
      else direct (codes "console error: " ++ (what ++ (10 ∷ []))) ∷ []

  -- The part of `processMessage` before the lock, and the part under it.
  unfoldable pub complain : ℕ → Option ℕ → Bytes → Console → Console
  unfolding console_error
  complain thread_id client what c = record c {
    cout = c.cout ++ console_error thread_id client what;
  }

  unfoldable pub process_message : ℕ → ℕ → Option ℕ → MessageInfo → Console → Console
  unfolding stamp
  process_message seconds thread_id client m c = record c {
    queue = c.queue ++ (stamp seconds thread_id client m ∷ []);
  }

  -- The front of the queue is taken out under the lock, and its variables are resolved.
  abbrev pub take_front : List MessageInfo → Console → Console
  take_front [] c = c
  take_front (m ∷ queue) c = record c {
    queue = queue;
    printer = printing (resolved m) (print_message (resolved m));
  }

  abbrev pub write_piece : Bool → Shown → Console → Console
  write_piece true shown c = record c { cerr = c.cerr ++ (shown ∷ []) }
  write_piece false shown c = record c { cout = c.cout ++ (piece shown ∷ []) }

  -- One step of `printerThread` by what it is at: it takes a message, writes a piece of it, or logs it
  -- and waits again.
  abbrev pub printer_step : Printer → Console → Console
  printer_step waiting c = take_front c.queue c
  printer_step (printing m []) c = record c { printer = waiting; log = c.log ++ log_message m }
  printer_step (printing m (shown ∷ pieces)) c =
      write_piece m.is_error_stream shown (record c { printer = printing m pieces })

  unfoldable pub print_next : Console → Console
  unfolding get_resolved_message
  print_next c = printer_step c.printer c

-- `inf`, `warn` and `err`.
unfoldable pub inf : Bytes → MessageInfo
inf message = new_message info message false

unfoldable pub warn : Bytes → MessageInfo
warn message = new_message warning (codes "<:color=yellow>" ++ message) false

unfoldable pub err : Bytes → MessageInfo
err message = new_message error (codes "<:color=red>" ++ message) true

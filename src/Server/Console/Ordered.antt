-- ===== src/Server/Console/Ordered.antt =====
-- Messages are shown in the order in which they came, and none is lost or shown twice.
use smc_server_client.Common.{
  ℕ, Bool, true, false, Option, none, some, List, [], ◌∷◌, ◌++◌, Bytes, if◌then◌else◌, ◌≡◌, refl,
  sym, ap, ap₂, ◌∙◌, append-nil, ◌==◌, append_assoc, Bool-cases, inl, inr,
}
use smc_server_client.Server.Variables.{Environment}
use smc_server_client.Server.ConsoleText.{Shown}
use smc_server_client.Server.Console.Pieces.{
  pieces_of, direct_of, in_hand, pieces_of-append, direct_of-append, behind,
}
use smc_server_client.Server.Console.{
  MessageInfo, Written, piece, Printer, waiting, printing, Console, new_console, print_message,
  log_message, resolved, stamp, console_error, complain, process_message, take_front, write_piece,
  printer_step, print_next,
}

module _ (env : Environment) (format_time : ℕ → Bytes) (main_thread_id : ℕ) where
  -- What a row of messages puts on a stream, in their order.
  abbrev pub on_stream : Bool → List MessageInfo → List Shown
  on_stream is_error [] = []
  on_stream true (m ∷ ms) =
      (if m.is_error_stream
        then print_message env format_time main_thread_id
            (resolved env format_time main_thread_id m)
        else [])
      ++ on_stream true ms
  on_stream false (m ∷ ms) =
      (if m.is_error_stream
        then []
        else print_message env format_time main_thread_id
            (resolved env format_time main_thread_id m))
      ++ on_stream false ms

  abbrev pub in_log : List MessageInfo → List Shown
  in_log [] = []
  in_log (m ∷ ms) =
      log_message env format_time main_thread_id (resolved env format_time main_thread_id m)
      ++ in_log ms

  -- The consoles that any order of steps comes to, with the messages that were put into the queue so
  -- far, as they were stamped, and the lines that threads wrote directly.
  pub data Reached : List MessageInfo → List Written → Console → Type 0 where
    start : Reached [] [] new_console
    grumble :
        {ms : List MessageInfo} {ds : List Written} {c : Console} (thread_id : ℕ)
        (client : Option ℕ) (what : Bytes)
        → Reached ms ds c
        → Reached ms
            (ds ++ console_error env format_time main_thread_id thread_id client what)
            (complain env format_time main_thread_id thread_id client what c)
    say :
        {ms : List MessageInfo} {ds : List Written} {c : Console} (seconds thread_id : ℕ)
        (client : Option ℕ) (m : MessageInfo)
        → Reached ms ds c
        → Reached
            (ms ++ (stamp env format_time main_thread_id seconds thread_id client m ∷ []))
            ds
            (process_message env format_time main_thread_id seconds thread_id client m c)
    show :
        {ms : List MessageInfo} {ds : List Written} {c : Console}
        → Reached ms ds c
        → Reached ms ds (print_next env format_time main_thread_id c)

  -- What is still to come in the log from the printer.
  abbrev pub to_log : Printer → List Shown
  to_log waiting = []
  to_log (printing m pieces) = log_message env format_time main_thread_id m

  -- What is shown and what waits make up what was said.
  abbrev Complete : List MessageInfo → Console → Type 0
  Complete ms c =
      (pieces_of c.cout ++ (in_hand false c.printer ++ on_stream false c.queue)
        ≡ on_stream false ms)
      × (c.cerr ++ (in_hand true c.printer ++ on_stream true c.queue) ≡ on_stream true ms)
      × (c.log ++ (to_log c.printer ++ in_log c.queue) ≡ in_log ms)

  on_stream-append :
      (is_error : Bool) (ms ns : List MessageInfo)
      → on_stream is_error (ms ++ ns) ≡ on_stream is_error ms ++ on_stream is_error ns
  on_stream-append true [] ns = refl
  on_stream-append false [] ns = refl
  on_stream-append true (m ∷ ms) ns =
      rw (on_stream-append true ms ns)
        (sym (append_assoc _ (on_stream true ms) (on_stream true ns)))
  on_stream-append false (m ∷ ms) ns =
      rw (on_stream-append false ms ns)
        (sym (append_assoc _ (on_stream false ms) (on_stream false ns)))

  in_log-append : (ms ns : List MessageInfo) → in_log (ms ++ ns) ≡ in_log ms ++ in_log ns
  in_log-append [] ns = refl
  in_log-append (m ∷ ms) ns =
      rw (in_log-append ms ns) (sym (append_assoc _ (in_log ms) (in_log ns)))

  say-Complete :
      (ms : List MessageInfo) (c : Console) (m : MessageInfo)
      → Complete ms c
      → Complete (ms ++ (m ∷ [])) (record c { queue = c.queue ++ (m ∷ []) })
  say-Complete ms c m (out, err, log) =
      let one = m ∷ [] in
      (
        ap (λ t. pieces_of c.cout ++ (in_hand false c.printer ++ t))
              (on_stream-append false c.queue one)
            ∙ behind (pieces_of c.cout) (in_hand false c.printer) (on_stream false c.queue) _ _ out
            ∙ sym (on_stream-append false ms one),
        ap (λ t. c.cerr ++ (in_hand true c.printer ++ t)) (on_stream-append true c.queue one)
            ∙ behind c.cerr (in_hand true c.printer) (on_stream true c.queue) _ _ err
            ∙ sym (on_stream-append true ms one),
        ap (λ t. c.log ++ (to_log c.printer ++ t)) (in_log-append c.queue one)
            ∙ behind c.log (to_log c.printer) (in_log c.queue) _ _ log
            ∙ sym (in_log-append ms one),
      )

  take-Complete :
      (ms queue : List MessageInfo) (c : Console)
      → Complete ms (record c { queue = queue; printer = waiting })
      → Complete ms (
          take_front env format_time main_thread_id queue
            (record c { queue = queue; printer = waiting }))
  unfolding print_message log_message
  take-Complete ms [] c h = h
  take-Complete ms (m ∷ queue) c h = h

  piece-Complete :
      (is_error : Bool) (ms : List MessageInfo) (c : Console) (m : MessageInfo) (shown : Shown)
      (pieces : List Shown)
      → m.is_error_stream ≡ is_error
      → Complete ms (record c { printer = printing m (shown ∷ pieces) })
      → Complete ms (
          write_piece env format_time main_thread_id is_error shown
            (record c { printer = printing m pieces }))
  unfolding print_message log_message
  piece-Complete true ms c m shown pieces to_err (out, err, log) =
      let out' : pieces_of c.cout ++ on_stream false c.queue ≡ on_stream false ms =
        rw to_err at out in
      let err' : c.cerr ++ ((shown ∷ pieces) ++ on_stream true c.queue) ≡ on_stream true ms =
        rw to_err at err in
      rw to_err
        (out', append_assoc c.cerr (shown ∷ []) (pieces ++ on_stream true c.queue) ∙ err', log)
  piece-Complete false ms c m shown pieces to_out (out, err, log) =
      let err' : c.cerr ++ on_stream true c.queue ≡ on_stream true ms = rw to_out at err in
      let out' : pieces_of c.cout ++ ((shown ∷ pieces) ++ on_stream false c.queue)
          ≡ on_stream false ms =
        rw to_out at out in
      rw to_out (
        ap (λ t. t ++ (pieces ++ on_stream false c.queue))
              (pieces_of-append c.cout (piece shown ∷ []))
            ∙ append_assoc (pieces_of c.cout) (shown ∷ []) (pieces ++ on_stream false c.queue)
            ∙ out',
        err',
        log,
      )

  log-Complete :
      (ms : List MessageInfo) (c : Console) (m : MessageInfo)
      → Complete ms (record c { printer = printing m [] })
      → Complete ms (record c {
        printer = waiting;
        log = c.log ++ log_message env format_time main_thread_id m;
      })
  unfolding print_message log_message
  log-Complete ms c m (out, err, log) =
      let logged =
        append_assoc c.log (log_message env format_time main_thread_id m) (in_log c.queue) ∙ log in
      elim (Bool-cases m.is_error_stream) [
        | inl to_err ↦ (rw to_err at out, rw to_err at err, logged)
        | inr to_out ↦ (rw to_out at out, rw to_out at err, logged)
      ]

  step-Complete :
      (ms : List MessageInfo) (c : Console) (p : Printer)
      → Complete ms (record c { printer = p })
      → Complete ms (printer_step env format_time main_thread_id p (record c { printer = p }))
  step-Complete ms c waiting h = take-Complete ms c.queue c h
  step-Complete ms c (printing m []) h = log-Complete ms c m h
  step-Complete ms c (printing m (shown ∷ pieces)) h =
      piece-Complete m.is_error_stream ms c m shown pieces refl h

  -- A direct line is no piece.
  console_error-pieces :
      (thread_id : ℕ) (client : Option ℕ) (what : Bytes)
      → (pieces_of (console_error env format_time main_thread_id thread_id client what) ≡ [])
        × (direct_of (console_error env format_time main_thread_id thread_id client what)
            ≡ console_error env format_time main_thread_id thread_id client what)
  unfolding console_error
  console_error-pieces thread_id (some index) what = (refl, refl)
  console_error-pieces thread_id none what = elim (Bool-cases (thread_id == main_thread_id)) [
    | inl on_main ↦ rw on_main (refl, refl)
    | inr on_other ↦ rw on_other (refl, refl)
  ]

  -- No step of the printer writes a direct line.
  step-direct :
      (c : Console) (p : Printer)
      → direct_of (printer_step env format_time main_thread_id p c).cout ≡ direct_of c.cout
  step-direct c waiting = take-direct c.queue
    where
      take-direct :
          (queue : List MessageInfo)
          → direct_of (take_front env format_time main_thread_id queue c).cout ≡ direct_of c.cout
      take-direct [] = refl
      take-direct (m ∷ queue) = refl
  step-direct c (printing m []) = refl
  step-direct c (printing m (shown ∷ pieces)) = write-direct m.is_error_stream
    where
      write-direct :
          (is_error : Bool)
          → direct_of
              (write_piece env format_time main_thread_id is_error shown
                (record c { printer = printing m pieces })).cout
            ≡ direct_of c.cout
      write-direct true = refl
      write-direct false =
          direct_of-append c.cout (piece shown ∷ []) ∙ append-nil (direct_of c.cout)

  reached-direct :
      {ms : List MessageInfo} {ds : List Written} {c : Console}
      → Reached ms ds c
      → direct_of c.cout ≡ ds
  unfolding process_message print_next complain
  reached-direct start = refl
  reached-direct (grumble {ds = ds} {c = c} thread_id client what r) =
      direct_of-append c.cout _
      ∙ ap₂ (λ a b. a ++ b) (reached-direct r) (console_error-pieces thread_id client what).1
  reached-direct (say seconds thread_id client m r) = reached-direct r
  reached-direct (show {c = c} r) = step-direct c c.printer ∙ reached-direct r

  reached-said :
      {ms : List MessageInfo} {ds : List Written} {c : Console} → Reached ms ds c → Complete ms c
  unfolding process_message print_next complain
  reached-said start = (refl, refl, refl)
  reached-said (grumble {c = c} thread_id client what r) =
      let (out, err, log) = reached-said r in
      let same : pieces_of
            (c.cout ++ console_error env format_time main_thread_id thread_id client what)
          ≡ pieces_of c.cout =
        pieces_of-append c.cout _
        ∙ ap (λ t. pieces_of c.cout ++ t) (console_error-pieces thread_id client what).0
        ∙ append-nil (pieces_of c.cout) in
      (ap (λ t. t ++ (in_hand false c.printer ++ on_stream false c.queue)) same ∙ out, err, log)
  reached-said (say {ms = ms} {c = c} seconds thread_id client m r) =
      say-Complete ms c (stamp env format_time main_thread_id seconds thread_id client m)
        (reached-said r)
  reached-said (show {ms = ms} {c = c} r) = step-Complete ms c c.printer (reached-said r)

  -- In whatever order threads put messages into the queue, the printer takes them out, writes their
  -- pieces and logs them, and threads without a client write their lines between: the pieces of
  -- messages on each of the two streams, and what is in the log, are what was said, in that order and
  -- each message once, but for the rest of the message in hand and the messages that still wait, which
  -- come next: followed by these it is all that was said. And the other lines on `std::cout` are
  -- exactly those of the threads without a client.
  pub reached-Complete :
      {ms : List MessageInfo} {ds : List Written} {c : Console}
      → Reached ms ds c
      → (pieces_of c.cout ++ (in_hand false c.printer ++ on_stream false c.queue)
          ≡ on_stream false ms)
        × (c.cerr ++ (in_hand true c.printer ++ on_stream true c.queue) ≡ on_stream true ms)
        × (c.log ++ (to_log c.printer ++ in_log c.queue) ≡ in_log ms)
        × (direct_of c.cout ≡ ds)
  reached-Complete r = let (out, err, log) = reached-said r in (out, err, log, reached-direct r)

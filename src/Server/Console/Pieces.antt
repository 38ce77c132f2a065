-- ===== src/Server/Console/Pieces.antt =====
-- What is on `std::cout` of the server's console: pieces of messages, and other lines.
use smc_server_client.Common.{
  Bool, true, false, List, [], ◌∷◌, ◌++◌, if◌then◌else◌, ◌≡◌, refl, sym, ap, ◌∙◌, append_assoc,
}
use smc_server_client.Server.ConsoleText.{Shown}
use smc_server_client.Server.Console.{Written, piece, direct, Printer, waiting, printing}

-- The pieces among what is on `std::cout`, and the other lines.
abbrev pub pieces_of : List Written → List Shown
pieces_of [] = []
pieces_of (piece shown ∷ ws) = shown ∷ pieces_of ws
pieces_of (direct line ∷ ws) = pieces_of ws

abbrev pub direct_of : List Written → List Written
direct_of [] = []
direct_of (piece shown ∷ ws) = direct_of ws
direct_of (direct line ∷ ws) = direct line ∷ direct_of ws

-- What is still to come on a stream from the message in hand.
abbrev pub in_hand : Bool → Printer → List Shown
in_hand is_error waiting = []
in_hand true (printing m pieces) = if m.is_error_stream then pieces else []
in_hand false (printing m pieces) = if m.is_error_stream then [] else pieces

pub pieces_of-append : (vs ws : List Written) → pieces_of (vs ++ ws) ≡ pieces_of vs ++ pieces_of ws
pieces_of-append [] ws = refl
pieces_of-append (piece shown ∷ vs) ws = ap (λ t. shown ∷ t) (pieces_of-append vs ws)
pieces_of-append (direct line ∷ vs) ws = pieces_of-append vs ws

pub direct_of-append : (vs ws : List Written) → direct_of (vs ++ ws) ≡ direct_of vs ++ direct_of ws
direct_of-append [] ws = refl
direct_of-append (piece shown ∷ vs) ws = direct_of-append vs ws
direct_of-append (direct line ∷ vs) ws = ap (λ t. direct line ∷ t) (direct_of-append vs ws)

-- Behind what was shown and what is in hand, one more is said.
pub behind :
    {A : Type 0} (shown hand waits one said : List A)
    → shown ++ (hand ++ waits) ≡ said
    → shown ++ (hand ++ (waits ++ one)) ≡ said ++ one
behind shown hand waits one said e =
    ap (λ t. shown ++ t) (sym (append_assoc hand waits one))
    ∙ sym (append_assoc shown (hand ++ waits) one)
    ∙ ap (λ t. t ++ one) e

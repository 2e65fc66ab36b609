-- ===== src/Chat/Tests.antt =====
-- The theorems on practica1 at concrete systems and lines.
use sistemas_distribuidos_y.Common.{
  ℕ, ◌+◌, ℤ, pos, List, [], ◌∷◌, ◌++◌, ◌≡◌, refl, arith, World, ok, map, slice, update,
}
use sistemas_distribuidos_y.Chat.Buffers.{Buffer, text}
use sistemas_distribuidos_y.Chat.Talk.{Talk, Call, close, join, accept, create, TalkOs}
use sistemas_distribuidos_y.Chat.Exchange.{IsLine, sent}
use sistemas_distribuidos_y.Chat.Dialogue.{lines, Carries, Connection, over, round, talk-serve}
use sistemas_distribuidos_y.Chat.SimpleClient
use sistemas_distribuidos_y.Chat.SimpleServer
use sistemas_distribuidos_y.Chat.ThreadServer.{number_of_threads, serve}
use sistemas_distribuidos_y.Chat.ThreadServer.Batches.{
  CrowdWorld, Ends, IsInTable, pushed, serve-Ends, serve-full,
}

-- A system on which "hola" and the end of the line is typed, and whose other calls return 8.
abbrev hola : List ℕ
hola = 104 ∷ 111 ∷ 108 ∷ 97 ∷ 10 ∷ []

abbrev long_line : List ℕ
long_line = hola ++ hola

before_hola : (rest : List ℕ) → IsLine rest → IsLine (hola ++ rest)
before_hola rest l =
    (ground arith, (ground arith, (ground arith, (ground arith, (ground arith, l)))))

abbrev types : List ℕ → TalkOs
types line tr c = record { ret = pos 8; msg = record { line = line; bytes = λ i. 0 } }

-- A system on which those bytes arrive.
abbrev brings : List ℕ → TalkOs
brings bytes tr c = record { ret = pos 8; msg = record { line = []; bytes = text bytes } }

abbrev fresh : World Talk Call
fresh = record {
  st = record { main_socket = pos 3; in_buffer = λ i. 7; out_buffer = λ i. 9 };
  trace = [];
}

-- A server whose table is full.
abbrev crowded : CrowdWorld
crowded = record {
  st = record { server_socket = pos 3; fds = λ i. pos (4 + i); current_thread = 100 };
  trace = [];
}

serve-Ends_example : Ends IsInTable (serve (types []) 1000 crowded)
serve-Ends_example = serve-Ends (types []) 1000 crowded (omega arith)

serve-full_example :
    serve (types []) 1 crowded
    ≡ ok tt (record {
      st = record crowded.st { fds = update crowded.st.fds 0 (pos 8); current_thread = 1 };
      trace =
          create 0
          ∷ accept (pos 3)
          ∷ pushed
              (map close (slice crowded.st.fds 0 number_of_threads))
              (pushed (map join (slice (λ k. k) 0 number_of_threads)) []);
    })
serve-full_example = serve-full (types []) (λ tr c. refl) crowded refl

-- Two systems on which "hola" is typed, with the bytes of it from the other one.
abbrev greets : TalkOs
greets tr c = record {
  ret = pos 8;
  msg = record { line = hola; bytes = text (sent hola fresh.st) };
}

hola_carried :
    (fd peer : ℤ) (b : Buffer) (tr : List Call) (s : World Talk Call)
    → Carries greets greets fd peer
        (record { st = record fresh.st { in_buffer = b }; trace = tr })
        s
        hola
hola_carried fd peer b tr s = record {
  good = before_hola [] tt;
  short = omega arith;
  typed = refl;
  read = refl;
  went = refl;
  arrived = refl;
  same = refl;
}

abbrev one_round : Connection greets greets (pos 4) fresh fresh (hola ∷ []) (hola ∷ [])
one_round =
    round (hola_carried (pos 3) (pos 4) fresh.st.in_buffer [] fresh)
      (hola_carried (pos 4) (pos 3) _ _ _) over

talk-serve_example :
    (c' : World Talk Call) × (s' : World Talk Call) × (SimpleClient.talk greets 1 fresh ≡ ok tt c')
    × (SimpleServer.serve greets 1 (pos 4) fresh ≡ ok tt s')
    × (lines c'.trace ≡ hola ∷ lines [])
    × (lines s'.trace ≡ hola ∷ lines [])
talk-serve_example = talk-serve greets greets (pos 4) one_round

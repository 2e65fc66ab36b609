-- ===== src/Chat/Dialogue.antt =====
-- The two programs of practica1/ServidorSimple in their loops, one at each end of a connection.
use sistemas_distribuidos_y.Common.{
  ℕ, ◌<◌, ℤ, pos, is_neg, eq_ℤ, false, List, [], ◌∷◌, length, ◌≡◌, refl, ap, ◌∙◌, World, ok, >>=-ok,
}
use sistemas_distribuidos_y.Chat.Buffers.{pointer_size, text}
use sistemas_distribuidos_y.Chat.Talk.{
  Talk, Call, fgets, send, recv, print, TalkOs, TalkThread, close_and_exit, send_line, receive_line,
}
use sistemas_distribuidos_y.Chat.SimpleServer
use sistemas_distribuidos_y.Chat.SimpleClient
use sistemas_distribuidos_y.Chat.Exchange.{
  IsLine, sent, printed, printed-short, told, heard, send_line_lem, receive_line_lem,
}

-- The lines that were printed, newest first.
unfoldable pub lines : List Call → List (List ℕ)
lines [] = []
lines (print line ∷ tr) = line ∷ lines tr
lines (_ ∷ tr) = lines tr

-- Lines on top of others, of which the last is the newest.
abbrev pub onto : List (List ℕ) → List (List ℕ) → List (List ℕ)
onto [] ls = ls
onto (l ∷ more) ls = onto more (l ∷ ls)

-- A line of at most seven bytes, none of them 0, that is typed at one end, and whose bytes arrive at the
-- other.
pub record Carries (os remote : TalkOs) (fd peer : ℤ) (c s : World Talk Call) (line : List ℕ)
    : Type 0 where
  pub good : IsLine line
  pub short : length line < pointer_size
  pub typed : (os c.trace fgets).msg.line ≡ line
  pub read : eq_ℤ (os c.trace fgets).ret (pos 0) ≡ false
  pub went : is_neg (os (fgets ∷ c.trace) (send fd (sent line c.st))).ret ≡ false
  pub arrived : (remote s.trace (recv peer pointer_size)).ret ≡ pos pointer_size
  pub same : (remote s.trace (recv peer pointer_size)).msg.bytes ≡ text (sent line c.st)

module _ {os remote : TalkOs} {fd peer : ℤ} {c s : World Talk Call} {line : List ℕ}
    (carries : Carries os remote fd peer c s line) where
  says : (fail : TalkThread (Unit {0})) → send_line os fail fd c ≡ ok tt (told fd c line)
  says fail =
      send_line_lem os remote fail fail fd peer c s line carries.typed carries.read carries.went
        carries.arrived carries.same

  hears :
      (fail : TalkThread (Unit {0})) → receive_line remote fail peer s ≡ ok tt (heard peer c s line)
  hears fail =
      receive_line_lem os remote fail fail fd peer c s line carries.typed carries.read carries.went
        carries.arrived carries.same

  plain : printed line c.st s.st ≡ line
  plain = printed-short line c.st s.st carries.good carries.short

module _ (client server : TalkOs) (peer : ℤ) where
  -- A connection with rounds of two lines, of which the first goes to the server and the second to the client.
  pub data Connection
      : World Talk Call → World Talk Call → List (List ℕ) → List (List ℕ) → Type 0 where
    over : {c s : World Talk Call} → Connection c s [] []
    round :
        {c s : World Talk Call} {there back : List ℕ} {questions answers : List (List ℕ)}
        → Carries client server c.st.main_socket peer c s there
        → Carries server client peer c.st.main_socket
            (heard peer c s there)
            (told c.st.main_socket c there)
            back
        → Connection
            (heard c.st.main_socket (heard peer c s there) (told c.st.main_socket c there) back)
            (told peer (heard peer c s there) back)
            questions
            answers
        → Connection c s (there ∷ questions) (back ∷ answers)

  -- As many rounds of both loops as there are lines. If each line has at most 7 bytes, none of
  -- which is 0, is read and sent without a failure, and arrives in one receive at the other end,
  -- each program prints the lines that were typed at the other end, in their order, and both loops
  -- go on.
  pub talk-serve :
      {c s : World Talk Call} {questions answers : List (List ℕ)}
      → Connection c s questions answers
      → (c' : World Talk Call) × (s' : World Talk Call) × (SimpleClient.talk client
            (length questions)
            c
          ≡ ok tt c')
        × (SimpleServer.serve server (length answers) peer s ≡ ok tt s')
        × (lines c'.trace ≡ onto answers (lines c.trace))
        × (lines s'.trace ≡ onto questions (lines s.trace))
  unfolding SimpleClient.talk SimpleServer.serve lines SimpleClient.send_message
      SimpleClient.receive_message SimpleServer.send_message SimpleServer.receive_message
  talk-serve {c = c} {s = s} over = (c, s, refl, refl, refl, refl)
  talk-serve {c = c} {s = s} (round {questions = questions} {answers = answers} to from more) =
      let (c', s', talked, served, got, asked) = talk-serve more in
      (
        c',
        s',
        >>=-ok (SimpleClient.send_message client) _ c _ tt (says to (close_and_exit client))
            ∙ >>=-ok (SimpleClient.receive_message client) _ _ _ tt
                (hears from (close_and_exit client))
            ∙ talked,
        >>=-ok (SimpleServer.receive_message server peer) _ s _ tt
              (hears to (SimpleServer.fail server peer))
            ∙ >>=-ok (SimpleServer.send_message server peer) _ _ _ tt
                (says from (SimpleServer.fail server peer))
            ∙ served,
        got ∙ ap (λ l. onto answers (l ∷ lines c.trace)) (plain from),
        asked ∙ ap (λ l. onto questions (l ∷ lines s.trace)) (plain to),
      )

-- ===== src/Chat/Exchange.antt =====
-- A line that a program of practica1 sends, as the program at the other end prints it.
use sistemas_distribuidos_y.Common.{
  ℕ, zero, suc, ◌+◌, ◌≤◌, ◌<◌, ℤ, pos, eq_ℤ, false, List, [], ◌∷◌, ◌++◌, ◌≡◌, ◌≢◌, refl, ap, ap₂,
  length, arith, World, ok, slice, update, is_neg, sym, ◌∙◌,
}
use sistemas_distribuidos_y.Chat.Buffers.{Buffer, buffer_size, pointer_size, fill, text, c_string}
use sistemas_distribuidos_y.Chat.Talk.{
  Talk, Call, fgets, send, recv, print, TalkOs, TalkThread, send_line, receive_line,
}

-- No byte of the line is 0.
abbrev pub IsLine : List ℕ → Type 0
IsLine [] = Unit {0}
IsLine (c ∷ cs) = (c ≢ 0) × IsLine cs

next :
    (i : ℕ) (b : Buffer) (c : ℕ) (cs : List ℕ)
    → ((k : ℕ) → k ≤ length (c ∷ cs) → b (i + k) ≡ text (c ∷ cs) k)
    → (k : ℕ) → k ≤ length cs
    → b (suc i + k) ≡ text cs k
next i b c cs h k p = ground (arith, h (suc k) (omega arith))

-- A line that is followed by a 0 within the bytes that are read is printed as it is.
c_string-line :
    (line : List ℕ) (n i : ℕ) (b : Buffer)
    → IsLine line
    → length line < n
    → ((k : ℕ) → k ≤ length line → b (i + k) ≡ text line k)
    → c_string n i b ≡ line
unfolding c_string
c_string-line [] zero i b l lt h = absurd (omega (arith, lt))
c_string-line (c ∷ cs) zero i b l lt h = absurd (omega (arith, lt))
c_string-line [] (suc n) i b l lt h = ground (arith, h 0 (omega arith))
c_string-line (c ∷ cs) (suc n) i b l lt h = ground (
  arith,
  h 0 (omega arith),
  l.0,
  c_string-line cs n (suc i) b l.1 (omega arith) (next i b c cs h),
)

c_string-head :
    (n i : ℕ) (b : Buffer) (c : ℕ)
    → c ≢ 0
    → b i ≡ c
    → c_string (suc n) i b ≡ c ∷ c_string n (suc i) b
unfolding c_string
c_string-head n i b c h e = ground (arith, h)

-- A line of which the first `m` bytes are there is printed so far, and what stands behind it.
c_string-cut :
    (m : ℕ) (line : List ℕ) (n i : ℕ) (b : Buffer)
    → IsLine line
    → m ≤ length line
    → ((k : ℕ) → k < m → b (i + k) ≡ text line k)
    → c_string (m + n) i b ≡ slice (text line) 0 m ++ c_string n (i + m) b
unfolding c_string
c_string-cut zero line n i b l lt h = ap₂ (λ k j. c_string k j b) (omega arith) (omega arith)
c_string-cut (suc m) [] n i b l lt h = absurd (omega (arith, lt))
c_string-cut (suc m) (c ∷ cs) n i b l lt h =
    ap (λ k. c_string k i b) longer
    ∙ c_string-head (m + n) i b c l.0 (ap b (omega arith) ∙ h 0 (omega arith))
    ∙ ap (λ r. c ∷ r)
        (c_string-cut m cs n (suc i) b l.1 (omega arith) after ∙ ap₂ ◌++◌ (sym tail) moved)
  where
    longer : suc m + n ≡ suc (m + n)
    longer = omega arith

    after : (k : ℕ) → k < m → b (suc i + k) ≡ text cs k
    after k p = ground (arith, h (suc k) (omega arith))

    moved : c_string n (suc i + m) b ≡ c_string n (i + suc m) b
    moved = ap (λ j. c_string n j b) (omega arith)

    shift : (j k : ℕ) → slice (text (c ∷ cs)) (suc j) k ≡ slice (text cs) j k
    shift j zero = refl
    shift j (suc k) = ap (λ r. text cs j ∷ r) (shift (suc j) k)

    tail : slice (text (c ∷ cs)) 1 m ≡ slice (text cs) 0 m
    tail = shift 0 m

c_string_ext :
    (n i : ℕ) (a b : Buffer) → ((k : ℕ) → i ≤ k → a k ≡ b k) → c_string n i a ≡ c_string n i b
unfolding c_string
c_string_ext zero i a b h = refl
c_string_ext (suc n) i a b h =
    ground (arith, h i (omega arith), c_string_ext n (suc i) a b (λ k p. h k (omega arith)))

text-slice : (b : Buffer) (i n k : ℕ) → k < n → text (slice b i n) k ≡ b (i + k)
text-slice b i zero k p = absurd (omega (arith, p))
text-slice b i (suc n) zero p = ap b (omega arith)
text-slice b i (suc n) (suc k) p = text-slice b (suc i) n k (omega arith) ∙ ap b (omega arith)

-- The bytes that are sent of a line.
abbrev pub sent : List ℕ → Talk → List ℕ
sent line c = slice (fill (suc (length line)) (text line) c.out_buffer) 0 pointer_size

-- What the other end prints once they are there.
abbrev pub printed : List ℕ → Talk → Talk → List ℕ
printed line c s =
    c_string buffer_size 0 (fill pointer_size (text (sent line c)) (update s.in_buffer 0 0))

pub printed-short :
    (line : List ℕ) (c s : Talk)
    → IsLine line
    → length line < pointer_size
    → printed line c s ≡ line
printed-short line c s l lt = c_string-line line buffer_size 0 _ l (omega (arith, lt)) (λ k p.
    ground (
      arith,
      text-slice (fill (suc (length line)) (text line) c.out_buffer) 0 pointer_size k (omega arith),
    ))

printed-long :
    (line : List ℕ) (c s : Talk)
    → IsLine line
    → pointer_size ≤ length line
    → printed line c s ≡ slice (text line) 0 pointer_size ++ c_string 1016 pointer_size s.in_buffer
printed-long line c s l lt =
    c_string-cut pointer_size line 1016 0 _ l lt (λ k p.
      ground
        (arith, text-slice (fill (suc (length line)) (text line) c.out_buffer) 0 pointer_size k p))
    ∙ ap (λ r. slice (text line) 0 pointer_size ++ r)
        (c_string_ext 1016 pointer_size _ _ (λ k p. ground arith))

-- A program that has sent a line, and the other one that has printed it.
abbrev pub told : ℤ → World Talk Call → List ℕ → World Talk Call
told fd c line = record {
  st = record c.st { out_buffer = fill (suc (length line)) (text line) c.st.out_buffer };
  trace = send fd (sent line c.st) ∷ fgets ∷ c.trace;
}

abbrev pub heard : ℤ → World Talk Call → World Talk Call → List ℕ → World Talk Call
heard peer c s line = record {
  st = record s.st {
    in_buffer = fill pointer_size (text (sent line c.st)) (update s.st.in_buffer 0 0);
  };
  trace = print (printed line c.st s.st) ∷ recv peer pointer_size ∷ s.trace;
}

-- One program sends a line that was typed, and the bytes that it sends arrive at the other.
module _ (os remote : TalkOs) (fail failed : TalkThread (Unit {0})) (fd peer : ℤ)
    (c s : World Talk Call) (line : List ℕ) (typed : (os c.trace fgets).msg.line ≡ line)
    (read : eq_ℤ (os c.trace fgets).ret (pos 0) ≡ false)
    (went : is_neg (os (fgets ∷ c.trace) (send fd (sent line c.st))).ret ≡ false)
    (arrived : (remote s.trace (recv peer pointer_size)).ret ≡ pos pointer_size)
    (same : (remote s.trace (recv peer pointer_size)).msg.bytes ≡ text (sent line c.st)) where
  pub send_line_lem : send_line os fail fd c ≡ ok tt (told fd c line)
  unfolding send_line
  send_line_lem = rw (read, typed, went) refl

  pub receive_line_lem : receive_line remote failed peer s ≡ ok tt (heard peer c s line)
  unfolding receive_line
  receive_line_lem = rw (arrived, same) refl

  -- A line of at most seven bytes, none of them 0, is printed at the other end as it was typed.
  pub send_line-receive_line :
      IsLine line
      → length line < pointer_size
      → (v v' : World Talk Call) × (send_line os fail fd c ≡ ok tt v)
        × (v.trace ≡ send fd (sent line c.st) ∷ fgets ∷ c.trace)
        × (receive_line remote failed peer s ≡ ok tt v')
        × (v'.trace ≡ print line ∷ recv peer pointer_size ∷ s.trace)
  send_line-receive_line l lt = (
    told fd c line,
    heard peer c s line,
    send_line_lem,
    refl,
    receive_line_lem,
    ap (λ r. print r ∷ recv peer pointer_size ∷ s.trace) (printed-short line c.st s.st l lt),
  )

  -- Of a line of eight bytes or more, none of them 0, the first eight are printed, and behind them
  -- what an earlier line left in the buffer of the program that prints.
  pub send_line-receive_line-cut :
      IsLine line
      → pointer_size ≤ length line
      → (v v' : World Talk Call) × (send_line os fail fd c ≡ ok tt v)
        × (v.trace ≡ send fd (sent line c.st) ∷ fgets ∷ c.trace)
        × (receive_line remote failed peer s ≡ ok tt v')
        × (v'.trace
            ≡ print (slice (text line) 0 pointer_size ++ c_string 1016 pointer_size s.st.in_buffer)
              ∷ recv peer pointer_size
              ∷ s.trace)
  send_line-receive_line-cut l le = (
    told fd c line,
    heard peer c s line,
    send_line_lem,
    refl,
    receive_line_lem,
    ap (λ r. print r ∷ recv peer pointer_size ∷ s.trace) (printed-long line c.st s.st l le),
  )

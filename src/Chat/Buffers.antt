-- ===== src/Chat/Buffers.antt =====
-- The buffers of the programs of practica1, byte by byte.
use sistemas_distribuidos_y.Common.{ℕ, zero, suc, List, [], ◌∷◌, ltb, ◌==◌, if◌then◌else◌}

-- BUFFER_SIZE.
abbrev pub buffer_size : ℕ
buffer_size = 1024

-- `sizeof(out_buffer)` where `out_buffer` is a parameter: a pointer, of 8 bytes on a 64-bit machine.
abbrev pub pointer_size : ℕ
pointer_size = 8

abbrev pub Buffer : Type 0
Buffer = ℕ → ℕ

-- The first `k` bytes are written.
abbrev pub fill : ℕ → Buffer → Buffer → Buffer
fill k new old i = if ltb i k then new i else old i

-- A line with a 0 behind it.
abbrev pub text : List ℕ → Buffer
text [] i = 0
text (c ∷ cs) zero = c
text (c ∷ cs) (suc i) = text cs i

-- What `%s` prints from position `i` on, of the next `n` bytes: those up to a 0.
unfoldable pub c_string : ℕ → ℕ → Buffer → List ℕ
c_string zero i b = []
c_string (suc n) i b = let rest = c_string n (suc i) b in if b i == 0 then [] else b i ∷ rest

-- ===== src/Report/Text.antt =====
-- The lines that the server prints, as the format strings of `snprintf` ask for.
use upcalls.Prelude.{
  ℕ, zero, suc, ◌+◌, ◌/◌, ◌%◌, List, [], ◌∷◌, ◌++◌, ltb, map, if◌then◌else◌, take,
}

abbrev pub Line : Type 0
Line = List ℕ

-- The decimal digits of a number of at most `fuel` digits.
abbrev pub digits : (fuel : ℕ) → ℕ → List ℕ
digits zero n = []
digits (suc f) n =
    let rest = digits f (n / 10) in if ltb n 10 then (48 + n) ∷ [] else rest ++ ((48 + n % 10) ∷ [])

-- `%lu`: a 64-bit number has at most 20 digits.
abbrev pub decimal : ℕ → List ℕ
decimal n = digits 20 n

-- Fields with a tab between two, and the end of the line.
abbrev pub join : List (List ℕ) → List ℕ
join [] = 10 ∷ []
join (f ∷ []) = f ++ (10 ∷ [])
join (f ∷ g ∷ fs) = f ++ (9 ∷ join (g ∷ fs))

-- `snprintf` into `perf_line`, of 23 + 21 * 7 bytes with the one for the end.
abbrev pub print_row : List ℕ → Line
print_row fields = take 169 (join (map decimal fields))

-- The header of the statistics, up to CONNECTION_COUNT.
abbrev pub stats_header : Line
stats_header =
    67 ∷ 80 ∷ 85 ∷ 9 ∷ 67 ∷ 89 ∷ 67 ∷ 76 ∷ 69 ∷ 83 ∷ 9 ∷ 73 ∷ 78 ∷ 83 ∷ 84 ∷ 82 ∷ 85 ∷ 67 ∷ 84 ∷ 73
    ∷ 79 ∷ 78 ∷ 83 ∷ 9 ∷ 67 ∷ 65 ∷ 67 ∷ 72 ∷ 69 ∷ 95 ∷ 82 ∷ 69 ∷ 65 ∷ 68 ∷ 83 ∷ 9 ∷ 67 ∷ 65 ∷ 67
    ∷ 72 ∷ 69 ∷ 95 ∷ 77 ∷ 73 ∷ 83 ∷ 83 ∷ 69 ∷ 83 ∷ 9 ∷ 73 ∷ 67 ∷ 65 ∷ 67 ∷ 72 ∷ 69 ∷ 95 ∷ 77 ∷ 73
    ∷ 83 ∷ 83 ∷ 69 ∷ 83 ∷ 9 ∷ 65 ∷ 67 ∷ 67 ∷ 69 ∷ 80 ∷ 84 ∷ 95 ∷ 67 ∷ 79 ∷ 85 ∷ 78 ∷ 84 ∷ 9 ∷ 67
    ∷ 79 ∷ 78 ∷ 78 ∷ 69 ∷ 67 ∷ 84 ∷ 73 ∷ 79 ∷ 78 ∷ 95 ∷ 67 ∷ 79 ∷ 85 ∷ 78 ∷ 84 ∷ 10 ∷ []

-- FD, PORT, STATE, CURSOR, EVENT_COUNT.
abbrev pub error_header : Line
error_header =
    70 ∷ 68 ∷ 9 ∷ 80 ∷ 79 ∷ 82 ∷ 84 ∷ 9 ∷ 83 ∷ 84 ∷ 65 ∷ 84 ∷ 69 ∷ 9 ∷ 67 ∷ 85 ∷ 82 ∷ 83 ∷ 79 ∷ 82
    ∷ 9 ∷ 69 ∷ 86 ∷ 69 ∷ 78 ∷ 84 ∷ 95 ∷ 67 ∷ 79 ∷ 85 ∷ 78 ∷ 84 ∷ 10 ∷ []

-- `state` of a connection: CONNECT to CLOSING.
pub data State : Type 0 where
  connect : State
  waiting : State
  reading : State
  writing : State
  closing : State

-- `err_str`: CONNECTING, WAITING, READING, WRITING, CLOSING.
abbrev pub state_name : State → List ℕ
state_name connect = 67 ∷ 79 ∷ 78 ∷ 78 ∷ 69 ∷ 67 ∷ 84 ∷ 73 ∷ 78 ∷ 71 ∷ []
state_name waiting = 87 ∷ 65 ∷ 73 ∷ 84 ∷ 73 ∷ 78 ∷ 71 ∷ []
state_name reading = 82 ∷ 69 ∷ 65 ∷ 68 ∷ 73 ∷ 78 ∷ 71 ∷ []
state_name writing = 87 ∷ 82 ∷ 73 ∷ 84 ∷ 73 ∷ 78 ∷ 71 ∷ []
state_name closing = 67 ∷ 76 ∷ 79 ∷ 83 ∷ 73 ∷ 78 ∷ 71 ∷ []

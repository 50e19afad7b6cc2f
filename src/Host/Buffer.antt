-- ===== src/Host/Buffer.antt =====
-- Char arrays of a fixed size, with C strings in them: what tuya_daemon/connection.c does with
-- `buf[200]`.
pub mod Texts
use tuya_daemon.Base.{ℕ, zero, suc, ◌+◌, [], ◌∷◌, ltb, leb, ◌==◌, if◌then◌else◌, length}
use tuya_daemon.World.{Bytes, out_of_bounds, done, fault, Cmd}

-- `char buf[n] = text`: the rest is filled with zeros.
abbrev pub zeros : ℕ → Bytes
zeros zero = []
zeros (suc n) = 0 ∷ zeros n

abbrev pub char_array : ℕ → Bytes → Bytes
char_array zero text = []
char_array (suc n) [] = zeros (suc n)
char_array (suc n) (c ∷ text) = c ∷ char_array n text

-- The string that starts at the first byte: what stands before the NUL.
unfoldable pub c_string : Bytes → Bytes
c_string [] = []
c_string (c ∷ buf) = if c == 0 then [] else c ∷ c_string buf

unfoldable pub strlen : Bytes → ℕ
unfolding c_string
strlen buf = length (c_string buf)

abbrev pub set : Bytes → ℕ → ℕ → Bytes
set [] i v = []
set (x ∷ xs) zero v = v ∷ xs
set (x ∷ xs) (suc i) v = x ∷ set xs i v

-- `buf[i] = v`, undefined behind the end.
unfoldable pub store : Bytes → ℕ → ℕ → Cmd Bytes
store buf i v s = if ltb i (length buf) then done (set buf i v) s else fault out_of_bounds s

-- The bytes that a library stores from index `i` on.
abbrev pub set_all : Bytes → ℕ → Bytes → Bytes
set_all buf i [] = buf
set_all buf i (v ∷ vs) = set_all (set buf i v) (suc i) vs

unfoldable pub store_all : Bytes → ℕ → Bytes → Cmd Bytes
store_all buf i vs s =
    if leb (i + length vs) (length buf) then done (set_all buf i vs) s else fault out_of_bounds s

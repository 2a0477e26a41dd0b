-- ===== src/SSocket/Address.antt =====
-- DriverCore/SSocket.c, _inet_pton and _inet_str2n: an IPv4 address is read from a string. A string is
-- the list of its characters before the NUL.
pub mod Read
use dms_blkdev.Base.{
  ℕ, zero, suc, ◌+◌, ◌-◌, ◌*◌, ◌^◌, Bool, true, false, not, ◌||◌, ◌&&◌, Option, none, some, List,
  [], ◌∷◌, ◌++◌, ltb, leb, ◌==◌, if◌then◌else◌, length, get_elem?,
}

abbrev pub is_digit : ℕ → Bool
is_digit c = leb 48 c && leb c 57

abbrev pub is_space : ℕ → Bool
is_space c = (leb 9 c && leb c 13) || (c == 32)

-- The character at the cursor, NUL at the end.
abbrev pub at_cursor : List ℕ → ℕ
at_cursor [] = 0
at_cursor (c ∷ cs) = c

-- The loop over the digits. `none`: the int overflows, which is undefined.
unfoldable pub read_digits : ℕ → List ℕ → Option (ℕ × List ℕ)
read_digits value [] = some (value, [])
read_digits value (c ∷ cs) =
    let value' = value * 10 + (c - 48) in
    let rest = read_digits value' cs in
    if is_digit c
    then (if ltb (value * 10 + c) (2 ^ 31) then rest else none)
    else some (value, c ∷ cs)

-- The answers 0 and -1, and an address in host order.
pub data Inet : Type 0 where
  refused : Inet
  ipv6 : Inet
  address : ℕ → Inet

-- `value > addr_class_max[i]` for a value that is not negative. The first maximum, 0xffffffff, is the
-- int -1.
unfoldable pub above_class_max : ℕ → ℕ → Bool
above_class_max i value =
    if i == 0
    then true
    else if i == 1
    then ltb 0xffffff value
    else if i == 2
    then ltb 0xffff value
    else ltb 0xff value

-- A character that may stand behind the address: NUL, a space, a backslash or a slash.
abbrev pub is_last : ℕ → Bool
is_last c = (c == 0) || (ltb c 128 && is_space c) || (c == 92) || (c == 47)

-- The four bytes, of which some are set, as a word in network order read on the host.
abbrev pub bytes_word : List ℕ → ℕ
bytes_word [] = 0
bytes_word (a ∷ []) = a * 2 ^ 24
bytes_word (a ∷ b ∷ []) = a * 2 ^ 24 + b * 2 ^ 16
bytes_word (a ∷ b ∷ c ∷ rest) = a * 2 ^ 24 + b * 2 ^ 16 + c * 2 ^ 8

-- Behind the last number. The value lies in the bytes that are not set, so that `|` is a sum.
unfoldable pub last_number : List ℕ → ℕ → ℕ → Inet
unfolding above_class_max
last_number bytes value c =
    if not (is_last c)
    then refused
    else if above_class_max (length bytes) value
    then refused
    else address (bytes_word bytes + value)

-- Behind a number. `dots` is how many more the array `bytes` has room for, `rest` the next round.
unfoldable pub behind_number :
    ℕ → List ℕ → (List ℕ → List ℕ → Option Inet) → Option (ℕ × List ℕ) → Option Inet
unfolding last_number
behind_number dots bytes rest none = none
behind_number dots bytes rest (some (value, [])) = some (last_number bytes value 0)
behind_number dots bytes rest (some (value, c ∷ cs)) =
    if c == 46
    then (if (dots == 0) || ltb 255 value then some refused else rest (bytes ++ (value ∷ [])) cs)
    else if c == 58
    then some ipv6
    else some (last_number bytes value c)

-- The outer loop, a round for each number: the fourth dot is refused.
unfoldable pub read_numbers : ℕ → List ℕ → List ℕ → Option Inet
unfolding behind_number
read_numbers zero bytes s =
    if is_digit (at_cursor s)
    then behind_number 0 bytes (λ _. λ _. some refused) (read_digits 0 s)
    else some refused
read_numbers (suc dots) bytes s =
    if is_digit (at_cursor s)
    then behind_number (suc dots) bytes (read_numbers dots) (read_digits 0 s)
    else some refused

-- `_inet_str2n`: 0 and -1 are words like an address. The backslash that the source stores in place of
-- a slash behind the address is left out: the answer does not depend on it.
abbrev pub inet_word : Option Inet → Option ℕ
inet_word none = none
inet_word (some refused) = some 0
inet_word (some ipv6) = some (2 ^ 32 - 1)
inet_word (some (address w)) = some w

unfoldable pub inet_str2n : List ℕ → Option ℕ
unfolding read_numbers
inet_str2n s = inet_word (read_numbers 3 [] s)

-- `_inet_pton`: the answer, and what it stores in network order, here read on the host.
abbrev pub pton_answer : Option Inet → Option (ℕ × Option ℕ)
pton_answer none = none
pton_answer (some refused) = some (0, none)
pton_answer (some ipv6) = some (2 ^ 32 - 1, none)
pton_answer (some (address w)) = some (1, some w)

unfoldable pub inet_pton : List ℕ → Option (ℕ × Option ℕ)
unfolding read_numbers
inet_pton s = pton_answer (read_numbers 3 [] s)

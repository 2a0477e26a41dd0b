-- ===== src/Protocol/Bytes.antt =====
-- DriverCore/include/DMS_Protocol_Header.h: numbers in network byte order.
use dms_blkdev.Base.{ℕ, ◌/◌, ◌%◌, ◌^◌, ◌<◌, ◌≡◌, ap, some, List, [], ◌∷◌, ◌++◌, arith}
use dms_blkdev.Protocol.{read_net}

abbrev byte : ℕ → ℕ → ℕ
byte v p = v / p % 256

-- The bytes of a short, the most significant first.
abbrev pub bytes_of_short : ℕ → List ℕ
bytes_of_short v = byte v (2 ^ 8) ∷ byte v (2 ^ 0) ∷ []

pub read-bytes_of_short :
    (v : ℕ) (bs : List ℕ) → v < 2 ^ 16 → read_net 2 0 (bytes_of_short v ++ bs) ≡ some (v, bs)
unfolding read_net
read-bytes_of_short v bs h = ap (λ w. some (w, bs)) (omega (arith, h))

-- The bytes of an int, the most significant first.
abbrev pub bytes_of_int : ℕ → List ℕ
bytes_of_int v = byte v (2 ^ 24) ∷ byte v (2 ^ 16) ∷ byte v (2 ^ 8) ∷ byte v (2 ^ 0) ∷ []

pub read-bytes_of_int :
    (v : ℕ) (bs : List ℕ) → v < 2 ^ 32 → read_net 4 0 (bytes_of_int v ++ bs) ≡ some (v, bs)
unfolding read_net
read-bytes_of_int v bs h = ap (λ w. some (w, bs)) (omega (arith, h))

-- The bytes of a long, the most significant first.
abbrev pub bytes_of_long : ℕ → List ℕ
bytes_of_long v =
    byte v (2 ^ 56)
    ∷ byte v (2 ^ 48)
    ∷ byte v (2 ^ 40)
    ∷ byte v (2 ^ 32)
    ∷ byte v (2 ^ 24)
    ∷ byte v (2 ^ 16)
    ∷ byte v (2 ^ 8)
    ∷ byte v (2 ^ 0)
    ∷ []

pub read-bytes_of_long :
    (v : ℕ) (bs : List ℕ) → v < 2 ^ 64 → read_net 8 0 (bytes_of_long v ++ bs) ≡ some (v, bs)
unfolding read_net
read-bytes_of_long v bs h = ap (λ w. some (w, bs)) (omega (arith, h))

-- ===== src/SSocket/Transfer.antt =====
-- DriverCore/SSocket.c, sock_xmit and DMS_Sock_ErrorHandling: a buffer is sent to or received from a
-- stream socket. The kernel's side is a list of turns, the answers of its calls in order; an int is its
-- 32-bit word.
pub mod Receive
use dms_blkdev.Base.{
  ℕ, zero, suc, ◌+◌, ◌-◌, ◌*◌, ◌^◌, Bool, true, false, ◌||◌, ◌&&◌, not, Option, none, some, List,
  [], ◌∷◌, ◌++◌, ltb, leb, ◌==◌, if◌then◌else◌, length,
}

-- The word of a negative error code.
abbrev pub minus : ℕ → ℕ
minus e = 2 ^ 32 - e

abbrev pub eagain : ℕ
eagain = 11

abbrev pub epipe : ℕ
epipe = 32

abbrev pub etimedout : ℕ
etimedout = 110

abbrev pub edms_base : ℕ
edms_base = 1000

abbrev pub edms_range : ℕ
edms_range = 100

-- EDNC_BASE.
abbrev pub ednc_base : ℕ
ednc_base = edms_base + 6 * edms_range

abbrev pub ednc_connect : ℕ
ednc_connect = ednc_base + 1

abbrev pub ednc_rc_ovtime : ℕ
ednc_rc_ovtime = ednc_base + 3

abbrev pub ednc_sndtimeo : ℕ
ednc_sndtimeo = ednc_base + 4

-- The codes that the first cases of the switch name.
abbrev pub is_timeout : ℕ → Bool
is_timeout r = (r == 0) || (r == minus eagain) || (r == minus etimedout)

-- `established` is the state of the socket. The other cases of the switch change nothing.
unfoldable pub dms_sock_error_handling : Bool → Bool → ℕ → ℕ
dms_sock_error_handling established send errno =
    if is_timeout errno
    then (if established
        then (if send then errno else 0)
        else (if send then minus ednc_sndtimeo else minus ednc_connect))
    else errno

-- `result < 0` of an int.
abbrev pub is_negative : ℕ → Bool
is_negative r = leb (2 ^ 31) r

-- What a receiving thread meets: a request to stop, data, or an error of kernel_recvmsg.
pub data Turn : Type 0 where
  stop : Turn
  msg : List ℕ → Turn
  fails : ℕ → Turn

-- What the caller gets: the bytes in the buffer, the answer, and the turns that are left.
pub record Received : Type 0 where
  pub bytes : List ℕ
  pub answer : ℕ
  pub turns : List Turn

abbrev pub more : List ℕ → Option Received → Option Received
more bs none = none
more bs (some r) = some (record r { bytes = bs ++ r.bytes })

abbrev pub gives : ℕ → List Turn → Option Received
gives answer ts = some (record { bytes = []; answer = answer; turns = ts })

-- Behind an error, which is not one of those that the inner loop repeats: the outer loop ends.
abbrev pub failed_turn : ℕ → List Turn → Option Received
failed_turn e ts = gives (dms_sock_error_handling true false e) ts

-- `sock_xmit` with `send` false, both loops: the inner one waits for data and the outer one goes on
-- while bytes of `len` are missing. `none`: the thread waits for ever.
unfoldable pub receive : List Turn → ℕ → Option Received
unfolding dms_sock_error_handling
receive [] len = none
receive (stop ∷ ts) len = failed_turn (minus epipe) ts
receive (msg bs ∷ ts) len =
    let rest = receive ts (len - length bs) in
    if length bs == 0
    then rest
    else if ltb (length bs) len
    then more bs rest
    else more bs (gives (length bs) ts)
receive (fails e ∷ ts) len =
    let rest = receive ts len in if is_timeout e then rest else failed_turn e ts

-- What a sender meets: the answer of kernel_sendmsg, and whether the connection is established then.
pub record SendTurn : Type 0 where
  pub result : ℕ
  pub established : Bool

abbrev pub sent_result : ℕ → ℕ → ℕ
sent_result len r =
    if not (r == len) && ltb 0 r && not (is_negative r) then minus ednc_sndtimeo else r

-- `sock_xmit` with `send` true.
unfoldable pub send : List SendTurn → ℕ → Option (ℕ × List SendTurn)
unfolding dms_sock_error_handling
send [] len = none
send (t ∷ ts) len =
    let rest = send ts len in
    let r = sent_result len t.result in
    if (r == 0) || is_negative r
    then (let r' = dms_sock_error_handling t.established true r in
        if is_negative r' || (len == 0) then some (r', ts) else rest)
    else some (r, ts)

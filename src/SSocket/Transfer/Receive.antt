-- ===== src/SSocket/Transfer/Receive.antt =====
-- DriverCore/SSocket.c, sock_xmit: a receiver gets exactly the bytes that it asks for, or an error.
use dms_blkdev.Base.{
  ℕ, suc, ◌-◌, ◌≤◌, ◌<◌, ◌≡◌, refl, sym, ◌∙◌, ap, ◌⊎◌, inl, inr, Bool, true, false, Option, none,
  some, List, [], ◌∷◌, ◌++◌, arith, ltb, ◌==◌, length, All, length-append, Bool-cases, ltb→lt,
  ne→==,
}
use dms_blkdev.SSocket.Transfer.{
  is_timeout, minus, epipe, is_negative, dms_sock_error_handling, Turn, stop, msg, fails, Received,
  more, gives, failed_turn, receive,
}

-- The turn brings data or makes the receiver try again.
abbrev pub is_quiet : Turn → Bool
is_quiet stop = false
is_quiet (msg bs) = true
is_quiet (fails e) = is_timeout e

abbrev pub data_of : Turn → List ℕ
data_of stop = []
data_of (msg bs) = bs
data_of (fails e) = []

-- The data of the turns, in order.
abbrev pub payload : List Turn → List ℕ
payload [] = []
payload (t ∷ ts) = data_of t ++ payload ts

-- kernel_recvmsg gives no more than it is asked for, and its errors are negative.
abbrev pub Fits : ℕ → List Turn → Type 0
Fits len [] = Unit
Fits len (stop ∷ ts) = Unit
Fits len (msg bs ∷ ts) = (length bs ≤ len) × ((length bs < len) → Fits (len - length bs) ts)
Fits len (fails e ∷ ts) = (is_negative e ≡ true) × Fits len ts

abbrev pub Quiet : List Turn → Type 0
Quiet = All (λ t. is_quiet t ≡ true)

-- What a receiver that returns has got, of the turns up to `last`.
pub record Transferred (len : ℕ) (ts : List Turn) (r : Received) : Type 0 where
  pub before : List Turn
  pub last : Turn
  pub split : ts ≡ before ++ (last ∷ r.turns)
  pub quiet : Quiet before
  pub bytes : r.bytes ≡ payload before ++ data_of last
  pub outcome :
      ((is_quiet last ≡ true) × (length r.bytes ≡ len) × (1 ≤ r.answer) × (r.answer ≤ len))
      ⊎ ((is_quiet last ≡ false) × (length r.bytes < len) × (is_negative r.answer ≡ true))

-- The receiver waits for ever: data is missing and nothing else comes.
abbrev pub Waits : ℕ → List Turn → Type 0
Waits len ts = (receive ts len ≡ none) × Quiet ts × (length (payload ts) < len)

abbrev pub Returns : ℕ → List Turn → Type 0
Returns len ts = (r : Received) × (receive ts len ≡ some r) × Transferred len ts r

append_assoc : (xs ys zs : List ℕ) → (xs ++ ys) ++ zs ≡ xs ++ (ys ++ zs)
append_assoc [] ys zs = refl
append_assoc (x ∷ xs) ys zs = ap (λ t. x ∷ t) (append_assoc xs ys zs)

Transferred-again :
    (len : ℕ) (t : Turn) (ts : List Turn) (r : Received)
    → is_quiet t ≡ true
    → length (data_of t) < len
    → Transferred (len - length (data_of t)) ts r
    → Transferred len (t ∷ ts) (record r { bytes = data_of t ++ r.bytes })
Transferred-again len t ts r q lt d = record {
  before = t ∷ d.before;
  last = d.last;
  split = ap (λ us. t ∷ us) d.split;
  quiet = (q, d.quiet);
  bytes = ap (λ bs. data_of t ++ bs) d.bytes ∙ sym (append_assoc (data_of t) _ _);
  outcome = elim d.outcome [
    | inl (a, b, c, e) ↦
        inl (a, omega (arith, b, length-append (data_of t) r.bytes), c, omega arith)
    | inr (a, b, c) ↦ inr (a, omega (arith, b, length-append (data_of t) r.bytes), c)
  ];
}

again :
    (len : ℕ) (t : Turn) (ts : List Turn)
    → is_quiet t ≡ true
    → length (data_of t) < len
    → receive (t ∷ ts) len ≡ more (data_of t) (receive ts (len - length (data_of t)))
    → (Waits (len - length (data_of t)) ts ⊎ Returns (len - length (data_of t)) ts)
    → (Waits len (t ∷ ts) ⊎ Returns len (t ∷ ts))
again len t ts q lt e (inl (w, qs, few)) =
    inl (e ∙ rw w refl, (q, qs), omega (arith, few, length-append (data_of t) (payload ts)))
again len t ts q lt e (inr (r, g, d)) =
    inr (
      record r { bytes = data_of t ++ r.bytes },
      e ∙ rw g refl,
      Transferred-again len t ts r q lt d,
    )

failed-Returns :
    (len e : ℕ) (t : Turn) (ts : List Turn)
    → 1 ≤ len
    → is_timeout e ≡ false
    → is_negative e ≡ true
    → is_quiet t ≡ false
    → data_of t ≡ []
    → receive (t ∷ ts) len ≡ failed_turn e ts
    → Returns len (t ∷ ts)
unfolding dms_sock_error_handling
failed-Returns len e t ts pos nt neg nq nd h = (
  record { bytes = []; answer = e; turns = ts },
  h ∙ rw nt refl,
  record {
    before = [];
    last = t;
    split = refl;
    quiet = tt;
    bytes = sym nd;
    outcome = inr (nq, omega (arith, pos), neg);
  },
)

append_nil : (xs : List ℕ) → xs ++ [] ≡ xs
append_nil [] = refl
append_nil (x ∷ xs) = ap (λ t. x ∷ t) (append_nil xs)

more-nil : (o : Option Received) → o ≡ more [] o
more-nil none = refl
more-nil (some r) = refl

sub_zero : (n : ℕ) → n - 0 ≡ n
sub_zero n = omega arith

whole-Returns :
    (len : ℕ) (bs : List ℕ) (ts : List Turn)
    → 1 ≤ len
    → length bs ≡ len
    → receive (msg bs ∷ ts) len ≡ more bs (gives (length bs) ts)
    → Returns len (msg bs ∷ ts)
whole-Returns len bs ts pos e h = (
  record { bytes = bs ++ []; answer = length bs; turns = ts },
  h,
  record {
    before = [];
    last = msg bs;
    split = refl;
    quiet = tt;
    bytes = append_nil bs;
    outcome = inl (refl, ap length (append_nil bs) ∙ e, omega (arith, pos, e), omega (arith, e));
  },
)

some_data : (bs : List ℕ) → (suc (length bs) == 0) ≡ false
some_data bs = ne→== _ _ (λ e. omega (arith, e))

whole_length : (n len : ℕ) → n ≤ len → ltb n len ≡ false → n ≡ len
whole_length n len h l = ground arith

-- A receiver that asks for at least one byte, the kernel giving no more than it is asked for: it
-- gets exactly the bytes it asks for, in the order of their arrival, over as many turns as it
-- takes; or an error ends it, and fewer bytes have come; or it waits for ever, since there are too
-- few bytes and no error. The answer is positive exactly in the first case, and then it is at most
-- the length.
pub receive-Transferred :
    (ts : List Turn) (len : ℕ) → 1 ≤ len → Fits len ts → Waits len ts ⊎ Returns len ts
unfolding receive
receive-Transferred [] len pos f = inl (refl, tt, omega arith)
receive-Transferred (stop ∷ ts) len pos f =
    inr (failed-Returns len (minus epipe) stop ts pos refl refl refl refl refl)
receive-Transferred (msg [] ∷ ts) len pos f =
    again len (msg []) ts refl pos (more-nil (receive ts (len - 0)))
      (receive-Transferred ts (len - 0) (omega arith) (f.1 pos))
receive-Transferred (msg (b ∷ bs) ∷ ts) len pos f = elim (Bool-cases (ltb (length (b ∷ bs)) len)) [
  | inl l ↦
      let lt : length (b ∷ bs) < len = ltb→lt _ _ l in
      again len (msg (b ∷ bs)) ts refl lt (rw (some_data bs, l) refl)
        (receive-Transferred ts (len - length (b ∷ bs)) (omega arith) (f.1 lt))
  | inr l ↦
      inr (whole-Returns len (b ∷ bs) ts pos (whole_length _ len f.0 l) (rw (some_data bs, l) refl))
]
receive-Transferred (fails e ∷ ts) len pos f = elim (Bool-cases (is_timeout e)) [
  | inl t ↦
      again len (fails e) ts t pos (rw (t, sub_zero len) (more-nil (receive ts len)))
        (rw (sub_zero len) (receive-Transferred ts len pos f.1))
  | inr t ↦ inr (failed-Returns len e (fails e) ts pos t f.0 t refl (rw t refl))
]

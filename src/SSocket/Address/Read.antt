-- ===== src/SSocket/Address/Read.antt =====
-- DriverCore/SSocket.c, _inet_str2n: which addresses are read back.
use dms_blkdev.Base.{
  ℕ, suc, ◌+◌, ◌-◌, ◌*◌, ◌/◌, ◌%◌, ◌^◌, ◌<◌, ◌≡◌, ◌≢◌, refl, ◌∙◌, ap, true, false, ◌⊎◌, inl, inr,
  Option, none, some, List, [], ◌∷◌, ◌++◌, arith, ltb, ◌==◌, if◌then◌else◌, All, Bool-cases, lt→ltb,
  ne→==,
}
use dms_blkdev.SSocket.Address.{
  is_digit, is_last, at_cursor, read_digits, Inet, refused, address, above_class_max, last_number,
  behind_number, read_numbers, inet_word, inet_str2n,
}

-- The decimal digits of a byte.
abbrev pub decimal : ℕ → List ℕ
decimal n =
    if ltb n 10
    then (n + 48) ∷ []
    else if ltb n 100
    then (n / 10 + 48) ∷ (n % 10 + 48) ∷ []
    else (n / 100 + 48) ∷ (n / 10 % 10 + 48) ∷ (n % 10 + 48) ∷ []

-- The dotted form.
abbrev pub dotted : ℕ → ℕ → ℕ → ℕ → List ℕ → List ℕ
dotted a b c d rest =
    decimal a ++ (46 ∷ (decimal b ++ (46 ∷ (decimal c ++ (46 ∷ (decimal d ++ rest))))))

is_digit-add : (k : ℕ) → k < 10 → is_digit (k + 48) ≡ true
is_digit-add k h = ground arith

add_sub : (k : ℕ) → k + 48 - 48 ≡ k
add_sub k = omega arith

read_digit :
    (value k : ℕ) (s : List ℕ)
    → k < 10
    → value * 10 + (k + 48) < 2 ^ 31
    → read_digits value ((k + 48) ∷ s) ≡ read_digits (value * 10 + k) s
unfolding read_digits
read_digit value k s h f =
    rw (is_digit-add k h, lt→ltb (value * 10 + (k + 48)) (2 ^ 31) f, add_sub k) refl

read_end :
    (value : ℕ) (s : List ℕ)
    → is_digit (at_cursor s) ≡ false
    → read_digits value s ≡ some (value, s)
unfolding read_digits
read_end value [] h = refl
read_end value (c ∷ s) h = rw h refl

starts_with_digit : (n : ℕ) (s : List ℕ) → n < 256 → is_digit (at_cursor (decimal n ++ s)) ≡ true
starts_with_digit n s h = elim (Bool-cases (ltb n 10)) [
  | inl e ↦ rw e (is_digit-add n (ground arith))
  | inr e ↦ elim (Bool-cases (ltb n 100)) [
    | inl e' ↦ rw (e, e') (is_digit-add (n / 10) (ground arith))
    | inr e' ↦ rw (e, e') (is_digit-add (n / 100) (ground arith))
  ]
]

digits_end :
    (value n : ℕ) (s : List ℕ)
    → value ≡ n
    → is_digit (at_cursor s) ≡ false
    → read_digits value s ≡ some (n, s)
digits_end value n s e d = rw e (read_end n s d)

read_decimal :
    (n : ℕ) (s : List ℕ)
    → n < 256
    → is_digit (at_cursor s) ≡ false
    → read_digits 0 (decimal n ++ s) ≡ some (n, s)
read_decimal n s h d = elim (Bool-cases (ltb n 10)) [
  | inl e ↦
      rw e (
        read_digit 0 n s (ground arith) (omega arith) ∙ digits_end (0 * 10 + n) n s (omega arith) d)
  | inr e ↦ elim (Bool-cases (ltb n 100)) [
    | inl e' ↦
        rw (e, e')
          (read_digit 0 (n / 10) ((n % 10 + 48) ∷ s) (ground arith) (omega arith)
            ∙ read_digit (0 * 10 + n / 10) (n % 10) s (omega arith) (omega arith)
            ∙ digits_end ((0 * 10 + n / 10) * 10 + n % 10) n s (omega arith) d)
    | inr e' ↦
        rw (e, e')
          (read_digit 0 (n / 100) ((n / 10 % 10 + 48) ∷ (n % 10 + 48) ∷ s) (omega arith)
              (omega arith)
            ∙ read_digit (0 * 10 + n / 100) (n / 10 % 10) ((n % 10 + 48) ∷ s) (omega arith)
                (omega arith)
            ∙ read_digit ((0 * 10 + n / 100) * 10 + n / 10 % 10) (n % 10) s (omega arith)
                (omega arith)
            ∙ digits_end (((0 * 10 + n / 100) * 10 + n / 10 % 10) * 10 + n % 10) n s (omega arith)
                d)
  ]
]

last_not_digit : (c : ℕ) → is_last c ≡ true → is_digit c ≡ false
last_not_digit c h = ground arith

last_not_dot : (c : ℕ) → is_last c ≡ true → (c == 46) ≡ false
last_not_dot c h = ground arith

last_not_colon : (c : ℕ) → is_last c ≡ true → (c == 58) ≡ false
last_not_colon c h = ground arith

not_above : (n : ℕ) → n < 256 → ltb 255 n ≡ false
not_above n h = ground arith

read_numbers-dot :
    (dots a : ℕ) (bytes s : List ℕ)
    → a < 256
    → read_numbers (suc dots) bytes (decimal a ++ 46 ∷ s) ≡ read_numbers dots (bytes ++ (a ∷ [])) s
unfolding read_numbers behind_number
read_numbers-dot dots a bytes s h =
    rw
      (
        starts_with_digit a (46 ∷ s) h,
        read_decimal a (46 ∷ s) h refl,
        ne→== (suc dots) 0 (λ e. omega (arith, e)),
        not_above a h,
      )
      refl

last_number-address :
    (a b c d x : ℕ)
    → d < 256
    → is_last x ≡ true
    → last_number (a ∷ b ∷ c ∷ []) d x ≡ address (a * 2 ^ 24 + b * 2 ^ 16 + c * 2 ^ 8 + d)
unfolding last_number above_class_max
last_number-address a b c d x h l = rw (l, not_above d h) refl

behind-last :
    (a b c d : ℕ) (s : List ℕ) (rest : List ℕ → List ℕ → Option Inet)
    → d < 256
    → is_last (at_cursor s) ≡ true
    → behind_number 0 (a ∷ b ∷ c ∷ []) rest (some (d, s))
      ≡ some (address (a * 2 ^ 24 + b * 2 ^ 16 + c * 2 ^ 8 + d))
unfolding behind_number
behind-last a b c d [] rest h l = ap some (last_number-address a b c d 0 h l)
behind-last a b c d (x ∷ s) rest h l =
    rw (last_not_dot x l, last_not_colon x l) (ap some (last_number-address a b c d x h l))

read_numbers-last :
    (a b c d : ℕ) (s : List ℕ)
    → d < 256
    → is_last (at_cursor s) ≡ true
    → read_numbers 0 (a ∷ b ∷ c ∷ []) (decimal d ++ s)
      ≡ some (address (a * 2 ^ 24 + b * 2 ^ 16 + c * 2 ^ 8 + d))
unfolding read_numbers
read_numbers-last a b c d s h l =
    rw (starts_with_digit d s h, read_decimal d s h (last_not_digit (at_cursor s) l))
      (behind-last a b c d s (λ _. λ _. some refused) h l)

-- Four bytes in dotted decimal form, and behind them nothing, a space, a backslash or a slash:
-- `_inet_str2n` gives the address in host order.
pub inet_str2n-dotted :
    (a b c d : ℕ) (rest : List ℕ)
    → a < 256
    → b < 256
    → c < 256
    → d < 256
    → is_last (at_cursor rest) ≡ true
    → inet_str2n (dotted a b c d rest) ≡ some (a * 2 ^ 24 + b * 2 ^ 16 + c * 2 ^ 8 + d)
unfolding inet_str2n
inet_str2n-dotted a b c d rest ha hb hc hd l =
    let s3 = decimal d ++ rest in
    let s2 = decimal c ++ (46 ∷ s3) in
    let s1 = decimal b ++ (46 ∷ s2) in
    ap inet_word (
      read_numbers-dot 2 a [] s1 ha
      ∙ read_numbers-dot 1 b (a ∷ []) s2 hb
      ∙ read_numbers-dot 0 c (a ∷ b ∷ []) s3 hc
      ∙ read_numbers-last a b c d rest hd l)

-- 0 or -1, or an int that overflows.
abbrev pub NoAddress : Option ℕ → Type 0
NoAddress r = (r ≡ some 0) ⊎ (r ≡ some (2 ^ 32 - 1)) ⊎ (r ≡ none)

last_number-NoAddress : (value c : ℕ) → NoAddress (inet_word (some (last_number [] value c)))
unfolding last_number above_class_max
last_number-NoAddress value c = elim (Bool-cases (is_last c)) [
  | inl e ↦ rw e (inl refl)
  | inr e ↦ rw e (inl refl)
]

behind-NoAddress :
    (value : ℕ) (s : List ℕ) (rest : List ℕ → List ℕ → Option Inet)
    → All (λ c. c ≢ 46) s
    → NoAddress (inet_word (behind_number 3 [] rest (read_digits value s)))
unfolding behind_number read_digits
behind-NoAddress value [] rest h = last_number-NoAddress value 0
behind-NoAddress value (c ∷ s) rest h = elim (Bool-cases (is_digit c)) [
  | inl e ↦ elim (Bool-cases (ltb (value * 10 + c) (2 ^ 31))) [
    | inl e' ↦ rw (e, e') (behind-NoAddress (value * 10 + (c - 48)) s rest h.1)
    | inr e' ↦ rw (e, e') (inr (inr refl))
  ]
  | inr e ↦ elim (Bool-cases (c == 58)) [
    | inl e' ↦ rw (e, ne→== c 46 h.0, e') (inr (inl refl))
    | inr e' ↦ rw (e, ne→== c 46 h.0, e') (last_number-NoAddress value c)
  ]
]

-- A string without a dot gives no address: it is refused, or an int overflows on the way. So a
-- number that stands for a whole address, as inet_aton reads it, is refused.
pub inet_str2n-no_dot : (s : List ℕ) → All (λ c. c ≢ 46) s → NoAddress (inet_str2n s)
unfolding inet_str2n read_numbers
inet_str2n-no_dot s h = elim (Bool-cases (is_digit (at_cursor s))) [
  | inl e ↦ rw e (behind-NoAddress 0 s (read_numbers 2) h)
  | inr e ↦ rw e (inl refl)
]

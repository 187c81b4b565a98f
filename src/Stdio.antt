-- ===== src/Stdio.antt =====
-- userland/libc/src/stdio.c: formatted output of the user programs.
-- A function gives the bytes that it passes to `sys_write`, in their order; `sys_write` itself is a
-- stub in assembly. An `int` is its 32 bits. A function has no result where its fuel runs out,
-- where an array would overflow, and where an argument is missing.
pub mod Numbers
pub mod Format
pub mod Texts
pub mod Fields
pub mod Conversions
mod Examples
use little_os.Base.{
  ℕ, zero, suc, ◌+◌, ◌-◌, ◌/◌, ◌%◌, ◌^◌, Bool, true, false, not, ◌&&◌, ◌||◌, Option, none, some,
  List, [], ◌∷◌, ◌++◌, Memory, ltb, leb, ◌==◌, if◌then◌else◌, u8, u32,
}
use little_os.Strings.{strlen}

abbrev pub Output : Type 0
Output = Option (List ℕ)

-- One output behind another.
unfoldable pub then_print {ℓ} : {A : Type ℓ} → Option (List A) → Option (List A) → Option (List A)
then_print none more = none
then_print (some out) none = none
then_print (some out) (some more) = some (out ++ more)

-- `sys_write(1, buf, count)`
pub bytes_at : Memory → (buf count : ℕ) → List ℕ
bytes_at m buf zero = []
bytes_at m buf (suc count) = u8 (m buf) ∷ bytes_at m (buf + 1) count

pub putchar : ℕ → List ℕ
putchar c = u8 c ∷ []

-- `sys_write(1, s, strlen(s))`
pub print_string : (fuel : ℕ) → Memory → (s : ℕ) → Output
print_string fuel m s = elim (strlen fuel m s) [ none ↦ none | some n ↦ some (bytes_at m s n) ]

pub puts : (fuel : ℕ) → Memory → (s : ℕ) → Output
puts fuel m s = then_print (print_string fuel m s) (some (10 ∷ []))

-- `gets`: `bytes` is the result of `sys_read`, whose bit 31 is the sign.
unfoldable pub gets : (buf bytes : ℕ) → ℕ
gets buf bytes = if bytes == 0 || leb (2 ^ 31) bytes then 0 else buf

pub digit_char : ℕ → ℕ
digit_char rem = if ltb rem 10 then b'0' + rem else b'a' + rem - 10

-- The two loops of `print_number`: the digits go to `buf` from the last on, and are written from
-- the end of `buf`. `room` is what is left of `buf`.
pub digits_loop : (room n base : ℕ) → List ℕ → Output
digits_loop zero n base out = if n == 0 then some out else none
digits_loop (suc room) n base out = elim (n == 0) [
  | true ↦ some out
  | false ↦ digits_loop room (n / base) base (digit_char (n % base) ∷ out)
]

abbrev pub is_negative : ℕ → Bool
is_negative num = leb (2 ^ 31) num

-- `-num` overflows for the least `int`, where this is the wrap that a compiler produces.
-- `(unsigned int)(-num)` if a minus sign is written, else `(unsigned int)num`.
pub magnitude : (num base : ℕ) → ℕ
magnitude num base = if base == 10 && is_negative num then u32 (2 ^ 32 - num) else num

pub print_number : (num base : ℕ) → Output
print_number num base =
    let n = magnitude num base in
    then_print (some (if base == 10 && is_negative num then putchar b'-' else []))
      (if n == 0 then some (putchar b'0') else digits_loop 32 n base [])

-- "(null)"
abbrev pub null_text : List ℕ
null_text = 40 ∷ 110 ∷ 117 ∷ 108 ∷ 108 ∷ 41 ∷ []

-- A conversion of `printf`, with the rest of the arguments.
pub convert : (fuel : ℕ) → Memory → (c : ℕ) → List ℕ → Output × List ℕ
convert fuel m c [] =
    if c == b'c' || c == b's' || c == b'd' || c == b'i' || c == b'x' || c == b'p'
    then (none, [])
    else (some (if c == b'%' then putchar b'%' else putchar b'%' ++ putchar c), [])
convert fuel m c (a ∷ args) =
    if c == b'c'
    then (some (putchar a), args)
    else if c == b's'
    then ((if a == 0 then some null_text else print_string fuel m a), args)
    else if c == b'd' || c == b'i'
    then (print_number a 10, args)
    else if c == b'x' || c == b'p'
    then (print_number a 16, args)
    else (some (if c == b'%' then putchar b'%' else putchar b'%' ++ putchar c), a ∷ args)

-- `while (*format)`; `strings` is the fuel for the string arguments.
pub printf : (fuel strings : ℕ) → Memory → (format : ℕ) → List ℕ → Output
printf zero strings m format args = none
printf (suc fuel) strings m format args = elim (m format == 0) [
  | true ↦ some []
  | false ↦ elim (m format == b'%') [
    | true ↦
        let (out, args') = convert strings m (m (format + 1)) args in
        then_print out (printf fuel strings m (format + 2) args')
    | false ↦ then_print (some (putchar (m format))) (printf fuel strings m (format + 1) args)
  ]
]

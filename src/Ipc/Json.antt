-- ===== src/Ipc/Json.antt =====
-- src/ipc/json.c: the writer of the replies. `buffer` (`data` in the source) is NULL (none) or the first `length` bytes of the
-- buffer; `length` is the number of those bytes. `grant` says which sizes `realloc` gives: the sizes
-- that one writer asks for never repeat, so a function of the size describes any allocator.
pub mod Grow
pub mod Escape
use leme.Base.{
  ℕ, zero, suc, ◌+◌, ◌-◌, ◌*◌, ◌/◌, ◌%◌, ◌≤◌, ◌==◌, ltb, leb, if◌then◌else◌, Bool, true, false,
  Option, none, some, List, [], ◌∷◌, ◌++◌, length,
}
use leme.Base.Int.{ℤ, pos, negsuc}
use leme.Ipc.Request.{Bytes}

pub record Json : Type 0 where
  pub buffer : Option Bytes
  pub capacity : ℕ
  pub failed : Bool
  pub need_comma : Bool

abbrev pub written : Option Bytes → Bytes
written none = []
written (some text) = text

abbrev pub contents : Json → Bytes
contents json = written json.buffer

abbrev pub size_max : ℕ
size_max = 18446744073709551615

unfoldable pub init : Json
init = record { buffer = none; capacity = 0; failed = false; need_comma = false }

unfoldable pub finish : Json → Json
finish json = init

unfoldable pub fail : Json → Json
fail json = record json { failed = true }

unfoldable pub comma : Bool → Json → Json
comma b json = record json { need_comma = b }

pub data Growth : Type 0 where
  out_of_fuel : Growth
  too_large : Growth
  grown : ℕ → Growth

-- `while (capacity < needed)`
unfoldable pub grow : ℕ → ℕ → ℕ → Growth
grow zero capacity needed = out_of_fuel
grow (suc fuel) capacity needed =
    let rest = grow fuel (capacity * 2) needed in
    if ltb capacity needed
    then if ltb (size_max / 2) capacity then too_large else rest
    else grown capacity

unfoldable pub reallocate : (ℕ → Bool) → Json → Growth → Json
reallocate grant json out_of_fuel = fail json
reallocate grant json too_large = fail json
reallocate grant json (grown capacity) =
    if grant capacity
    then record json { buffer = some (contents json); capacity = capacity }
    else fail json

-- A capacity of at least 1 exceeds every size after 64 doublings, hence the fuel. The length is less
-- than SIZE_MAX, so that the subtraction does not wrap.
unfoldable pub reserve : (ℕ → Bool) → Json → ℕ → Json
reserve grant json extra =
    let needed = length (contents json) + extra + 1 in
    let capacity = if json.capacity == 0 then 128 else json.capacity in
    if json.failed
    then json
    else if ltb (size_max - 1 - length (contents json)) extra
    then fail json
    else if leb needed json.capacity
    then json
    else reallocate grant json (grow 65 capacity needed)

-- `reserve` returns false just where it leaves `failed` set.
unfoldable pub append : (ℕ → Bool) → Json → Bytes → Json
append grant json text =
    let reserved = reserve grant json (length text) in
    if reserved.failed
    then reserved
    else record reserved { buffer = some (contents reserved ++ text) }

unfoldable pub separate : (ℕ → Bool) → Json → Json
separate grant json = if json.need_comma then append grant json (b',' ∷ []) else json

unfoldable pub object_begin : (ℕ → Bool) → Json → Json
object_begin grant json = comma false (append grant (separate grant json) (b'{' ∷ []))

unfoldable pub object_end : (ℕ → Bool) → Json → Json
object_end grant json = comma true (append grant json (b'}' ∷ []))

unfoldable pub array_begin : (ℕ → Bool) → Json → Json
array_begin grant json = comma false (append grant (separate grant json) (b'[' ∷ []))

unfoldable pub array_end : (ℕ → Bool) → Json → Json
array_end grant json = comma true (append grant json (b']' ∷ []))

-- `%x` of a number below 16.
unfoldable pub hex_digit : ℕ → ℕ
hex_digit n = if ltb n 10 then n + 48 else n + 87

-- What the loop of `leme_json_raw_string` appends for one byte.
unfoldable pub escape : ℕ → Bytes
escape c =
    if c == 34
    then 92 ∷ 34 ∷ []
    else if c == 92
    then 92 ∷ 92 ∷ []
    else if c == 10
    then 92 ∷ b'n' ∷ []
    else if c == 9
    then 92 ∷ b't' ∷ []
    else if c == 13
    then 92 ∷ b'r' ∷ []
    else if c == 8
    then 92 ∷ b'b' ∷ []
    else if c == 12
    then 92 ∷ b'f' ∷ []
    else if ltb c 32
    then 92 ∷ b'u' ∷ b'0' ∷ b'0' ∷ hex_digit (c / 16) ∷ hex_digit (c % 16) ∷ []
    else c ∷ []

unfoldable pub escape_all : (ℕ → Bool) → Json → Bytes → Json
escape_all grant json [] = json
escape_all grant json (c ∷ value) = escape_all grant (append grant json (escape c)) value

unfoldable pub raw_string : (ℕ → Bool) → Json → Bytes → Json
raw_string grant json value =
    append grant (escape_all grant (append grant json (34 ∷ [])) value) (34 ∷ [])

unfoldable pub key : (ℕ → Bool) → Json → Bytes → Json
key grant json name =
    append grant (raw_string grant (comma false (separate grant json)) name) (b':' ∷ [])

unfoldable pub null : (ℕ → Bool) → Json → Json
null grant json = comma true (append grant (separate grant json) (b'n' ∷ b'u' ∷ b'l' ∷ b'l' ∷ []))

-- NULL is `none`.
unfoldable pub string : (ℕ → Bool) → Json → Option Bytes → Json
string grant json none = null grant json
string grant json (some value) = comma true (raw_string grant (separate grant json) value)

abbrev pub bool_text : Bool → Bytes
bool_text true = b't' ∷ b'r' ∷ b'u' ∷ b'e' ∷ []
bool_text false = b'f' ∷ b'a' ∷ b'l' ∷ b's' ∷ b'e' ∷ []

unfoldable pub bool : (ℕ → Bool) → Json → Bool → Json
bool grant json value = comma true (append grant (separate grant json) (bool_text value))

-- The digits of a number in front of `digits`; a `long` has at most 19.
unfoldable pub decimal : ℕ → ℕ → Bytes → Bytes
decimal zero n digits = digits
decimal (suc fuel) n digits =
    let more = decimal fuel (n / 10) ((n % 10 + 48) ∷ digits) in
    if ltb n 10 then (n + 48) ∷ digits else more

-- `%ld`
unfoldable pub print_long : ℤ → Bytes
print_long (pos n) = decimal 19 n []
print_long (negsuc n) = b'-' ∷ decimal 19 (n + 1) []

unfoldable pub number : (ℕ → Bool) → Json → ℤ → Json
number grant json value =
    if leb 32 (length (print_long value))
    then fail json
    else comma true (append grant (separate grant json) (print_long value))

unfoldable pub result : Json → Option Bytes
result json = if json.failed then none else json.buffer

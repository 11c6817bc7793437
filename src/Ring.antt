-- ===== src/Ring.antt =====
-- src/circular_buffer.c: the circular buffer that holds the multicast frames to send. An element
-- is a `void *`, here its address. `malloc` leaves the slots with any contents, a parameter.
mod Tests
pub mod Queue
mod Distance
pub mod Window
pub mod Refine
use owl.Base.{
  ℕ, ◌+◌, ◌-◌, ◌%◌, ◌^◌, Bool, true, false, not, ◌&&◌, leb, ◌==◌, if◌then◌else◌, Option, none, some,
  List, get_or, set,
}

pub record CircularBuf : Type 0 where
  pub buffer : List ℕ
  pub head : ℕ
  pub tail : ℕ
  pub max : ℕ
  pub full : Bool

-- `size_t` addition wraps.
abbrev next_index : CircularBuf → ℕ → ℕ
next_index c i = (i + 1) % 2 ^ 64 % c.max

unfoldable advance_pointer : CircularBuf → CircularBuf
advance_pointer c =
    let tail = if c.full then next_index c c.tail else c.tail in
    let head = next_index c c.head in record c { tail = tail; head = head; full = head == tail }

unfoldable pub retreat_pointer : CircularBuf → CircularBuf
retreat_pointer c = record c { full = false; tail = next_index c c.tail }

unfoldable reset : CircularBuf → CircularBuf
reset c = record c { head = 0; tail = 0; full = false }

-- `assert(size)`: `none` is the failed assertion. `slots` is what `malloc` returned.
unfoldable pub init : List ℕ → ℕ → Option CircularBuf
unfolding reset
init slots size =
    if size == 0
    then none
    else some (reset (record { buffer = slots; head = 0; tail = 0; max = size; full = false }))

unfoldable pub size : CircularBuf → ℕ
size c =
    if c.full
    then c.max
    else if leb c.tail c.head
    then c.head - c.tail
    else (c.max + c.head) % 2 ^ 64 - c.tail

unfoldable pub capacity : CircularBuf → ℕ
capacity c = c.max

unfoldable pub empty : CircularBuf → Bool
empty c = not c.full && c.head == c.tail

unfoldable pub full : CircularBuf → Bool
full c = c.full

unfoldable pub put : CircularBuf → ℕ → CircularBuf
unfolding advance_pointer
put c x = advance_pointer (record c { buffer = set c.buffer c.head x })

-- The `Bool` is `r == 0`; otherwise the code returns -1.
unfoldable pub put2 : CircularBuf → ℕ → Bool × CircularBuf
put2 c x = if full c then (false, c) else (true, put c x)

-- `some x` is 0 with `*data == x`, and `none` is -1, where `*data` is left alone.
unfoldable pub get : CircularBuf → Bool → Option ℕ × CircularBuf
get c peek =
    if empty c
    then (none, c)
    else (some (get_or c.buffer c.tail 0), if peek then c else retreat_pointer c)

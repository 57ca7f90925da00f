-- ===== src/Util/Clocks.antt =====
-- GetElapsedMS and getInt32FromNetByte (common/util.cc), and the clock of the timers.
use synergy_lib.Prelude.{◌∙◌, ℕ, arith, ◌+◌, ◌*◌, ◌/◌, ◌%◌, ◌-◌, ◌^◌, ◌≡◌, ◌<◌, ◌≤◌, false}
use synergy_lib.Prelude.Int.{ℤ, pos, negsuc}
use synergy_lib.Timer.Listing.{clock_rollover}
use synergy_lib.Util.{get_elapsed_ms, get_int32_from_net_byte, Host}

-- A timespec in nanoseconds.
abbrev pub nanoseconds : ℕ → ℕ → ℕ
nanoseconds sec nsec = sec * 1000000000 + nsec

get_elapsed_ms_floor :
    (sec nsec : ℕ)
    → nsec < 1000000000
    → sec < 2 ^ 53
    → get_elapsed_ms sec nsec ≡ nanoseconds sec nsec / 1000000
unfolding get_elapsed_ms
get_elapsed_ms_floor sec nsec lt fits = omega arith

-- A clock that does not go back between two readings, in the order in which the timers use them, is
-- never taken for one that was set back: GetElapsedMS keeps the order of the readings.
pub steady_clock_never_rolls_over :
    (sec nsec sec' nsec' : ℕ)
    → nsec < 1000000000
    → nsec' < 1000000000
    → sec' < 2 ^ 53
    → nanoseconds sec nsec ≤ nanoseconds sec' nsec'
    → (get_elapsed_ms sec nsec ≤ get_elapsed_ms sec' nsec')
      × (clock_rollover (get_elapsed_ms sec nsec) (get_elapsed_ms sec' nsec') ≡ false)
unfolding clock_rollover
steady_clock_never_rolls_over sec nsec sec' nsec' lt lt' fits le =
    let first = get_elapsed_ms_floor sec nsec lt (omega arith) in
    let second = get_elapsed_ms_floor sec' nsec' lt' fits in
    (omega (arith, first, second), ground (arith, first, second))

-- The four bytes of a 32-bit integer in the order of the network, and the integer.
abbrev pub bits_of : ℤ → ℕ
bits_of (pos n) = n
bits_of (negsuc n) = 2 ^ 32 - 1 - n

abbrev pub FitsInt32 : ℤ → Type 0
FitsInt32 (pos n) = n < 2 ^ 31
FitsInt32 (negsuc n) = n < 2 ^ 31

received :
    (h : Host) (n : ℕ)
    → n < 2 ^ 32
    → h.ntohl (h.load (n / 2 ^ 24) (n / 2 ^ 16 % 256) (n / 2 ^ 8 % 256) (n % 256)) ≡ n
received h n lt =
    h.ntohl-load (n / 2 ^ 24) (n / 2 ^ 16 % 256) (n / 2 ^ 8 % 256) (n % 256) (omega arith)
      (omega arith) (omega arith) (omega arith)
    ∙ omega arith

-- The bytes of a 32-bit integer in the order of the network are read back as that integer, on a host
-- of either byte order.
pub int32_roundtrip :
    (h : Host) (z : ℤ)
    → FitsInt32 z
    → let n = bits_of z in
      get_int32_from_net_byte h (n / 2 ^ 24) (n / 2 ^ 16 % 256) (n / 2 ^ 8 % 256) (n % 256) ≡ z
unfolding get_int32_from_net_byte
int32_roundtrip h (pos n) lt = rw (received h n (omega arith)) (ground arith)
int32_roundtrip h (negsuc n) lt = rw (received h (2 ^ 32 - 1 - n) (omega arith)) (ground arith)

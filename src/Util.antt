-- ===== src/Util.antt =====
-- common/util.cc: ids, clocks and bytes. What the system calls return are arguments: the result of
-- getpid and of gettid, and the fields of the timeval and the timespec. A variable that is 0 is not
-- set.
pub mod Clocks
use synergy_lib.Prelude.{
  ℕ, ◌+◌, ◌*◌, ◌/◌, ◌-◌, ◌^◌, ◌≡◌, ◌<◌, List, [], ◌∷◌, ltb, if◌then◌else◌, u64, ◌==◌, Bool, true,
  false, Option, none, some,
}
use synergy_lib.Prelude.Int.{ℤ, pos, negsuc}

-- getPid, whose g_pid nothing sets
unfoldable pub get_pid : ℕ → ℕ → ℕ
get_pid g_pid getpid = if g_pid == 0 then getpid else g_pid

-- getThreadId, whose g_thread_id nothing sets
unfoldable pub get_thread_id : ℕ → ℕ → ℕ
get_thread_id g_thread_id gettid = if g_thread_id == 0 then gettid else g_thread_id

-- getNowMs
unfoldable pub get_now_ms : ℕ → ℕ → ℕ
get_now_ms tv_sec tv_usec = tv_sec * 1000 + tv_usec / 1000

-- GetElapsedMS
unfoldable pub get_elapsed_ms : ℕ → ℕ → ℕ
get_elapsed_ms tv_sec tv_nsec = u64 (tv_sec * 1000 + tv_nsec / 1000000)

-- The conversion of a uint32_t to an int32_t.
abbrev pub to_int32 : ℕ → ℤ
to_int32 n = if ltb n (2 ^ 31) then pos n else negsuc (2 ^ 32 - 1 - n)

-- The host's memcpy of four bytes to an int32_t, as a bit pattern, and ntohl, which the host's
-- byte order fixes: the first byte of the network is the most significant one.
pub record Host : Type 0 where
  pub load : ℕ → ℕ → ℕ → ℕ → ℕ
  pub ntohl : ℕ → ℕ
  pub ntohl-load :
      (a b c d : ℕ)
      → a < 256
      → b < 256
      → c < 256
      → d < 256
      → ntohl (load a b c d) ≡ ((a * 256 + b) * 256 + c) * 256 + d

-- getInt32FromNetByte, on the four bytes that it copies
unfoldable pub get_int32_from_net_byte : Host → ℕ → ℕ → ℕ → ℕ → ℤ
get_int32_from_net_byte h a b c d = to_int32 (h.ntohl (h.load a b c d))

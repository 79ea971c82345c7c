-- ===== src/Header/Latency.antt =====
-- `getLatency` measures the time since the last touch.
use artdaq_core.Prelude.{ℕ, ◌+◌, ◌*◌, ◌^◌, ◌<◌, ◌≤◌, ◌≡◌, arith}
use artdaq_core.Header.{RawFragmentHeader, Timespec, touch, get_latency}

-- The nanoseconds since the epoch.
abbrev pub nanoseconds : Timespec → ℕ
nanoseconds t = t.tv_sec * 1000000000 + t.tv_nsec

-- A time of the clock that the fields of the header can hold.
pub record IsTime (t : Timespec) : Type 0 where
  pub tv_sec : t.tv_sec < 2 ^ 32
  pub tv_nsec : t.tv_nsec < 1000000000

-- A header that was touched at one time reports at a later one the nanoseconds that have passed, with
-- fewer than a second of them in `tv_nsec`.
pub get_latency-touch :
    (h : RawFragmentHeader) (before now : Timespec)
    → IsTime before
    → IsTime now
    → nanoseconds before ≤ nanoseconds now
    → (nanoseconds before + nanoseconds (get_latency now (touch before h)) ≡ nanoseconds now)
      × ((get_latency now (touch before h)).tv_nsec < 1000000000)
unfolding get_latency touch
get_latency-touch h before now b n le = (ground arith, ground arith)

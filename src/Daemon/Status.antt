-- ===== src/Daemon/Status.antt =====
-- engine/daemon/src/lib.rs: the status bytes, `is_authorized` and `remaining_timeout_ms`. Instants
-- and durations are numbers of nanoseconds.
use loofi_face_id.Prelude.{
  ℕ, ◌-◌, ◌/◌, ◌^◌, Bool, ◌||◌, Option, none, some, leb, ltb, ◌==◌, if◌then◌else◌, min, ◌≡◌, ◌↔◌,
  arith, true,
}

abbrev pub status_success : ℕ
status_success = 0x00

abbrev pub status_auth_failed : ℕ
status_auth_failed = 0x01

abbrev pub status_access_denied : ℕ
status_access_denied = 0x02

abbrev pub status_no_profile : ℕ
status_no_profile = 0x03

abbrev pub status_timeout : ℕ
status_timeout = 0x04

abbrev pub status_device_busy : ℕ
status_device_busy = 0x05

abbrev pub status_internal_error : ℕ
status_internal_error = 0x06

abbrev pub status_spoof_detected : ℕ
status_spoof_detected = 0x07

abbrev pub status_rate_limited : ℕ
status_rate_limited = 0x08

abbrev pub status_cancelled : ℕ
status_cancelled = 0x09

abbrev pub status_progress : ℕ
status_progress = 0x80

unfoldable pub is_authorized : ℕ → ℕ → Bool
is_authorized peer_uid target_uid = peer_uid == target_uid || peer_uid == 0

-- `max(1)` in milliseconds, and the conversion to 32 bits that saturates.
unfoldable pub remaining_timeout_ms : ℕ → ℕ → Option ℕ
remaining_timeout_ms deadline now =
    if leb deadline now
    then none
    else let milliseconds = (deadline - now) / 1000000 in
      some (min (if ltb milliseconds 1 then 1 else milliseconds) (2 ^ 32 - 1))

-- `remaining_timeout_ms(deadline).is_none()`
unfoldable pub is_expired : ℕ → ℕ → Bool
is_expired deadline now = leb deadline now

is_expired-remaining_timeout_ms :
    (deadline now : ℕ)
    → (is_expired deadline now ≡ true) ↔ (remaining_timeout_ms deadline now ≡ none)
unfolding is_expired remaining_timeout_ms
is_expired-remaining_timeout_ms deadline now = ground arith

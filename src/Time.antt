-- ===== src/Time.antt =====
-- Python's `datetime` values: an instant in microseconds, and the offset of a zone in seconds if the
-- value is aware. `instant` is in UTC for an aware value, so `astimezone(timezone.utc)` leaves it.
-- Years run from 1 to 9999, so an instant is a natural number.
use skifer.Prelude.{ℕ, ◌*◌, Bool, true, false}

pub data Zone : Type 0 where
  naive utc : Zone
  -- an offset other than zero, east or west
  shifted : Bool → ℕ → Zone

pub record DateTime : Type 0 where
  pub instant : ℕ
  pub zone : Zone

aware_zone : Zone → Bool
aware_zone naive = false
aware_zone _ = true

utc_zone : Zone → Bool
utc_zone utc = true
utc_zone _ = false

-- `value.tzinfo is not None and value.utcoffset() is not None`
unfoldable pub is_aware : DateTime → Bool
unfolding aware_zone
is_aware d = aware_zone d.zone

-- aware, and `value.utcoffset() == timedelta(0)`
unfoldable pub is_utc : DateTime → Bool
unfolding utc_zone
is_utc d = utc_zone d.zone

-- `timedelta(seconds=n)` in microseconds.
abbrev pub seconds : ℕ → ℕ
seconds n = n * 1_000_000

abbrev pub minutes : ℕ → ℕ
minutes n = seconds (n * 60)

abbrev pub hours : ℕ → ℕ
hours n = minutes (n * 60)

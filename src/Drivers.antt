-- ===== src/Drivers.antt =====
-- drivers/granularity.go and drivers/time_interval.go: the intervals in which a source is read.
use eventnative.Base.{ℕ, ◌-◌, Bool, true, false, [], ◌++◌, if◌then◌else◌, ltb}
use eventnative.Base.Int.{ℤ, pos, negsuc}
use eventnative.Base.Text.{Text, codes}

-- A Granularity is a string in Go; `other` is a string that is none of the constants.
pub data Granularity : Type 0 where
  day month year all : Granularity
  other : Text → Granularity

-- What the program takes from the package time. Times are nanoseconds since the zero time, UTC.
pub record Calendar : Type 0 where
  pub year_of : ℕ → ℕ
  pub month_of : ℕ → ℕ
  pub day_of : ℕ → ℕ
  -- `time.Date(y, m, d, 0, 0, 0, 0, loc)`
  pub date : ℕ → ℕ → ℕ → ℕ
  -- `t.AddDate(y, m, d)`
  pub add_date : ℤ → ℤ → ℤ → ℕ → ℕ
  -- `t.Truncate(24 * time.Hour)`
  pub truncate_day : ℕ → ℕ
  -- `t.Format(layout)`
  pub format_time : Text → ℕ → Text

module _ (cal : Calendar) where
  -- `Lower`; `time.Time{}` is 0.
  unfoldable pub lower : Granularity → ℕ → ℕ
  lower day t = cal.truncate_day t
  lower month t = cal.date (cal.year_of t) (cal.month_of t) 1
  lower year t = cal.date (cal.year_of t) 1 1
  lower all t = 0
  lower (other s) t = 0

  -- `Upper`: a nanosecond before the next interval.
  unfoldable pub upper : Granularity → ℕ → ℕ
  upper day t =
      cal.add_date (pos 0) (pos 0) (pos 1)
        (cal.date (cal.year_of t) (cal.month_of t) (cal.day_of t))
      - 1
  upper month t =
      cal.add_date (pos 0) (pos 1) (pos 0) (cal.date (cal.year_of t) (cal.month_of t) 1) - 1
  upper year t = cal.add_date (pos 1) (pos 0) (pos 0) (cal.date (cal.year_of t) 1 1) - 1
  upper all t = 0
  upper (other s) t = 0

  unfoldable pub format : Granularity → ℕ → Text
  format day t = cal.format_time (codes "2006-01-01") t
  format month t = cal.format_time (codes "2006-01") t
  format year t = cal.format_time (codes "2006") t
  format all t = codes "ALL"
  format (other s) t = []

unfoldable pub name_of : Granularity → Text
name_of day = codes "DAY"
name_of month = codes "MONTH"
name_of year = codes "YEAR"
name_of all = codes "ALL"
name_of (other s) = []

pub record TimeInterval : Type 0 where
  pub time_zone_id : Text
  pub granularity : Granularity
  pub time : ℕ

unfoldable pub new_time_interval : Granularity → ℕ → TimeInterval
new_time_interval g t = record { time_zone_id = codes "UTC"; granularity = g; time = t }

abbrev signature_layout : Text
signature_layout = codes "2006-01-02T15:04:05.000Z"

-- `IsAll`
unfoldable pub is_all : TimeInterval → Bool
is_all ti = elim ti.granularity [ all ↦ true | _ ↦ false ]

module _ (cal : Calendar) where
  unfoldable pub lower_endpoint : TimeInterval → ℕ
  unfolding lower
  lower_endpoint ti = lower cal ti.granularity ti.time

  unfoldable pub upper_endpoint : TimeInterval → ℕ
  unfolding upper
  upper_endpoint ti = upper cal ti.granularity ti.time

  unfoldable pub calculate_signature_from : TimeInterval → ℕ → Text
  unfolding upper_endpoint
  calculate_signature_from ti t =
      let time_with_lag = cal.add_date (pos 0) (pos 0) (negsuc 0) t in
      if ltb time_with_lag (upper_endpoint ti)
      then cal.format_time signature_layout time_with_lag
      else cal.format_time signature_layout (upper_endpoint ti)

  -- `String`
  unfoldable pub to_text : TimeInterval → Text
  unfolding format name_of
  to_text ti =
      ti.time_zone_id
      ++ (codes "_" ++ (name_of ti.granularity ++ (codes "_" ++ format cal ti.granularity ti.time)))

-- ===== src/Store/Holidays.antt =====
-- backend/app/memory/holidays.py: the holidays around a day. The date that lies some days from today is
-- a parameter: calendar arithmetic is the library's.
use cyber_companion.Base.{
  ℕ, zero, suc, ◌+◌, String, ◌&&◌, Option, none, some, List, [], ◌∷◌, ◌==◌, if◌then◌else◌,
}
use cyber_companion.Base.Int.{ℤ, sub_ℕ}

pub record Date : Type 0 where
  pub year : ℕ
  pub month : ℕ
  pub day : ℕ

-- A holiday of a month and a day.
abbrev pub Holiday : Type 0
Holiday = ℕ × ℕ × String

abbrev pub fixed_holidays : List Holiday
fixed_holidays =
    (1, 1, "元旦")
    ∷ (2, 6, "怀唐伊日（新西兰）")
    ∷ (3, 8, "妇女节")
    ∷ (4, 25, "澳新军团纪念日（新西兰）")
    ∷ (5, 1, "劳动节")
    ∷ (5, 4, "青年节")
    ∷ (6, 1, "儿童节")
    ∷ (7, 1, "建党节")
    ∷ (8, 1, "建军节")
    ∷ (10, 1, "国庆节")
    ∷ (12, 25, "圣诞节")
    ∷ (12, 26, "节礼日（新西兰）")
    ∷ []

abbrev pub lunar_2026 : List Holiday
lunar_2026 =
    (1, 2, "新年假期（新西兰）")
    ∷ (2, 17, "除夕")
    ∷ (2, 18, "春节")
    ∷ (3, 5, "元宵节")
    ∷ (4, 3, "耶稣受难日（新西兰）")
    ∷ (4, 4, "清明节")
    ∷ (4, 6, "复活节（新西兰）")
    ∷ (5, 1, "劳动节 / 儿童节前夕")
    ∷ (6, 1, "儿童节 / 国王诞辰（新西兰）")
    ∷ (6, 22, "端午节")
    ∷ (7, 10, "马塔里基（新西兰）")
    ∷ (8, 29, "七夕")
    ∷ (9, 25, "中秋节")
    ∷ (10, 22, "重阳节")
    ∷ (10, 26, "劳工节（新西兰）")
    ∷ (12, 22, "冬至")
    ∷ []

-- `_LUNAR.get(year, {})`
abbrev pub lunar_holidays : ℕ → List Holiday
lunar_holidays year = if year == 2026 then lunar_2026 else []

unfoldable pub named_on : ℕ → ℕ → List Holiday → Option String
named_on month day [] = none
named_on month day ((m, d, name) ∷ rest) =
    if m == month && d == day then some name else named_on month day rest

-- `_LUNAR.get(d.year, {}).get(key) or _FIXED.get(key)`; no name is empty.
unfoldable pub holiday_of : Date → Option String
unfolding named_on
holiday_of d = elim (named_on d.month d.day (lunar_holidays d.year)) [
  | none ↦ named_on d.month d.day fixed_holidays
  | some name ↦ some name
]

-- The days from `i` days after the first, `n` of them.
holidays_from : (ℤ → Date) → ℕ → ℕ → ℕ → List (ℤ × String)
unfolding holiday_of
holidays_from day_at before_days i zero = []
holidays_from day_at before_days i (suc n) =
    let delta = sub_ℕ i before_days in
    let later = holidays_from day_at before_days (i + 1) n in
    elim (holiday_of (day_at delta)) [ none ↦ later | some name ↦ (delta, name) ∷ later ]

-- `before_days` and `after_days` default to 3 and 7.
unfoldable pub get_holiday_window : (ℤ → Date) → ℕ → ℕ → List (ℤ × String)
unfolding holidays_from
get_holiday_window day_at before_days after_days =
    holidays_from day_at before_days 0 (before_days + after_days + 1)
